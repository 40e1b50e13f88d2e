-- ===== src/Client/Commit/Hidden.antt =====
-- src/client/xdg_shell.rs and handle_commit: a surface that has lost its local surface.
use mathlib.Core.Path.{subst}
use wprs.Base.{
  ℕ, Bool, true, false, Option, none, some, List, [], ◌∷◌, ◌++◌, ◌==◌, ◌≡◌, refl, sym, ap, ◌∙◌, inl,
  inr, Option-cases, ==_iff,
}
use wprs.Geometry.{ℤ}
use wprs.Vec4u8s.{Vec4u8s}
use wprs.Wayland
use wprs.Wayland.{Role, BufferAssignment, SurfaceState, XdgToplevelState}
use wprs.Client.{
  RemoteBuffer, RemoteSurface, Asked, Compositor, ClientState, Outcome, left_by, Action, ◌>>=◌, get,
  put, ask, Surfaces, insert, wl_surface, or_insert_new,
}
use wprs.Client.Attributes.{set_transformation}
use wprs.Client.Buffers.{Pool, Applied, apply_buffer}
use wprs.Client.Commit.{buffer_applied, commit_state, commit_applied, handle_commit}
use wprs.Client.Commit.Branches.{first-inj, none-some}
use wprs.Client.Settled.{Settled, Leaves, >>=-Leaves, put-Leaves}
use wprs.Client.Subsurface.{is_some}
use wprs.Client.Subsurface.Linked.{insert-same}
use wprs.Client.XdgToplevel
use wprs.Client.XdgToplevel.{toplevel_state_of, set_parent}

-- A surface that is there, without a local surface.
abbrev pub IsHidden : ℕ → Surfaces → Type 0
IsHidden k m = (s : RemoteSurface) × (m k ≡ some s) × (wl_surface s ≡ none)

buffer-hidden :
    (s : RemoteSurface) (b : Option RemoteBuffer)
    → wl_surface s ≡ none
    → wl_surface (record s { buffer = b }) ≡ none
unfolding wl_surface
buffer-hidden s b h = h

hides : (s : RemoteSurface) → s.role ≡ none → wl_surface (record s { local_surface = none }) ≡ none
unfolding wl_surface
hides s r = rw r refl

module _ {B : Type 0} (compositor : Compositor B) (k : ℕ) where
  -- After what never succeeds.
  never :
      {A : Type 0} {Q : A → Surfaces → Type 0} {act : Action B A}
      → Leaves (λ m. ⊥) Q (IsHidden k) act
  never = record { run = λ c p. absurd p }

  set_transformation-IsHidden :
      (scale : ℤ) (t : Option Wayland.Transform)
      → Leaves (IsHidden k) (λ u m. ⊥) (IsHidden k) (set_transformation {B = B} k scale t)
  unfolding set_transformation get
  set_transformation-IsHidden scale t = record {
    run = λ c p. rw (Settled, set_transformation, ◌>>=◌, p.1, p.2) p;
  }

  buffer_applied-IsHidden :
      (s : RemoteSurface) (a : Option BufferAssignment) (b : Option RemoteBuffer)
      → wl_surface s ≡ none
      → Leaves
          (λ m. m k ≡ some s)
          (λ u. IsHidden k)
          (IsHidden k)
          (buffer_applied compositor k s a b)
  unfolding buffer_applied
  buffer_applied-IsHidden s none b h =
      put-Leaves (IsHidden k) _ k _ (λ m e. (_, insert-same k _ m, buffer-hidden s b h))
  buffer_applied-IsHidden s (some (BufferAssignment.new n)) b h =
      put-Leaves (IsHidden k) _ k _ (λ m e. (_, insert-same k _ m, buffer-hidden s b h))
  buffer_applied-IsHidden s (some BufferAssignment.removed) b h = record {
    run = λ c p. rw (Settled, ◌>>=◌, h) (s, p, h);
  }

  commit_state-IsHidden :
      (fuel client_id : ℕ) (title_prefix : List ℕ) (state : SurfaceState) (s : RemoteSurface)
      (b : Option RemoteBuffer)
      → wl_surface s ≡ none
      → Leaves
          (λ m. m k ≡ some s)
          (λ u m. ⊥)
          (IsHidden k)
          (commit_state compositor fuel client_id k title_prefix state s b)
  unfolding commit_state
  commit_state-IsHidden fuel client_id title_prefix state s b h =
      >>=-Leaves (IsHidden k) (λ u. IsHidden k) (buffer_applied-IsHidden s state.buffer b h)
        (λ u.
          >>=-Leaves (IsHidden k) (λ u m. ⊥)
            (set_transformation-IsHidden state.buffer_scale state.buffer_transform) (λ u. never))

  commit_applied-IsHidden :
      {P : Type 0} (fuel client_id : ℕ) (title_prefix : List ℕ) (state : SurfaceState)
      (s : RemoteSurface) (a : Applied P) (c : ClientState B)
      → c.surfaces k ≡ some s
      → wl_surface s ≡ none
      → Settled
          (λ u m. ⊥)
          (IsHidden k)
          (commit_applied compositor fuel client_id k title_prefix state s a c).0
  unfolding commit_applied put
  commit_applied-IsHidden fuel client_id title_prefix state s (Applied.err b cache p) c there h =
      (record s { buffer = b }, insert-same k _ c.surfaces, buffer-hidden s b h)
  commit_applied-IsHidden fuel client_id title_prefix state s (Applied.ok b cache p) c there h =
      (commit_state-IsHidden fuel client_id title_prefix state s b h).run c there

  -- A commit of it, whatever its state, does not succeed, and leaves it so.
  pub handle_commit-IsHidden :
      {P : Type 0} (pool : Pool P) (fuel client_id : ℕ) (title_prefix : List ℕ)
      (state : SurfaceState) (cache cache' : Option Vec4u8s) (p p' : P) (c : ClientState B)
      (o : Outcome B (Unit {0}))
      → IsHidden k c.surfaces
      → handle_commit compositor pool fuel client_id k title_prefix state cache p c
        ≡ some (o, cache', p')
      → Settled (λ u m. ⊥) (IsHidden k) o
  unfolding handle_commit or_insert_new
  handle_commit-IsHidden pool fuel client_id title_prefix state cache cache' p p' c o (s, there, h)
        e =
      elim (Option-cases (apply_buffer pool state.buffer s.buffer cache p)) [
        | inl failed ↦ absurd (none-some (rw (handle_commit, or_insert_new, there, failed) at e))
        | inr (a, applied) ↦
            subst (Settled (λ (u : Unit {0}) (m : Surfaces). ⊥) (IsHidden k))
              (first-inj (rw (handle_commit, or_insert_new, there, applied) at e))
              (commit_applied-IsHidden fuel client_id title_prefix state s a c there h)
      ]

  role_without_parent :
      (client_id : ℕ) (state : SurfaceState) (title_prefix : List ℕ) (c : ClientState B)
      (s : RemoteSurface) (l p : ℕ) (t : XdgToplevelState)
      → c.surfaces k ≡ some s
      → s.role ≡ none
      → s.local_surface ≡ some l
      → state.role ≡ some (Role.xdg_toplevel t)
      → t.parent ≡ some p
      → c.surfaces p ≡ none
      → (c' : ClientState B) × (XdgToplevel.apply compositor client_id state k title_prefix c
          ≡ Outcome.err c')
        × IsHidden k c'.surfaces
  unfolding XdgToplevel.apply XdgToplevel.set_role toplevel_state_of get put ask set_parent
      Wayland.as_xdg_toplevel wl_surface
  role_without_parent client_id state title_prefix c s l p t there r held role parent missing =
      let lent : RemoteSurface = record s { local_surface = none } in
      let apart : (p == k) ≡ false = other (p == k) refl in
      (
        record c {
          surfaces = insert k lent c.surfaces;
          asked = c.asked ++ Asked.create_window l ∷ [];
        },
        rw
            (
              XdgToplevel.apply,
              XdgToplevel.set_role,
              ◌>>=◌,
              there,
              ap is_some r,
              held,
              toplevel_state_of,
              role,
              parent,
              set_parent,
              apart,
              missing,
            )
            refl,
        (lent, insert-same k lent c.surfaces, hides s r),
      )
    where
      other : (b : Bool) → (p == k) ≡ b → b ≡ false
      other false e = refl
      other true e = absurd (none-some (sym missing ∙ ap c.surfaces ((==_iff p k).0 e) ∙ there))

module _ {B P : Type 0} (compositor : Compositor B) (pool : Pool P) (k : ℕ) where
  -- What commits of the surface, whether or not they fail, lead to.
  pub data Commits (from : ClientState B) : ClientState B → Type 0 where
    none_yet : Commits from from
    committed :
        {c : ClientState B} (fuel client_id : ℕ) (title_prefix : List ℕ) (state : SurfaceState)
        (cache cache' : Option Vec4u8s) (p p' : P) (o : Outcome B (Unit {0}))
        → Commits from c
        → handle_commit compositor pool fuel client_id k title_prefix state cache p c
          ≡ some (o, cache', p')
        → Commits from (left_by o)

  left-IsHidden :
      (o : Outcome B (Unit {0}))
      → Settled (λ u m. ⊥) (IsHidden k) o
      → IsHidden k (left_by o).surfaces
  left-IsHidden (Outcome.err c) h = h
  left-IsHidden (Outcome.ok c u) h = absurd h

  Commits-IsHidden :
      {from c : ClientState B} → IsHidden k from.surfaces → Commits from c → IsHidden k c.surfaces
  Commits-IsHidden h Commits.none_yet = h
  Commits-IsHidden h
        (Commits.committed {c = c} fuel client_id title_prefix state cache cache' p p' o before e) =
      left-IsHidden o (
        handle_commit-IsHidden compositor k pool fuel client_id title_prefix state cache cache' p p'
          c o (Commits-IsHidden h before) e)

  fails :
      (o : Outcome B (Unit {0}))
      → Settled (λ u m. ⊥) (IsHidden k) o
      → (c : ClientState B) × (o ≡ Outcome.err c)
  fails (Outcome.err c) h = (c, refl)
  fails (Outcome.ok c u) h = absurd h

  -- When the parent of a window is missing, `apply` fails for a surface that has a local surface
  -- and no role; after that, however often it is committed, each commit of the surface that does
  -- not panic over its buffer fails, whatever its state.
  pub apply-handle_commit :
      (client_id : ℕ) (state : SurfaceState) (title_prefix : List ℕ) (c : ClientState B)
      (s : RemoteSurface) (l parent : ℕ) (t : XdgToplevelState)
      → c.surfaces k ≡ some s
      → s.role ≡ none
      → s.local_surface ≡ some l
      → state.role ≡ some (Role.xdg_toplevel t)
      → t.parent ≡ some parent
      → c.surfaces parent ≡ none
      → (c' : ClientState B) × (XdgToplevel.apply compositor client_id state k title_prefix c
          ≡ Outcome.err c')
        × ((c2 : ClientState B) (fuel : ℕ) (later : SurfaceState) (cache cache' : Option Vec4u8s)
              (p p' : P) (o : Outcome B (Unit {0}))
            → Commits c' c2
            → handle_commit compositor pool fuel client_id k title_prefix later cache p c2
              ≡ some (o, cache', p')
            → (c3 : ClientState B) × (o ≡ Outcome.err c3))
  apply-handle_commit client_id state title_prefix c s l parent t there r held role names missing =
      let x =
        role_without_parent compositor k client_id state title_prefix c s l parent t there r held
          role names missing in
      (
        x.0,
        x.1,
        λ c2 fuel later cache cache' p p' o before e. fails o (
            handle_commit-IsHidden compositor k pool fuel client_id title_prefix later cache cache'
              p p' c2 o (Commits-IsHidden x.2 before) e),
      )
