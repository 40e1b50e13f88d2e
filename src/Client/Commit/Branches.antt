-- ===== src/Client/Commit/Branches.antt =====
-- src/client/server_handlers.rs: handle_commit, on surfaces that refer to each other.
use mathlib.Core.Path.{subst}
use wprs.Base.{
  ap, ℕ, Bool, true, false, Option, none, some, List, ◌≡◌, refl, inl, inr, Option-cases,
}
use wprs.Vec4u8s.{Vec4u8s}
use wprs.Wayland.{Role, BufferAssignment, SurfaceState}
use wprs.Client.{
  RemoteBuffer, RemoteRole, RemoteSurface, Asked, Compositor, ClientState, Outcome, Action, ◌>>◌,
  Surfaces, wl_surface, draw_buffer_send_frame,
}
use wprs.Client.Attributes.Kept.{
  Held, put-IsLinked, set_transformation-IsLinked, set_viewport_state-IsLinked,
  set_input_region-IsLinked, set_opaque_region-IsLinked, add_damage-IsLinked,
}
use wprs.Client.Buffers.{Pool, Applied, apply_buffer}
use wprs.Client.Commit.{
  buffer_applied, apply_role, draw_committed, draw_tree, commit_state, commit_applied,
  handle_commit,
}
use wprs.Client.Commit.Windows.{toplevel-IsLinked}
use wprs.Client.Commit.Popups.{popup-IsLinked}
use wprs.Client.Settled.{
  Settled, Leaves, >>=-Leaves, Takes-Leaves, get_any-Leaves, lift_any-Leaves, ask-Leaves,
  pure-Leaves,
}
use wprs.Client.Settled.Lent.{IsLinkedBut, IsLinked-IsLinkedBut}
use wprs.Client.Stacking.Ids.{IsDistinct}
use wprs.Client.Subsurface.{populate_subsurfaces, reorder_subsurfaces}
use wprs.Client.Subsurface.Commits.{
  populate_subsurfaces-missing, populate_subsurfaces-idle, apply-IsLinked,
  commit_sync_children-IsLinked,
}
use wprs.Client.Subsurface.Linked.{IsLinked}
use wprs.Client.Subsurface.Outcomes.{Takes, draw_buffer_send_frame-IsLinked}
use wprs.Client.Subsurface.Reordered.{reorder_subsurfaces-IsLinked}
use wprs.Client.Subsurface.Roles.{or_insert_new-cases}

pub first-inj :
    {A C D : Type 0} {a a' : A} {x x' : C} {y y' : D}
    → ◌≡◌ {A = Option (A × C × D)} (some (a, x, y)) (some (a', x', y'))
    → a ≡ a'
first-inj {a = a} e = ap (λ o. elim o [ none ↦ a | some t ↦ t.0 ]) e

pub none-some : {A : Type 0} {a : A} → none ≡ some a → ⊥
none-some e = cc

module _ {B : Type 0} (compositor : Compositor B) (k : ℕ) (R : Surfaces → Type 0)
    (weaker : (m : Surfaces) → IsLinked m → R m) where
  -- The buffer of the surface is replaced, or detached when it was removed.
  pub buffer_applied-IsLinked :
      (s : RemoteSurface) (a : Option BufferAssignment) (b : Option RemoteBuffer)
      → Leaves (Held k s) (λ u. IsLinked) R (buffer_applied compositor k s a b)
  unfolding buffer_applied
  buffer_applied-IsLinked s none b =
      put-IsLinked R weaker k s (record s { buffer = b }) refl refl refl refl
  buffer_applied-IsLinked s (some (BufferAssignment.new n)) b =
      put-IsLinked R weaker k s (record s { buffer = b }) refl refl refl refl
  buffer_applied-IsLinked s (some BufferAssignment.removed) b =
      >>=-Leaves R (λ wl. Held k s)
        (lift_any-Leaves R (Held k s) (λ m h. weaker m h.0) (wl_surface s))
        (λ wl.
          >>=-Leaves R (λ u. IsLinked)
            (put-IsLinked R weaker k s (record s { buffer = b }) refl refl refl refl)
            (λ u. ask-Leaves R IsLinked weaker (Asked.detach wl)))

module _ {B : Type 0} (compositor : Compositor B) (k : ℕ) where
  abbrev R : Surfaces → Type 0
  R = IsLinkedBut k

  abbrev weaker : (m : Surfaces) → IsLinked m → R m
  weaker = IsLinked-IsLinkedBut k

  populate-IsLinked :
      (client_id : ℕ) → Takes IsLinked IsLinked (populate_subsurfaces compositor client_id k)
  populate-IsLinked client_id = record {
    run = λ c h. elim (Option-cases (c.surfaces k)) [
      | inl missing ↦ rw (populate_subsurfaces-missing compositor client_id k c missing) h
      | inr (s, there) ↦ rw (populate_subsurfaces-idle compositor client_id k s c h there) h
    ];
  }

  -- The role of a commit's state, when that is made without an error.
  pub apply_role-IsLinked :
      (client_id : ℕ) (state : SurfaceState) (title_prefix : List ℕ) (role : Option Role)
      → Leaves IsLinked
          (λ u. IsLinked)
          R
          (apply_role compositor client_id state k title_prefix role)
  unfolding apply_role
  apply_role-IsLinked client_id state title_prefix none = pure-Leaves R tt
  apply_role-IsLinked client_id state title_prefix (some (Role.cursor h)) = pure-Leaves R tt
  apply_role-IsLinked client_id state title_prefix (some (Role.sub_surface x)) =
      Takes-Leaves R IsLinked IsLinked _ weaker (apply-IsLinked compositor client_id k state)
  apply_role-IsLinked client_id state title_prefix (some (Role.xdg_toplevel t)) =
      toplevel-IsLinked compositor k client_id state title_prefix
  apply_role-IsLinked client_id state title_prefix (some (Role.xdg_popup p)) =
      popup-IsLinked compositor k client_id state

  draw-IsLinked : Leaves IsLinked (λ u. IsLinked) R (draw_buffer_send_frame compositor k)
  draw-IsLinked =
      Takes-Leaves R IsLinked IsLinked _ weaker (draw_buffer_send_frame-IsLinked compositor k)

  choose :
      (b : Bool) {x y : Action B (Unit {0})}
      → Leaves IsLinked (λ u. IsLinked) R x
      → Leaves IsLinked (λ u. IsLinked) R y
      → Leaves IsLinked (λ u. IsLinked) R (elim b [ true ↦ x | false ↦ y ])
  choose true h h' = h
  choose false h h' = h'

  draw_committed-IsLinked :
      (role : Option RemoteRole)
      → Leaves IsLinked (λ u. IsLinked) R (draw_committed compositor k role)
  unfolding draw_committed
  draw_committed-IsLinked none = draw-IsLinked
  draw_committed-IsLinked (some (RemoteRole.cursor c)) = draw-IsLinked
  draw_committed-IsLinked (some (RemoteRole.sub_surface r)) =
      choose r.sync (pure-Leaves R tt) draw-IsLinked
  draw_committed-IsLinked (some (RemoteRole.xdg_toplevel t)) =
      choose t.configured draw-IsLinked (ask-Leaves R IsLinked weaker _)
  draw_committed-IsLinked (some (RemoteRole.xdg_popup p)) =
      choose p.configured draw-IsLinked (ask-Leaves R IsLinked weaker _)

  draw_tree-IsLinked :
      (fuel : ℕ) (completed : Bool)
      → Leaves IsLinked (λ u. IsLinked) R (draw_tree compositor fuel k completed)
  unfolding draw_tree
  draw_tree-IsLinked fuel false = pure-Leaves R tt
  draw_tree-IsLinked fuel true =
      >>=-Leaves R (λ u. IsLinked)
        (Takes-Leaves R IsLinked IsLinked _ weaker
          (commit_sync_children-IsLinked compositor fuel k))
        (λ u.
          >>=-Leaves R (λ s. IsLinked) (get_any-Leaves R IsLinked weaker k)
            (λ s. draw_committed-IsLinked s.role))

  -- The rest of a commit, once the surface itself is up to date.
  role_and_draw-IsLinked :
      (fuel client_id : ℕ) (title_prefix : List ℕ) (state : SurfaceState)
      → IsDistinct state.z_ordered_children
      → (completed : Bool)
      → Leaves IsLinked
          (λ u. IsLinked)
          R
          (do
            populate_subsurfaces compositor client_id k
            reorder_subsurfaces compositor k state
            apply_role compositor client_id state k title_prefix state.role
            draw_tree compositor fuel k completed)
  role_and_draw-IsLinked fuel client_id title_prefix state n completed =
      >>=-Leaves R (λ u. IsLinked)
        (Takes-Leaves R IsLinked IsLinked _ weaker (populate-IsLinked client_id))
        (λ u.
          >>=-Leaves R (λ u. IsLinked)
            (Takes-Leaves R IsLinked IsLinked _ weaker
              (reorder_subsurfaces-IsLinked compositor k state n))
            (λ u.
              >>=-Leaves R (λ u. IsLinked)
                (apply_role-IsLinked client_id state title_prefix state.role)
                (λ u. draw_tree-IsLinked fuel completed)))

  commit_state-IsLinked :
      (fuel client_id : ℕ) (title_prefix : List ℕ) (state : SurfaceState) (s : RemoteSurface)
      (b : Option RemoteBuffer)
      → IsDistinct state.z_ordered_children
      → Leaves
          (Held k s)
          (λ u. IsLinked)
          R
          (commit_state compositor fuel client_id k title_prefix state s b)
  unfolding commit_state
  commit_state-IsLinked fuel client_id title_prefix state s b n =
      >>=-Leaves R (λ u. IsLinked) (buffer_applied-IsLinked compositor k R weaker s state.buffer b)
        (λ u.
          >>=-Leaves R (λ u. IsLinked)
            (set_transformation-IsLinked R weaker k state.buffer_scale state.buffer_transform)
            (λ u.
              >>=-Leaves R (λ u. IsLinked)
                (set_viewport_state-IsLinked R weaker compositor k state.viewport_state)
                (λ u.
                  >>=-Leaves R (λ u. IsLinked)
                    (set_input_region-IsLinked R weaker compositor k state.input_region)
                    (λ u.
                      >>=-Leaves R (λ u. IsLinked)
                        (set_opaque_region-IsLinked R weaker compositor k state.opaque_region)
                        (λ u.
                          >>=-Leaves R (λ u. IsLinked) (add_damage-IsLinked R weaker k state.damage)
                            (λ u.
                              >>=-Leaves R (λ s'. IsLinked) (get_any-Leaves R IsLinked weaker k)
                                (λ s'.
                                  role_and_draw-IsLinked fuel client_id title_prefix state n
                                    s'.frame_callback_completed)))))))

  commit_applied-IsLinked :
      {P : Type 0} (fuel client_id : ℕ) (title_prefix : List ℕ) (state : SurfaceState)
      (s : RemoteSurface) (a : Applied P) (c : ClientState B)
      → IsDistinct state.z_ordered_children
      → Held k s c.surfaces
      → Settled
          (λ u. IsLinked)
          R
          (commit_applied compositor fuel client_id k title_prefix state s a c).0
  unfolding commit_applied
  commit_applied-IsLinked fuel client_id title_prefix state s (Applied.err b cache p) c n h =
      (>>=-Leaves R (λ u. IsLinked) {Q = λ u. IsLinked}
          (put-IsLinked R weaker k s (record s { buffer = b }) refl refl refl refl)
          (λ u. lift_any-Leaves R IsLinked weaker none)).run
        c h
  commit_applied-IsLinked fuel client_id title_prefix state s (Applied.ok b cache p) c n h =
      (commit_state-IsLinked fuel client_id title_prefix state s b n).run c h

  -- On surfaces that refer to each other, and for an order of children that has no id twice,
  -- `handle_commit`, unless it panics over a buffer, leaves surfaces that do so when it succeeds;
  -- when it fails, also in `apply_buffer`, they still list each other, and only the surface of
  -- the commit may be without a local surface.
  pub handle_commit-IsLinked :
      {P : Type 0} (pool : Pool P) (fuel client_id : ℕ) (title_prefix : List ℕ)
      (state : SurfaceState) (cache cache' : Option Vec4u8s) (p p' : P) (c : ClientState B)
      (o : Outcome B (Unit {0}))
      → IsLinked c.surfaces
      → IsDistinct state.z_ordered_children
      → handle_commit compositor pool fuel client_id k title_prefix state cache p c
        ≡ some (o, cache', p')
      → Settled (λ u. IsLinked) R o
  unfolding handle_commit
  handle_commit-IsLinked pool fuel client_id title_prefix state cache cache' p p' c o h n e =
      elim (or_insert_new-cases compositor client_id k c h) [
        | inl failed ↦
            subst (Settled (λ (u : Unit {0}). IsLinked) R)
              (first-inj (rw (handle_commit, failed) at e)) (weaker c.surfaces h)
        | inr (c', s, made, h', there, more) ↦
            elim (Option-cases (apply_buffer pool state.buffer s.buffer cache p)) [
              | inl failed ↦ absurd (none-some (rw (handle_commit, made, failed) at e))
              | inr (a, applied) ↦
                  subst (Settled (λ (u : Unit {0}). IsLinked) R)
                    (first-inj (rw (handle_commit, made, applied) at e))
                    (commit_applied-IsLinked fuel client_id title_prefix state s a c' n (h', there))
            ]
      ]
