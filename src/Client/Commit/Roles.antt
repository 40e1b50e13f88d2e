-- ===== src/Client/Commit/Roles.antt =====
-- src/client/xdg_shell.rs: surfaces that get a role of xdg-shell, on surfaces that refer to each other.
-- A role that fails may leave its surface without a local surface.
use wprs.Base.{ℕ, Bool, true, false, Option, none, some, ◌≡◌, refl, sym, ap, ◌∙◌, if◌then◌else◌}
use wprs.Client.{
  RemoteXdgToplevel, RemoteRole, RemoteSurface, Compositor, Action, ◌>>=◌, ◌>>◌, pure, lift, get,
  put, Surfaces, wl_surface, as_sub_surface,
}
use wprs.Client.Attributes.Kept.{Held}
use wprs.Client.Settled.{Leaves, >>=-Leaves, get-Leaves, lift_any-Leaves, put-Leaves}
use wprs.Client.Settled.Lent.{Lent, IsLinkedBut, IsLinked-IsLinkedBut, Lent-IsLinked}
use wprs.Client.Subsurface.{sub_surface_of, is_some}
use wprs.Client.Subsurface.Linked.{IsLinked, insert-same, some-inj}
use wprs.Client.XdgToplevel.{as_xdg_toplevel, xdg_toplevel}

pub no_sub_surface :
    (s : RemoteSurface) (t : RemoteXdgToplevel) → xdg_toplevel s ≡ some t → sub_surface_of s ≡ none
unfolding xdg_toplevel sub_surface_of as_xdg_toplevel as_sub_surface
no_sub_surface s t e = with_role s.role e
  where
    with_role :
        (o : Option RemoteRole)
        → (elim o [ none ↦ none | some r ↦ as_xdg_toplevel r ]) ≡ some t
        → (elim o [ none ↦ none | some r ↦ as_sub_surface r ]) ≡ none
    with_role none e = refl
    with_role (some (RemoteRole.cursor c)) e = cc
    with_role (some (RemoteRole.sub_surface r)) e = cc
    with_role (some (RemoteRole.xdg_toplevel r)) e = refl
    with_role (some (RemoteRole.xdg_popup r)) e = cc

free_role : (o : Option RemoteRole) → is_some o ≡ false → o ≡ none
free_role none e = refl
free_role (some r) e = cc

module _ {B : Type 0} (compositor : Compositor B) (k : ℕ) where
  abbrev R : Surfaces → Type 0
  R = IsLinkedBut k

  abbrev weaker : (m : Surfaces) → IsLinked m → R m
  weaker = IsLinked-IsLinkedBut k

  -- The role that holds the local surface that was taken.
  pub put-role :
      (s s' : RemoteSurface) (l : ℕ) (r : RemoteRole)
      → ((t : RemoteSurface) → wl_surface (record t { role = some r }) ≡ some l)
      → Leaves
          (λ m. Lent k s m × (m k ≡ some s'))
          (λ u. IsLinked)
          R
          (put {B = B} k (record s' { role = some r }))
  put-role s s' l r shown =
      put-Leaves R (λ m. Lent k s m × (m k ≡ some s')) k (record s' { role = some r })
        (λ m h.
          let is_s : record s { local_surface = none } ≡ s' =
            some-inj
              (sym (ap (λ (x : Surfaces). x k) h.0.same ∙ insert-same k _ h.0.before) ∙ h.1) in
          Lent-IsLinked k s (record s' { role = some r }) m l h.0
            (sym (ap (λ (x : RemoteSurface). x.id) is_s))
            (sym (ap (λ (x : RemoteSurface). x.z_ordered_children) is_s)) (shown s'))

  unless-Leaves :
      {P : Surfaces → Type 0} (b : Bool) {act : Action B (Unit {0})}
      → ((m : Surfaces) → P m → IsLinked m)
      → (b ≡ false → Leaves P (λ u. IsLinked) R act)
      → Leaves P (λ u. IsLinked) R (if b then pure tt else act)
  unless-Leaves true w h = record { run = λ c p. w c.surfaces p }
  unless-Leaves false w h = h refl

  -- The local surface of a surface without a role is taken, or there is a role already.
  pub role-Leaves :
      (act : RemoteSurface → ℕ → Action B (Unit {0}))
      → ((s : RemoteSurface) (l : ℕ) → Leaves (Lent k s) (λ u. IsLinked) R (act s l))
      → Leaves IsLinked
          (λ u. IsLinked)
          R
          (do
            surface ← get k
            if is_some surface.role then pure tt else (do
              local_surface ← lift surface.local_surface
              put k (record surface { local_surface = none })
              act surface local_surface))
  role-Leaves act h =
      >>=-Leaves R (λ s. Held k s) (get-Leaves R IsLinked weaker k)
        (λ s.
          unless-Leaves (is_some s.role) (λ m h. h.0)
            (λ free.
              >>=-Leaves R (λ l. Held k s)
                (lift_any-Leaves R (Held k s) (λ m h. weaker m h.0) s.local_surface)
                (λ l.
                  >>=-Leaves R (λ u. Lent k s)
                    (put-Leaves R (Held k s) k (record s { local_surface = none })
                      (λ m h. record {
                        before = m;
                        was_linked = h.0;
                        there = h.1;
                        roleless = free_role s.role free;
                        same = refl;
                      }))
                    (λ u. h s l))))
