-- ===== src/Client/Commit/Popups.antt =====
-- src/client/xdg_shell.rs: popups, on surfaces that refer to each other.
use wprs.Base.{ℕ, not, some, ◌≡◌, refl}
use wprs.Wayland.{SurfaceState}
use wprs.Wayland.Equality.{XdgPositioner-discrete, is_eq}
use wprs.Client.{RemoteXdgPopup, RemoteRole, RemoteSurface, Asked, Compositor, Surfaces, wl_surface}
use wprs.Client.Settled.{
  Leaves, >>=-Leaves, get-Leaves, get_any-Leaves, lift_any-Leaves, ask-Leaves, register-Leaves,
  when-Leaves,
}
use wprs.Client.Settled.Lent.{Lent, IsLinkedBut, IsLinked-IsLinkedBut, Lent-IsLinkedBut}
use wprs.Client.Subsurface.Linked.{IsLinked}
use wprs.Client.XdgPopup
use wprs.Client.XdgPopup.{xdg_popup, xdg_surface, popup_state_of, try_ask, new_positioner}
use wprs.Client.Commit.Requests.{popup_geometry-Leaves, try_ask-Leaves, new_positioner-Leaves}
use wprs.Client.Commit.Roles.{put-role, role-Leaves}

shows-popup :
    (x : RemoteSurface) (p : RemoteXdgPopup)
    → wl_surface (record x { role = some (RemoteRole.xdg_popup p) }) ≡ some p.local_popup
unfolding wl_surface
shows-popup x p = refl

module _ {B : Type 0} (compositor : Compositor B) (k : ℕ) (R : Surfaces → Type 0)
    (weaker : (m : Surfaces) → IsLinked m → R m) where
  -- The popup's place is updated, whether or not that fails.
  pub popup_update :
      (state : SurfaceState)
      → Leaves IsLinked (λ u. IsLinked) R (XdgPopup.update compositor state k)
  unfolding XdgPopup.update
  popup_update state =
      >>=-Leaves R (λ s. IsLinked) (get_any-Leaves R IsLinked weaker k)
        (λ s.
          >>=-Leaves R (λ p. IsLinked) (lift_any-Leaves R IsLinked weaker (xdg_popup s))
            (λ p.
              >>=-Leaves R (λ u. IsLinked)
                (popup_geometry-Leaves R IsLinked weaker p.local_popup state.xdg_surface_state)
                (λ u.
                  >>=-Leaves R (λ q. IsLinked)
                    (lift_any-Leaves R IsLinked weaker (popup_state_of state))
                    (λ q.
                      when-Leaves R IsLinked
                        (not (is_eq XdgPositioner-discrete p.positioner q.positioner)) (λ m h. h)
                        (>>=-Leaves R (λ x. IsLinked)
                          (new_positioner-Leaves R IsLinked weaker compositor q.positioner)
                          (λ x. ask-Leaves R IsLinked weaker _))))))

module _ {B : Type 0} (compositor : Compositor B) (k : ℕ) where
  abbrev R : Surfaces → Type 0
  R = IsLinkedBut k

  abbrev weaker : (m : Surfaces) → IsLinked m → R m
  weaker = IsLinked-IsLinkedBut k

  abbrev lent : (s : RemoteSurface) (m : Surfaces) → Lent k s m → R m
  lent s m = Lent-IsLinkedBut k s m

  popup_role :
      (client_id : ℕ) (state : SurfaceState)
      → Leaves IsLinked (λ u. IsLinked) R (XdgPopup.set_role compositor client_id state k)
  unfolding XdgPopup.set_role
  popup_role client_id state = role-Leaves compositor k _ (λ s l.
      >>=-Leaves R (λ q. Lent k s) (lift_any-Leaves R (Lent k s) (lent s) (popup_state_of state))
        (λ q.
          >>=-Leaves R (λ x. Lent k s) (get_any-Leaves R (Lent k s) (lent s) q.parent_surface_id)
            (λ parent.
              >>=-Leaves R (λ x. Lent k s)
                (new_positioner-Leaves R (Lent k s) (lent s) compositor q.positioner)
                (λ positioner.
                  >>=-Leaves R (λ u. Lent k s)
                    (try_ask-Leaves R (Lent k s) (lent s) compositor compositor.makes_popup
                      (Asked.create_popup l (xdg_surface parent) positioner))
                    (λ u.
                      >>=-Leaves R (λ u. Lent k s)
                        (register-Leaves R (Lent k s) (lent s) compositor _ l)
                        (λ u.
                          >>=-Leaves R (λ s' m. Lent k s m × (m k ≡ some s'))
                            (get-Leaves R (Lent k s) (lent s) k)
                            (λ s'. put-role compositor k s s' l _ (λ x. shows-popup x _))))))))

  pub popup-IsLinked :
      (client_id : ℕ) (state : SurfaceState)
      → Leaves IsLinked (λ u. IsLinked) R (XdgPopup.apply compositor client_id state k)
  unfolding XdgPopup.apply
  popup-IsLinked client_id state =
      >>=-Leaves R (λ u. IsLinked) (popup_role client_id state)
        (λ u. popup_update compositor k R weaker state)
