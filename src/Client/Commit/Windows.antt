-- ===== src/Client/Commit/Windows.antt =====
-- src/client/xdg_shell.rs: windows, on surfaces that refer to each other.
use wprs.Base.{ℕ, none, some, List, ◌≡◌, refl}
use wprs.Wayland.{SurfaceState}
use wprs.Client.{
  RemoteXdgToplevel, RemoteRole, RemoteSurface, Asked, Compositor, ◌>>=◌, lift, put, Surfaces,
  wl_surface, as_sub_surface,
}
use wprs.Client.Attributes.Kept.{Held}
use wprs.Client.Settled.{
  Leaves, >>=-Leaves, get-Leaves, lift-Leaves, lift_any-Leaves, ask-Leaves, register-Leaves,
  put-Leaves,
}
use wprs.Client.Settled.Lent.{
  Lent, IsLinkedBut, IsLinked-IsLinkedBut, Lent-IsLinkedBut, rerole-IsLinked,
}
use wprs.Client.Subsurface.{sub_surface_of}
use wprs.Client.Subsurface.Linked.{IsLinked, insert-same}
use wprs.Client.XdgToplevel
use wprs.Client.XdgToplevel.{
  as_xdg_toplevel, xdg_toplevel, toplevel_state_of, new_toplevel, set_parent, set_maximized,
  set_fullscreen, set_title, set_app_id, set_decoration_mode, set_max_size, set_min_size,
}
use wprs.Client.Commit.Requests.{
  set_parent-Leaves, set_maximized-Leaves, set_fullscreen-Leaves, set_title-Leaves,
  set_app_id-Leaves, set_decoration_mode-Leaves, window_geometry-Leaves,
}
use wprs.Client.Commit.Roles.{no_sub_surface, put-role, role-Leaves}

shows-window :
    (x : RemoteSurface) (t : RemoteXdgToplevel)
    → wl_surface (record x { role = some (RemoteRole.xdg_toplevel t) }) ≡ some t.local_window
unfolding wl_surface
shows-window x t = refl

window_is_free :
    (x : RemoteSurface) (t : RemoteXdgToplevel)
    → sub_surface_of (record x { role = some (RemoteRole.xdg_toplevel t) }) ≡ none
unfolding sub_surface_of as_sub_surface
window_is_free x t = refl

module _ {B : Type 0} (k : ℕ) (R : Surfaces → Type 0)
    (weaker : (m : Surfaces) → IsLinked m → R m) where
  -- The window's attributes are updated, whether or not that fails.
  pub toplevel_update :
      (state : SurfaceState)
      → Leaves IsLinked (λ u. IsLinked) R (XdgToplevel.update {B = B} state k)
  unfolding XdgToplevel.update
  toplevel_update state =
      >>=-Leaves R (λ s. Held k s) (get-Leaves R IsLinked weaker k)
        (λ s.
          let held : (m : Surfaces) → Held k s m → R m = λ m h. weaker m h.0 in
          >>=-Leaves R (λ t m. Held k s m × (xdg_toplevel s ≡ some t))
            (lift-Leaves R (Held k s) held (xdg_toplevel s))
            (λ t.
              let known : Surfaces → Type 0 = λ m. Held k s m × (xdg_toplevel s ≡ some t) in
              >>=-Leaves R (λ t'. known)
                (window_geometry-Leaves R known (λ m h. weaker m h.0.0) state.xdg_surface_state t)
                (λ t'.
                  let s' : RemoteSurface = record s { role = some (RemoteRole.xdg_toplevel t') } in
                  let held' : (m : Surfaces) → Held k s' m → R m = λ m h. weaker m h.0 in
                  >>=-Leaves R (λ u. Held k s')
                    (put-Leaves R known k s' (λ m h. (
                      rerole-IsLinked m k s s' t'.local_window h.0.0 h.0.1 (no_sub_surface s t h.1)
                          refl refl (shows-window s t'),
                      insert-same k s' m,
                    )))
                    (λ u. attributes state s s' t' refl refl (window_is_free s t') held'))))
    where
      attributes :
          (state : SurfaceState) (s s' : RemoteSurface) (t : RemoteXdgToplevel)
          → s.id ≡ s'.id
          → s.z_ordered_children ≡ s'.z_ordered_children
          → sub_surface_of s' ≡ none
          → ((m : Surfaces) → Held k s' m → R m)
          → Leaves {B = B}
              (Held k s')
              (λ u. IsLinked)
              R
              (do
                toplevel_state ← lift (toplevel_state_of state)
                t1 ← set_title toplevel_state.title t
                t2 ← set_app_id toplevel_state.app_id t1
                t3 ← set_decoration_mode toplevel_state.decoration_mode t2
                put k (record s { role = some (RemoteRole.xdg_toplevel t3) }))
      attributes state s s' t i z free held =
          >>=-Leaves R (λ q. Held k s')
            (lift_any-Leaves R (Held k s') held (toplevel_state_of state))
            (λ q.
              >>=-Leaves R (λ t1. Held k s') (set_title-Leaves R (Held k s') held q.title t)
                (λ t1.
                  >>=-Leaves R (λ t2. Held k s') (set_app_id-Leaves R (Held k s') held q.app_id t1)
                    (λ t2.
                      >>=-Leaves R (λ t3. Held k s')
                        (set_decoration_mode-Leaves R (Held k s') held q.decoration_mode t2)
                        (λ t3.
                          put-Leaves R (Held k s') k
                            (record s { role = some (RemoteRole.xdg_toplevel t3) })
                            (λ m h.
                              rerole-IsLinked m k s'
                                (record s { role = some (RemoteRole.xdg_toplevel t3) })
                                t3.local_window h.0 h.1 free i z (shows-window s t3))))))

module _ {B : Type 0} (compositor : Compositor B) (k : ℕ) where
  abbrev R : Surfaces → Type 0
  R = IsLinkedBut k

  abbrev weaker : (m : Surfaces) → IsLinked m → R m
  weaker = IsLinked-IsLinkedBut k

  abbrev lent : (s : RemoteSurface) (m : Surfaces) → Lent k s m → R m
  lent s m = Lent-IsLinkedBut k s m

  toplevel_role :
      (client_id : ℕ) (state : SurfaceState) (title_prefix : List ℕ)
      → Leaves IsLinked
          (λ u. IsLinked)
          R
          (XdgToplevel.set_role compositor client_id state k title_prefix)
  unfolding XdgToplevel.set_role
  toplevel_role client_id state title_prefix = role-Leaves compositor k _ (λ s l.
      >>=-Leaves R (λ t. Lent k s) (lift_any-Leaves R (Lent k s) (lent s) (toplevel_state_of state))
        (λ t.
          >>=-Leaves R (λ u. Lent k s) (ask-Leaves R (Lent k s) (lent s) (Asked.create_window l))
            (λ u.
              >>=-Leaves R (λ u. Lent k s) (set_parent-Leaves R (Lent k s) (lent s) l t.parent)
                (λ u.
                  >>=-Leaves R (λ u. Lent k s)
                    (set_maximized-Leaves R (Lent k s) (lent s) l t.maximized)
                    (λ u.
                      >>=-Leaves R (λ u. Lent k s)
                        (set_fullscreen-Leaves R (Lent k s) (lent s) l t.fullscreen)
                        (λ u.
                          >>=-Leaves R (λ u. Lent k s)
                            (register-Leaves R (Lent k s) (lent s) compositor _ l)
                            (λ u.
                              >>=-Leaves R (λ s' m. Lent k s m × (m k ≡ some s'))
                                (get-Leaves R (Lent k s) (lent s) k)
                                (λ s'. put-role compositor k s s' l _ (λ x.
                                  shows-window x
                                    (new_toplevel client_id t.id l title_prefix))))))))))

  pub toplevel-IsLinked :
      (client_id : ℕ) (state : SurfaceState) (title_prefix : List ℕ)
      → Leaves IsLinked
          (λ u. IsLinked)
          R
          (XdgToplevel.apply compositor client_id state k title_prefix)
  unfolding XdgToplevel.apply
  toplevel-IsLinked client_id state title_prefix =
      >>=-Leaves R (λ u. IsLinked) (toplevel_role client_id state title_prefix)
        (λ u. toplevel_update k R weaker state)
