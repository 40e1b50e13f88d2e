-- ===== src/Client/XdgPopup.antt =====
-- src/client/xdg_shell.rs: RemoteXdgPopup. A popup has the number of its wl_surface.
use wprs.Base.{Bool, false, ℕ, not, Option, none, some, List, if◌then◌else◌, guard}
use wprs.Wayland
use wprs.Wayland.{SurfaceState, XdgSurfaceState, XdgPopupState, XdgPositioner}
use wprs.Wayland.Equality.{XdgPositioner-discrete, is_eq}
use wprs.Client.{
  RemoteXdgPopup, RemoteRole, RemoteSurface, Asked, Compositor, ObjectId, Outcome, Action, ◌>>=◌,
  ◌>>◌, pure, lift, when, get, put, ask, register,
}
use wprs.Client.Subsurface.{is_some}
use wprs.Client.XdgToplevel.{rectangle_as_u32}

-- EnumAsInner's as_xdg_popup.
unfoldable pub as_xdg_popup : RemoteRole → Option RemoteXdgPopup
as_xdg_popup (RemoteRole.xdg_popup p) = some p
as_xdg_popup _ = none

-- RemoteSurface::xdg_popup
unfoldable pub xdg_popup : RemoteSurface → Option RemoteXdgPopup
xdg_popup s = elim s.role [ none ↦ none | some r ↦ as_xdg_popup r ]

-- RemoteSurface::xdg_surface
unfoldable pub xdg_surface : RemoteSurface → Option ℕ
xdg_surface s = of_role s.role
  where
    of_role : Option RemoteRole → Option ℕ
    of_role (some (RemoteRole.xdg_toplevel t)) = some t.local_window
    of_role (some (RemoteRole.xdg_popup p)) = some p.local_popup
    of_role _ = none

-- SurfaceState::xdg_popup
unfoldable pub popup_state_of : SurfaceState → Option XdgPopupState
popup_state_of s = elim s.role [ none ↦ none | some r ↦ Wayland.as_xdg_popup r ]

module _ {B : Type 0} where
  -- The part of update for a state with a window geometry.
  unfoldable pub set_geometry : ℕ → Option XdgSurfaceState → Action B (Unit {0})
  set_geometry local_popup none = pure tt
  set_geometry local_popup (some x) = elim x.window_geometry [
    | none ↦ pure tt
    | some window_geometry ↦
        ask (Asked.set_window_geometry local_popup (rectangle_as_u32 window_geometry))
  ]

module _ {B : Type 0} (compositor : Compositor B) where
  -- A request that may fail.
  unfoldable pub try_ask : (List Asked → Bool) → Asked → Action B (Unit {0})
  try_ask succeeds a c = if succeeds c.asked then ask a c else Outcome.err c

  -- RemoteXdgPopup::new_positioner: the positioner that is made is the one that was asked for.
  unfoldable pub new_positioner : XdgPositioner → Action B XdgPositioner
  new_positioner positioner = do
    try_ask compositor.makes_positioner Asked.create_positioner
    lift (guard (compositor.is_anchor positioner.anchor_edges))
    lift (guard (compositor.is_gravity positioner.gravity))
    pure positioner

  -- The local surface is taken before the steps that may fail.
  unfoldable pub set_role : ℕ → SurfaceState → ℕ → Action B (Unit {0})
  set_role client_id surface_state surface_id = do
    surface ← get surface_id
    if is_some surface.role then pure tt else (do
      local_surface ← lift surface.local_surface
      put surface_id (record surface { local_surface = none })
      popup_state ← lift (popup_state_of surface_state)
      parent_surface ← get popup_state.parent_surface_id
      positioner ← new_positioner popup_state.positioner
      try_ask compositor.makes_popup
          (Asked.create_popup local_surface (xdg_surface parent_surface) positioner)
      register compositor (client_id, ObjectId.xdg_popup_object popup_state.id) local_surface
      surface' ← get surface_id
      put surface_id (record surface' {
        role = some (
            RemoteRole.xdg_popup (record {
              client = client_id;
              id = popup_state.id;
              local_popup = local_surface;
              configured = false;
              positioner = popup_state.positioner;
            }));
      }))

  -- RemoteXdgPopup::update, for the surface with this key. The positioner that is kept stays the
  -- one of set_role.
  unfoldable pub update : SurfaceState → ℕ → Action B (Unit {0})
  update surface_state key = do
    s ← get key
    remote_popup ← lift (xdg_popup s)
    set_geometry remote_popup.local_popup surface_state.xdg_surface_state
    popup_state ← lift (popup_state_of surface_state)
    when (not (is_eq XdgPositioner-discrete remote_popup.positioner popup_state.positioner)) (do
      positioner ← new_positioner popup_state.positioner
      ask (Asked.reposition remote_popup.local_popup positioner))

  unfoldable pub apply : ℕ → SurfaceState → ℕ → Action B (Unit {0})
  apply client_id surface_state surface_id = do
    set_role client_id surface_state surface_id
    update surface_state surface_id
