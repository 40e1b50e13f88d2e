-- ===== src/Client/XdgToplevel.antt =====
-- src/client/xdg_shell.rs: RemoteXdgToplevel. A window has the number of its wl_surface.
pub mod Told
pub mod Texts
pub mod Sizes
pub mod Updated
use wprs.Base.{Bool, true, false, ℕ, not, Option, none, some, List, [], ◌∷◌, ◌++◌, if◌then◌else◌}
use wprs.Geometry.{ℤ, pos, to_u32, Point, Size, Rectangle}
use wprs.Wayland
use wprs.Wayland.{DecorationMode, SurfaceState, XdgSurfaceState, XdgToplevelState}
use wprs.Wayland.Equality.{
  Size-discrete, text_option-discrete, DecorationMode_option-discrete, is_eq,
}
use wprs.Client.{
  RemoteXdgToplevel, RemoteRole, RemoteSurface, Asked, Compositor, ObjectId, Action, ◌>>=◌, ◌>>◌,
  pure, lift, when, get, put, ask, register,
}
use wprs.Client.Subsurface.{is_some}

-- The size as set_max_size and set_min_size send it.
abbrev pub size_as_u32 : Size ℤ → Size ℕ
size_as_u32 s = record { w = to_u32 s.w; h = to_u32 s.h }

abbrev pub rectangle_as_u32 : Rectangle ℤ → Rectangle ℕ
rectangle_as_u32 r = record {
  loc = record { x = to_u32 r.loc.x; y = to_u32 r.loc.y };
  size = size_as_u32 r.size;
}

-- EnumAsInner's as_xdg_toplevel.
unfoldable pub as_xdg_toplevel : RemoteRole → Option RemoteXdgToplevel
as_xdg_toplevel (RemoteRole.xdg_toplevel t) = some t
as_xdg_toplevel _ = none

-- RemoteSurface::xdg_toplevel
unfoldable pub xdg_toplevel : RemoteSurface → Option RemoteXdgToplevel
xdg_toplevel s = elim s.role [ none ↦ none | some r ↦ as_xdg_toplevel r ]

-- SurfaceState::xdg_toplevel
unfoldable pub toplevel_state_of : SurfaceState → Option XdgToplevelState
toplevel_state_of s = elim s.role [ none ↦ none | some r ↦ Wayland.as_xdg_toplevel r ]

-- RemoteXdgToplevel as set_role makes it.
abbrev pub new_toplevel : ℕ → ℕ → ℕ → List ℕ → RemoteXdgToplevel
new_toplevel client_id id local_window title_prefix = record {
  client = client_id;
  id = id;
  local_window = local_window;
  configured = false;
  title = none;
  title_prefix = title_prefix;
  app_id = none;
  decoration_mode = none;
  max_size = record { w = pos 0; h = pos 0 };
  min_size = record { w = pos 0; h = pos 0 };
}

module _ {B : Type 0} where
  -- The window of the surface that the state names as the parent.
  unfoldable pub set_parent : ℕ → Option ℕ → Action B (Unit {0})
  set_parent local_window none = pure tt
  set_parent local_window (some id) = do
    s ← get id
    parent ← lift (xdg_toplevel s)
    ask (Asked.set_parent local_window parent.local_window)

  unfoldable pub set_maximized : ℕ → Option Bool → Action B (Unit {0})
  set_maximized local_window none = pure tt
  set_maximized local_window (some maximized) =
      ask
        (if maximized then Asked.set_maximized local_window else Asked.unset_maximized local_window)

  unfoldable pub set_fullscreen : ℕ → Option Bool → Action B (Unit {0})
  set_fullscreen local_window none = pure tt
  set_fullscreen local_window (some fullscreen) = ask (
      if fullscreen then Asked.set_fullscreen local_window else Asked.unset_fullscreen local_window)

  unfoldable pub set_title : Option (List ℕ) → RemoteXdgToplevel → Action B RemoteXdgToplevel
  set_title title t =
      if is_eq text_option-discrete t.title title
      then pure t
      else (do title_asked title; pure (record t { title = title }))
    where
      title_asked : Option (List ℕ) → Action B (Unit {0})
      title_asked none = pure tt
      title_asked (some text) = ask (Asked.set_title t.local_window (t.title_prefix ++ text))

  unfoldable pub set_app_id : Option (List ℕ) → RemoteXdgToplevel → Action B RemoteXdgToplevel
  set_app_id app_id t =
      if is_eq text_option-discrete t.app_id app_id
      then pure t
      else (do app_id_asked app_id; pure (record t { app_id = app_id }))
    where
      app_id_asked : Option (List ℕ) → Action B (Unit {0})
      app_id_asked none = pure tt
      app_id_asked (some text) = ask (Asked.set_app_id t.local_window text)

  unfoldable pub set_decoration_mode :
      Option DecorationMode → RemoteXdgToplevel → Action B RemoteXdgToplevel
  set_decoration_mode mode t =
      if is_eq DecorationMode_option-discrete t.decoration_mode mode then pure t else (do
        ask (Asked.request_decoration_mode t.local_window mode)
        pure (record t { decoration_mode = mode }))

  unfoldable pub set_max_size : Size ℤ → RemoteXdgToplevel → Action B RemoteXdgToplevel
  set_max_size max_size t = if is_eq Size-discrete t.max_size max_size then pure t else (do
    ask (Asked.set_max_size t.local_window (size_as_u32 max_size))
    pure (record t { max_size = max_size }))

  unfoldable pub set_min_size : Size ℤ → RemoteXdgToplevel → Action B RemoteXdgToplevel
  set_min_size min_size t = if is_eq Size-discrete t.min_size min_size then pure t else (do
    ask (Asked.set_min_size t.local_window (size_as_u32 min_size))
    pure (record t { min_size = min_size }))

  -- The part of update for a state with a window geometry.
  unfoldable pub set_geometry :
      Option XdgSurfaceState → RemoteXdgToplevel → Action B RemoteXdgToplevel
  set_geometry none t = pure t
  set_geometry (some x) t = elim x.window_geometry [
    | none ↦ pure t
    | some window_geometry ↦ (do
      ask (Asked.set_window_geometry t.local_window (rectangle_as_u32 window_geometry))
      t' ← set_max_size x.max_size t
      set_min_size x.min_size t')
  ]

  -- RemoteXdgToplevel::update, for the surface with this key.
  unfoldable pub update : SurfaceState → ℕ → Action B (Unit {0})
  update surface_state key = do
    s ← get key
    remote_toplevel ← lift (xdg_toplevel s)
    t ← set_geometry surface_state.xdg_surface_state remote_toplevel
    put key (record s { role = some (RemoteRole.xdg_toplevel t) })
    toplevel_state ← lift (toplevel_state_of surface_state)
    t1 ← set_title toplevel_state.title t
    t2 ← set_app_id toplevel_state.app_id t1
    t3 ← set_decoration_mode toplevel_state.decoration_mode t2
    put key (record s { role = some (RemoteRole.xdg_toplevel t3) })

module _ {B : Type 0} (compositor : Compositor B) where
  -- The local surface is taken before the steps that may fail.
  unfoldable pub set_role : ℕ → SurfaceState → ℕ → List ℕ → Action B (Unit {0})
  set_role client_id surface_state surface_id title_prefix = do
    surface ← get surface_id
    if is_some surface.role then pure tt else (do
      local_surface ← lift surface.local_surface
      put surface_id (record surface { local_surface = none })
      toplevel_state ← lift (toplevel_state_of surface_state)
      ask (Asked.create_window local_surface)
      set_parent local_surface toplevel_state.parent
      set_maximized local_surface toplevel_state.maximized
      set_fullscreen local_surface toplevel_state.fullscreen
      register compositor (client_id, ObjectId.xdg_toplevel_object toplevel_state.id) local_surface
      surface' ← get surface_id
      put surface_id (record surface' {
        role = some (
            RemoteRole.xdg_toplevel
              (new_toplevel client_id toplevel_state.id local_surface title_prefix));
      }))

  unfoldable pub apply : ℕ → SurfaceState → ℕ → List ℕ → Action B (Unit {0})
  apply client_id surface_state surface_id title_prefix = do
    set_role client_id surface_state surface_id title_prefix
    update surface_state surface_id
