-- ===== src/Remote.antt =====
-- src/client/mod.rs, subsurface.rs and xdg_shell.rs: what the client keeps of the surfaces of remote
-- clients, and the requests that it makes of the compositor on its own side.
use wprs.Base.{ℕ, Bool, Option, List}
use wprs.Geometry.{ℤ, Point, Size, Rectangle}
use wprs.Vec4u8s.{Vec4u8s}
use wprs.Wayland.{
  BufferMetadata, DecorationMode, XdgPositioner, Region, Transform, SubsurfacePosition,
  ViewportState,
}

pub record RemoteBuffer : Type 0 where
  pub metadata : BufferMetadata
  pub contents : Vec4u8s
  pub active_buffer : ℕ
  pub dirty : Bool

pub record RemoteCursor : Type 0 where
  pub client : ℕ
  pub hotspot : Point ℤ

pub record RemoteSubSurface : Type 0 where
  pub parent : ℕ
  pub sync : Bool
  pub local_subsurface : ℕ
  pub local_surface : ℕ

pub record RemoteXdgToplevel : Type 0 where
  pub client : ℕ
  pub id : ℕ
  pub local_window : ℕ
  pub configured : Bool
  pub title : Option (List ℕ)
  pub title_prefix : List ℕ
  pub app_id : Option (List ℕ)
  pub decoration_mode : Option DecorationMode
  pub max_size : Size ℤ
  pub min_size : Size ℤ

pub record RemoteXdgPopup : Type 0 where
  pub client : ℕ
  pub id : ℕ
  pub local_popup : ℕ
  pub configured : Bool
  pub positioner : XdgPositioner

pub data RemoteRole : Type 0 where
  cursor : RemoteCursor → RemoteRole
  sub_surface : RemoteSubSurface → RemoteRole
  xdg_toplevel : RemoteXdgToplevel → RemoteRole
  xdg_popup : RemoteXdgPopup → RemoteRole

-- Local objects have numbers; a window or a popup has that of its wl_surface.
pub record RemoteSurface : Type 0 where
  pub client : ℕ
  pub id : ℕ
  pub buffer : Option RemoteBuffer
  pub local_surface : Option ℕ
  pub role : Option RemoteRole
  pub opaque_region : Option Region
  pub input_region : Option Region
  pub z_ordered_children : List SubsurfacePosition
  pub frame_callback_completed : Bool
  pub frame_damage : Option (List (Rectangle ℤ))
  pub viewport : Option ℕ
  pub current_viewport_state : Option ViewportState

-- What the local compositor is asked for; the numbers are those of the local objects.
pub data Asked : Type 0 where
  create_surface : Asked
  get_subsurface : ℕ → ℕ → Asked
  destroy_subsurface : ℕ → Asked
  place_above : ℕ → ℕ → Asked
  set_position : ℕ → Point ℤ → Asked
  set_sync : ℕ → Asked
  set_desync : ℕ → Asked
  attach : ℕ → ℕ → Asked
  detach : ℕ → Asked
  damage_buffer : ℕ → Rectangle ℤ → Asked
  commit : ℕ → Asked
  frame : ℕ → Asked
  set_buffer_scale : ℕ → ℤ → Asked
  set_buffer_transform : ℕ → Transform → Asked
  set_input_region : ℕ → Option Region → Asked
  set_opaque_region : ℕ → Option Region → Asked
  get_viewport : ℕ → Asked
  set_source : ℕ → Rectangle ℕ → Asked
  set_destination : ℕ → Size ℤ → Asked
  destroy_viewport : ℕ → Asked
  set_window_geometry : ℕ → Rectangle ℕ → Asked
  create_window : ℕ → Asked
  set_parent : ℕ → ℕ → Asked
  set_maximized : ℕ → Asked
  unset_maximized : ℕ → Asked
  set_fullscreen : ℕ → Asked
  unset_fullscreen : ℕ → Asked
  set_minimized : ℕ → Asked
  move_window : ℕ → ℕ → ℕ → Asked
  resize_window : ℕ → ℕ → ℕ → ℕ → Asked
  set_title : ℕ → List ℕ → Asked
  set_app_id : ℕ → List ℕ → Asked
  request_decoration_mode : ℕ → Option DecorationMode → Asked
  set_max_size : ℕ → Size ℕ → Asked
  set_min_size : ℕ → Size ℕ → Asked
  create_positioner : Asked
  create_popup : ℕ → Option ℕ → XdgPositioner → Asked
  reposition : ℕ → XdgPositioner → Asked
  -- The name of a cursor; or the serial, the surface and the hotspot.
  set_named_cursor : List ℕ → Asked
  set_cursor : ℕ → Option ℕ → Point ℤ → Asked
  hide_cursor : Asked

-- ObjectId
pub data ObjectId : Type 0 where
  wl_surface_object : ℕ → ObjectId
  xdg_surface_object : ℕ → ObjectId
  xdg_toplevel_object : ℕ → ObjectId
  xdg_popup_object : ℕ → ObjectId
