-- ===== src/Wayland.antt =====
-- src/serialization/wayland.rs and src/serialization/xdg_shell.rs: what the server tells the client of
-- a surface. Ids are the hashes that stand for them, strings are the bytes of their text, and an f64 is
-- its bits.
pub mod Equality
use wprs.Base.{ℕ, Bool, true, false, Option, none, some, List, [], ◌>>=◌}
use wprs.Geometry.{ℤ, pos, Point, Size, Rectangle}
use wprs.Shards.{CompressedShards}
use wprs.Vec4u8s.{Vec4u8s}

pub data BufferFormat : Type 0 where
  argb8888 : BufferFormat
  xrgb8888 : BufferFormat

pub record BufferMetadata : Type 0 where
  pub width : ℤ
  pub height : ℤ
  pub stride : ℤ
  pub format : BufferFormat

pub data BufferData : Type 0 where
  external : BufferData
  uncompressed : Vec4u8s → BufferData
  compressed : CompressedShards → BufferData

pub record Buffer : Type 0 where
  pub metadata : BufferMetadata
  pub contents : BufferData

pub data BufferAssignment : Type 0 where
  new : Buffer → BufferAssignment
  removed : BufferAssignment

pub record SubSurfaceState : Type 0 where
  pub parent : ℕ
  pub location : Point ℤ
  pub sync : Bool

pub data DecorationMode : Type 0 where
  client : DecorationMode
  server : DecorationMode

pub record XdgSurfaceState : Type 0 where
  pub window_geometry : Option (Rectangle ℤ)
  pub max_size : Size ℤ
  pub min_size : Size ℤ

pub record XdgToplevelState : Type 0 where
  pub id : ℕ
  pub parent : Option ℕ
  pub title : Option (List ℕ)
  pub app_id : Option (List ℕ)
  pub decoration_mode : Option DecorationMode
  pub maximized : Option Bool
  pub fullscreen : Option Bool

pub record XdgPositioner : Type 0 where
  pub width : ℤ
  pub height : ℤ
  pub anchor_rect : Rectangle ℤ
  pub anchor_edges : ℕ
  pub gravity : ℕ
  pub constraint_adjustment : ℕ
  pub offset : Point ℤ
  pub reactive : Bool
  pub parent_size : Option (Size ℤ)
  pub parent_configure : Option ℕ

pub record XdgPopupState : Type 0 where
  pub id : ℕ
  pub parent_surface_id : ℕ
  pub positioner : XdgPositioner
  pub grab_requested : Bool

pub data Role : Type 0 where
  cursor : Point ℤ → Role
  sub_surface : SubSurfaceState → Role
  xdg_toplevel : XdgToplevelState → Role
  xdg_popup : XdgPopupState → Role

pub data RectangleKind : Type 0 where
  add : RectangleKind
  subtract : RectangleKind

pub record Region : Type 0 where
  pub rects : List (RectangleKind × Rectangle ℤ)

pub data Transform : Type 0 where
  normal : Transform
  rotated_90 : Transform
  rotated_180 : Transform
  rotated_270 : Transform
  flipped : Transform
  flipped90 : Transform
  flipped180 : Transform
  flipped270 : Transform

pub record SubsurfacePosition : Type 0 where
  pub id : ℕ
  pub position : Point ℤ

pub record ViewportState : Type 0 where
  pub src : Option (Rectangle ℕ)
  pub dst : Option (Size ℤ)

pub record SurfaceState : Type 0 where
  pub client : ℕ
  pub id : ℕ
  pub buffer : Option BufferAssignment
  pub role : Option Role
  pub buffer_scale : ℤ
  pub buffer_transform : Option Transform
  pub opaque_region : Option Region
  pub input_region : Option Region
  pub z_ordered_children : List SubsurfacePosition
  pub damage : Option (List (Rectangle ℤ))
  pub output_ids : List ℕ
  pub viewport_state : Option ViewportState
  pub xdg_surface_state : Option XdgSurfaceState

-- SurfaceState::new, for the ids of the surface and its client.
unfoldable pub new_state : ℕ → ℕ → Option BufferAssignment → SurfaceState
new_state client_id surface_id buffer = record {
  client = client_id;
  id = surface_id;
  buffer = buffer;
  role = none;
  buffer_scale = pos 1;
  buffer_transform = none;
  opaque_region = none;
  input_region = none;
  z_ordered_children = [];
  damage = none;
  output_ids = [];
  viewport_state = none;
  xdg_surface_state = none;
}

-- The state with this buffer.
unfoldable pub with_buffer : Option BufferAssignment → SurfaceState → SurfaceState
with_buffer b s = record {
  client = s.client;
  id = s.id;
  buffer = b;
  role = s.role;
  buffer_scale = s.buffer_scale;
  buffer_transform = s.buffer_transform;
  opaque_region = s.opaque_region;
  input_region = s.input_region;
  z_ordered_children = s.z_ordered_children;
  damage = s.damage;
  output_ids = s.output_ids;
  viewport_state = s.viewport_state;
  xdg_surface_state = s.xdg_surface_state;
}

unfoldable pub clone_without_buffer : SurfaceState → SurfaceState
clone_without_buffer s = with_buffer none s

-- EnumAsInner's as_new and as_compressed.
unfoldable pub as_new : BufferAssignment → Option Buffer
as_new (BufferAssignment.new b) = some b
as_new BufferAssignment.removed = none

unfoldable pub as_compressed : BufferData → Option CompressedShards
as_compressed (BufferData.compressed c) = some c
as_compressed _ = none

unfoldable pub is_external : BufferData → Bool
is_external BufferData.external = true
is_external _ = false

-- SurfaceState::set_buffer with Buffer::update and Buffer::new, for the metadata and the shards that
-- they make: either is none on its error.
unfoldable pub set_buffer :
    Option BufferMetadata → Option CompressedShards → SurfaceState → Option SurfaceState
set_buffer metadata shards s = do
  m ← metadata
  c ← shards
  some (
      with_buffer
        (some (BufferAssignment.new (record { metadata = m; contents = BufferData.compressed c })))
        s)

-- The state to send and the shards to send before it.
unfoldable pub update_with_external_buffer :
    Option BufferAssignment → SurfaceState → Option (SurfaceState × CompressedShards)
unfolding as_new as_compressed
update_with_external_buffer buffer s = do
  assigned ← buffer
  b ← as_new assigned
  raw_buffer_to_send ← as_compressed b.contents
  let without_contents : Buffer = record {
    metadata = b.metadata;
    contents = BufferData.external;
  } in
      some (with_buffer (some (BufferAssignment.new without_contents)) s, raw_buffer_to_send)

-- EnumAsInner on roles.
unfoldable pub as_sub_surface : Role → Option SubSurfaceState
as_sub_surface (Role.sub_surface s) = some s
as_sub_surface _ = none

unfoldable pub as_xdg_toplevel : Role → Option XdgToplevelState
as_xdg_toplevel (Role.xdg_toplevel t) = some t
as_xdg_toplevel _ = none

unfoldable pub as_xdg_popup : Role → Option XdgPopupState
as_xdg_popup (Role.xdg_popup p) = some p
as_xdg_popup _ = none
