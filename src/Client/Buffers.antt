-- ===== src/Client/Buffers.antt =====
-- src/client/mod.rs: the buffers of remote surfaces. The pool of the local library is a parameter: its
-- state, the buffers it makes, and the pixels of a buffer that may be drawn to. `none` is a panic, and
-- what an error leaves is a value.
pub mod Received
use wprs.Base.{
  ℕ, Bool, true, false, not, Option, none, some, List, ◌&&◌, ◌==◌, if◌then◌else◌, ◌>>=◌,
}
use wprs.Geometry.{eq_int}
use wprs.Pixels.{Vec4u8}
use wprs.Vec4u8s
use wprs.Vec4u8s.{Vec4u8s}
use wprs.Filtering.Decode.{vec4u8_soa_to_aos}
use wprs.Wayland.{Buffer, BufferAssignment, BufferData, BufferFormat, BufferMetadata, is_external}
use wprs.Client.{RemoteBuffer}

pub record Pool (P : Type 0) : Type 0 where
  -- SlotPool::create_buffer
  pub create_buffer : BufferMetadata → P → Option (ℕ × P)
  -- The pool that a failed `create_buffer` leaves.
  pub after_failure : BufferMetadata → P → P
  -- SlotPool::canvas, cast to pixels: none while the compositor holds the buffer.
  pub canvas : ℕ → P → Option (List Vec4u8)
  -- What is written to the canvas.
  pub write : ℕ → List Vec4u8 → P → P

-- The buffer of a surface and the pool, after an error or without one.
pub data Tried (P : Type 0) : Type 0 where
  failed : Option RemoteBuffer → P → Tried P
  done : Option RemoteBuffer → P → Tried P

-- The buffer of a surface, the cache and the pool, after an error or without one.
pub data Applied (P : Type 0) : Type 0 where
  err : Option RemoteBuffer → Option Vec4u8s → P → Applied P
  ok : Option RemoteBuffer → Option Vec4u8s → P → Applied P

-- PartialEq, as derived.
unfoldable pub eq_format : BufferFormat → BufferFormat → Bool
eq_format BufferFormat.argb8888 BufferFormat.argb8888 = true
eq_format BufferFormat.xrgb8888 BufferFormat.xrgb8888 = true
eq_format _ _ = false

unfoldable pub eq_metadata : BufferMetadata → BufferMetadata → Bool
eq_metadata a b =
    eq_int a.width b.width
    && eq_int a.height b.height
    && eq_int a.stride b.stride
    && eq_format a.format b.format

-- EnumAsInner's into_uncompressed.
unfoldable pub into_uncompressed : BufferData → Option Vec4u8s
into_uncompressed (BufferData.uncompressed v) = some v
into_uncompressed _ = none

module _ {P : Type 0} (pool : Pool P) where
  -- RemoteBuffer::new: no buffer on an error.
  unfoldable pub new_buffer : Buffer → P → Option (Option RemoteBuffer × P)
  new_buffer buffer_msg p = elim (pool.create_buffer buffer_msg.metadata p) [
    | none ↦ some (none, pool.after_failure buffer_msg.metadata p)
    | some (active_buffer, p') ↦ (do
      v ← into_uncompressed buffer_msg.contents
      some (
        some (record {
          metadata = buffer_msg.metadata;
          contents = v;
          active_buffer = active_buffer;
          dirty = true;
        }),
        p',
      ))
  ]

  -- RemoteBuffer::update_data
  unfoldable pub update_data : Buffer → RemoteBuffer → Option RemoteBuffer
  update_data buffer b = do
    v ← into_uncompressed buffer.contents
    some (record b { contents = v; dirty = true })

  -- The canvas of RemoteBuffer::write_data, of a new buffer where the compositor holds the old one;
  -- none on an error.
  unfoldable pub canvas_for : RemoteBuffer → P → RemoteBuffer × Option (List Vec4u8) × P
  canvas_for b p = elim (pool.canvas b.active_buffer p) [
    | some c ↦ (b, some c, p)
    | none ↦ elim (pool.create_buffer b.metadata p) [
      | none ↦ (b, none, pool.after_failure b.metadata p)
      | some (fresh, p') ↦ (record b { active_buffer = fresh }, pool.canvas fresh p', p')
    ]
  ]

  -- The end of write_data, with filtering::unfilter.
  unfoldable pub write_on : RemoteBuffer × Option (List Vec4u8) × P → Option (Tried P)
  write_on (b, none, p) = some (Tried.failed (some b) p)
  write_on (b, some c, p) = do
    pixels ← vec4u8_soa_to_aos b.contents c
    some (Tried.done (some b) (pool.write b.active_buffer pixels p))

  -- RemoteBuffer::write_data
  unfoldable pub write_data : RemoteBuffer → P → Option (Tried P)
  write_data b p = write_on (canvas_for b p)

  -- The end of set_buffer, for the buffer that the surface then has.
  unfoldable pub write_dirty : RemoteBuffer → P → Option (Tried P)
  write_dirty b p = if b.dirty then write_data b p else some (Tried.done (some b) p)

  unfoldable pub write_made : Option RemoteBuffer → Option RemoteBuffer × P → Option (Tried P)
  write_made old (none, p) = some (Tried.failed old p)
  write_made old (some b, p) = write_dirty b p

  -- A buffer takes the place of the old one, which stays on an error.
  unfoldable pub replace_buffer : Buffer → Option RemoteBuffer → P → Option (Tried P)
  replace_buffer new_b old p = do r ← new_buffer new_b p; write_made old r

  -- RemoteSurface::set_buffer, for the buffer of the surface.
  unfoldable pub set_buffer : Buffer → Option RemoteBuffer → P → Option (Tried P)
  set_buffer new_b (some b) p =
      if eq_metadata b.metadata new_b.metadata
      then (do b' ← update_data new_b b; write_dirty b' p)
      else replace_buffer new_b (some b) p
  set_buffer new_b none p = replace_buffer new_b none p

  -- WprsClientState::handle_buffer: the buffer cache.
  unfoldable pub handle_buffer : List ℕ → Option Vec4u8s
  handle_buffer bytes = Vec4u8s.from_bytes bytes

  -- The data that apply_buffer gives to the buffer: that of the cache, if there is some.
  unfoldable pub take_cached : Option Vec4u8s → Buffer → Buffer
  take_cached none b = b
  take_cached (some v) b = record b { contents = BufferData.uncompressed v }

  -- What set_buffer leaves, with the cache that was taken.
  unfoldable pub applied : Tried P → Applied P
  applied (Tried.failed b p) = Applied.err b none p
  applied (Tried.done b p) = Applied.ok b none p

  -- RemoteSurface::apply_buffer
  unfoldable pub apply_buffer :
      Option BufferAssignment → Option RemoteBuffer → Option Vec4u8s → P → Option (Applied P)
  apply_buffer none b cache p = some (Applied.ok b cache p)
  apply_buffer (some BufferAssignment.removed) b cache p = some (Applied.ok none cache p)
  apply_buffer (some (BufferAssignment.new new_b)) b cache p =
      if not (is_external new_b.contents)
      then some (Applied.err b cache p)
      else if is_external ((take_cached cache new_b).contents)
      then some (Applied.err b none p)
      else (do t ← set_buffer (take_cached cache new_b) b p; some (applied t))
