-- ===== src/Client/Buffers/Received.antt =====
-- src/client/mod.rs: a buffer that was sent outside of the surface's state and arrives with it.
use wprs.Base.{
  ℕ, Bool, true, false, Option, none, some, List, ◌&&◌, ◌≡◌, inl, inr, refl, sym, ap, ◌∙◌, ◌>>=◌,
  length, Bool-cases, Option-cases, ==_iff,
}
use wprs.Geometry.{ℤ, pos, negsuc, eq_int}
use wprs.Pixels.{Vec4u8}
use wprs.Vec4u8s
use wprs.Vec4u8s.{Vec4u8s}
use wprs.Filtering.Decode.{vec4u8_soa_to_aos}
use wprs.Shards.{CompressedShards}
use wprs.Wayland
use wprs.Wayland.{
  Buffer, BufferAssignment, BufferData, BufferFormat, BufferMetadata, SurfaceState, is_external,
  update_with_external_buffer, with_buffer, as_new, as_compressed,
}
use wprs.Client.{RemoteBuffer}
use wprs.Client.Buffers
use wprs.Client.Buffers.{
  Pool, Tried, Applied, eq_format, eq_metadata, into_uncompressed, new_buffer, update_data,
  canvas_for, write_data, write_on, write_dirty, write_made, replace_buffer, take_cached, applied,
  apply_buffer,
}

eq_int_sound : (a b : ℤ) → eq_int a b ≡ true → a ≡ b
unfolding eq_int
eq_int_sound (pos m) (pos n) h = ap pos ((==_iff m n).0 h)
eq_int_sound (negsuc m) (negsuc n) h = ap negsuc ((==_iff m n).0 h)
eq_int_sound (pos m) (negsuc n) h = cc
eq_int_sound (negsuc m) (pos n) h = cc

eq_format_sound : (a b : BufferFormat) → eq_format a b ≡ true → a ≡ b
unfolding eq_format
eq_format_sound BufferFormat.argb8888 BufferFormat.argb8888 h = refl
eq_format_sound BufferFormat.xrgb8888 BufferFormat.xrgb8888 h = refl
eq_format_sound BufferFormat.argb8888 BufferFormat.xrgb8888 h = cc
eq_format_sound BufferFormat.xrgb8888 BufferFormat.argb8888 h = cc

and_true : (a b : Bool) → (a && b) ≡ true → (a ≡ true) × (b ≡ true)
and_true true b h = (refl, h)
and_true false b h = cc

eq_metadata_sound : (a b : BufferMetadata) → eq_metadata a b ≡ true → a ≡ b
unfolding eq_metadata
eq_metadata_sound a b h =
    let abc = and_true _ _ h in
    let ab = and_true _ _ abc.0 in
    let wh = and_true _ _ ab.0 in
    let w = eq_int_sound a.width b.width wh.0 in
    let k = eq_int_sound a.height b.height wh.1 in
    let s = eq_int_sound a.stride b.stride ab.1 in
    let f = eq_format_sound a.format b.format abc.1 in
    λ i. record { width = w i; height = k i; stride = s i; format = f i }

some-inj : {A : Type 0} {a b : A} → some a ≡ some b → a ≡ b
some-inj {a = a} e = ap (λ o. elim o [ none ↦ a | some x ↦ x ]) e

-- The planes give this image on any canvas of their size.
abbrev pub Decodes : Vec4u8s → List Vec4u8 → Type 0
Decodes v image =
    (canvas : List Vec4u8) → length canvas ≡ Vec4u8s.len v → vec4u8_soa_to_aos v canvas ≡ some image

-- The pool makes buffers for the metadata that can be drawn to and have room for `n` pixels.
abbrev pub Makes : {P : Type 0} → Pool P → BufferMetadata → ℕ → Type 0
Makes {P = P} pool md n =
    (p : P)
    → (k : ℕ) × (p' : P) × (canvas : List Vec4u8) × (pool.create_buffer md p ≡ some (k, p'))
      × (pool.canvas k p' ≡ some canvas)
      × (length canvas ≡ n)

-- A buffer that the compositor does not hold has room for `n` pixels.
abbrev pub HasRoom : {P : Type 0} → Pool P → P → ℕ → ℕ → Type 0
HasRoom pool p n k = (canvas : List Vec4u8) → pool.canvas k p ≡ some canvas → length canvas ≡ n

-- The surface has the buffer, and its image was written to the pool.
abbrev pub Shows :
    {P : Type 0} → Pool P → BufferMetadata → Vec4u8s → List Vec4u8 → RemoteBuffer → P → Type 0
Shows {P = P} pool md v image b p =
    (b.metadata ≡ md)
    × (b.contents ≡ v)
    × (b.dirty ≡ true)
    × ((before : P) × (p ≡ pool.write b.active_buffer image before))

module _ {P : Type 0} (pool : Pool P) (md : BufferMetadata) (v : Vec4u8s) (image : List Vec4u8)
    (decodes : Decodes v image) (makes : Makes pool md (Vec4u8s.len v)) where
  write_data-Shows :
      (k : ℕ) (p : P)
      → HasRoom pool p (Vec4u8s.len v) k
      → let b : RemoteBuffer = record {
        metadata = md;
        contents = v;
        active_buffer = k;
        dirty = true;
      } in
        (b' : RemoteBuffer) × (p' : P) × (write_data pool b p ≡ some (Tried.done (some b') p'))
        × Shows pool md v image b' p'
  unfolding write_data write_on canvas_for
  write_data-Shows k p room = elim (Option-cases (pool.canvas k p)) [
    | inr (canvas, free) ↦ (
      record { metadata = md; contents = v; active_buffer = k; dirty = true },
      pool.write k image p,
      rw (write_data, ◌>>=◌, canvas_for, free, decodes canvas (room canvas free)) refl,
      (refl, refl, refl, (p, refl)),
    )
    | inl held ↦
        let m = makes p in
        let b : RemoteBuffer = record {
          metadata = md;
          contents = v;
          active_buffer = k;
          dirty = true;
        } in
        let found : ◌≡◌ {A = RemoteBuffer × Option (List Vec4u8) × P} (canvas_for pool b p)
            (record b { active_buffer = m.0 }, some m.2, m.1) =
          rw (canvas_for, held, m.3, m.4) refl in
        (
          record b { active_buffer = m.0 },
          pool.write m.0 image m.1,
          ap (write_on pool) found ∙ rw (decodes m.2 m.5) refl,
          (refl, refl, refl, (m.1, refl)),
        )
  ]

  -- The buffer that arrived, with the data of the cache.
  abbrev arrived : Buffer
  arrived = record { metadata = md; contents = BufferData.uncompressed v }

  replace_buffer-Shows :
      (old : Option RemoteBuffer) (p : P)
      → (b' : RemoteBuffer) × (p' : P) × (replace_buffer pool arrived old p
          ≡ some (Tried.done (some b') p'))
        × Shows pool md v image b' p'
  unfolding replace_buffer write_made new_buffer into_uncompressed write_dirty
  replace_buffer-Shows old p =
      let m = makes p in
      let w = write_data-Shows m.0 m.1 (λ c e. ap length (some-inj (sym e ∙ m.4)) ∙ m.5) in
      (w.0, w.1, rw (replace_buffer, ◌>>=◌, new_buffer, m.3) w.2, w.3)

  -- The surface's old buffer, if it has one, has room for the image where it is reused.
  set_buffer-Shows :
      (b : Option RemoteBuffer) (p : P)
      → ((old : RemoteBuffer)
          → b ≡ some old
          → old.metadata ≡ md
          → HasRoom pool p (Vec4u8s.len v) old.active_buffer)
      → (b' : RemoteBuffer) × (p' : P) × (Buffers.set_buffer pool arrived b p
          ≡ some (Tried.done (some b') p'))
        × Shows pool md v image b' p'
  unfolding Buffers.set_buffer update_data into_uncompressed write_dirty
  set_buffer-Shows none p room = replace_buffer-Shows none p
  set_buffer-Shows (some old) p room = elim (Bool-cases (eq_metadata old.metadata md)) [
    | inr other ↦ let w = replace_buffer-Shows (some old) p in (w.0, w.1, rw other w.2, w.3)
    | inl same ↦
        let e = eq_metadata_sound old.metadata md same in
        let w = write_data-Shows old.active_buffer p (room old refl e) in
        (
          w.0,
          w.1,
          rw same (
              ap
                (λ x.
                  write_data pool
                    (record {
                      metadata = x;
                      contents = v;
                      active_buffer = old.active_buffer;
                      dirty = true;
                    })
                    p)
                e
              ∙ w.2),
          w.3,
        )
  ]

  -- After `set_buffer` of some metadata and shards, `update_with_external_buffer` gives a state
  -- to send and those shards; `apply_buffer` of the buffer in that state, with planes in the
  -- cache, returns, empties the cache, and leaves the surface with a dirty buffer of the metadata
  -- and the planes, whose image was the last thing written to the pool, whether the surface had
  -- no buffer, one of these or of other metadata, or one that the compositor holds, when the
  -- planes give the image on any canvas of their size, the pool makes buffers that can be drawn
  -- to at once with a canvas of that size, and a canvas that an old buffer of the metadata has is
  -- of that size.
  pub apply_buffer-update_with_external_buffer :
      (s to_send : SurfaceState) (c : CompressedShards) (b : Option RemoteBuffer) (p : P)
      → ((old : RemoteBuffer)
          → b ≡ some old
          → old.metadata ≡ md
          → HasRoom pool p (Vec4u8s.len v) old.active_buffer)
      → (sent : SurfaceState) × ((Wayland.set_buffer (some md) (some c) s >>= λ s'.
            update_with_external_buffer s'.buffer to_send)
          ≡ some (sent, c))
        × (b' : RemoteBuffer) × (p' : P) × (apply_buffer pool sent.buffer b (some v) p
            ≡ some (Applied.ok (some b') none p'))
        × Shows pool md v image b' p'
  unfolding Wayland.set_buffer update_with_external_buffer with_buffer as_new as_compressed
      apply_buffer applied take_cached is_external
  apply_buffer-update_with_external_buffer s to_send c b p room =
      let w = set_buffer-Shows b p room in
      (
        with_buffer
            (some (BufferAssignment.new (record { metadata = md; contents = BufferData.external })))
            to_send,
        refl,
        w.0,
        w.1,
        rw (apply_buffer, ◌>>=◌, w.2) refl,
        w.3,
      )
