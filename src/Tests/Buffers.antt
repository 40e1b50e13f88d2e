-- ===== src/Tests/Buffers.antt =====
-- The theorem on buffers that are sent and shown, at a concrete buffer.
use wprs.Base.{ℕ, suc, ◌≡◌, refl, sym, ap, true, none, some, List, [], ◌∷◌, length, ◌>>=◌, ==-true}
use wprs.Geometry.{pos}
use wprs.Pixels.{Vec4u8, vec4u8}
use wprs.Vec4u8s
use wprs.Vec4u8s.{Vec4u8s, parts}
use wprs.Shards.{CompressedShards}
use wprs.Filtering.Decode.{vec4u8_soa_to_aos, raw_pixels}
use wprs.Filtering.Planes.{zip4}
use wprs.Wayland
use wprs.Wayland.{
  BufferFormat, BufferMetadata, SurfaceState, new_state, update_with_external_buffer,
}
use wprs.Client.{RemoteBuffer}
use wprs.Client.Buffers.{Pool, Applied, apply_buffer}
use wprs.Client.Buffers.Received.{Decodes, Shows, apply_buffer-update_with_external_buffer}

-- Buffers of one pixel, with numbers in the order in which they are made.
abbrev pub pool : Pool ℕ
pool = record {
  create_buffer = λ md p. some (p, suc p);
  after_failure = λ md p. p;
  canvas = λ k p. some (vec4u8 0 0 0 0 ∷ []);
  write = λ k pixels p. p;
}

abbrev pub metadata : BufferMetadata
metadata = record { width = pos 1; height = pos 1; stride = pos 4; format = BufferFormat.argb8888 }

abbrev planes : Vec4u8s
planes = record { bytes = 1 ∷ 2 ∷ 3 ∷ 4 ∷ [] }

planes-Decodes : Decodes planes (vec4u8 1 2 3 4 ∷ [])
unfolding vec4u8_soa_to_aos Vec4u8s.len parts zip4 raw_pixels
planes-Decodes canvas h = rw (==-true 1 (length canvas) (sym h)) refl

abbrev shards : CompressedShards
shards = record { shards = [] }

-- The surface shows a buffer of the same metadata.
abbrev old : RemoteBuffer
old = record {
  metadata = metadata;
  contents = record { bytes = 9 ∷ 9 ∷ 9 ∷ 9 ∷ [] };
  active_buffer = 5;
  dirty = true;
}

apply_buffer-update_with_external_buffer_example :
    (sent : SurfaceState) × ((Wayland.set_buffer (some metadata) (some shards) (new_state 7 1 none)
        >>= λ s. update_with_external_buffer s.buffer (new_state 7 1 none))
      ≡ some (sent, shards))
    × (b' : RemoteBuffer) × (p' : ℕ) × (apply_buffer pool sent.buffer (some old) (some planes) 8
        ≡ some (Applied.ok (some b') none p'))
    × Shows pool metadata planes (vec4u8 1 2 3 4 ∷ []) b' p'
unfolding Vec4u8s.len
apply_buffer-update_with_external_buffer_example =
    apply_buffer-update_with_external_buffer pool metadata planes (vec4u8 1 2 3 4 ∷ [])
      planes-Decodes (λ p. (p, suc p, vec4u8 0 0 0 0 ∷ [], refl, refl, refl)) (new_state 7 1 none)
      (new_state 7 1 none) shards (some old) 8 (λ o e same canvas h. ap length (some-inj (sym h)))
  where
    some-inj : {a b : List Vec4u8} → some a ≡ some b → a ≡ b
    some-inj {a = a} e = ap (λ o. elim o [ none ↦ a | some x ↦ x ]) e
