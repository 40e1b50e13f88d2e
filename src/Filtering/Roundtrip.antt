-- ===== src/Filtering/Roundtrip.antt =====
-- src/filtering.rs: filter_and_compress, and vec4u8_soa_to_aos_avx2_parallel after it.
use mathlib.Core.List.{flatten}
use wprs.Base.{
  ℕ, suc, ◌+◌, ◌*◌, ◌/◌, ◌%◌, ◌<◌, ◌≡◌, refl, sym, ap, ap₂, ◌∙◌, arith, some, List, [], ◌∷◌, ◌++◌,
  take, drop, length, ◌>>=◌, append-nil, length-drop, length-tabulate, lt→ltb, ltb-false, dec_lt,
  ==-true,
}
use wprs.Base.Chunks.{slice_chunks}
use wprs.Base.Chunks.Laws.{flatten-slice_chunks}
use wprs.Simd.{Lanes}
use wprs.Pixels.{Memory, Vec4u8}
use wprs.Shards.{Submission}
use wprs.BufferPointer.{BufferPointer, u8_pod, vec4u8_pod, cast}
use wprs.BufferPointer.Elements.{elements, IsValid}
use wprs.Filtering.Planes.{Quad, quad, quad_path, zip_quad, map_quad, delta}
use wprs.Filtering.Planes.Encode.{encode, carry, encode-append}
use wprs.Filtering.Encode.{
  Rounds, compression_block_size, thread_chunk_size, vec4u8_aos_to_soa, filter_and_compress,
}
use wprs.Filtering.Encode.Blocks.{elements-IsPixel}
use wprs.Filtering.Encode.Threads.{rounds_of, zeros, thread_rounds, threads_of}
use wprs.Filtering.Encode.Total.{rounds_for, remainder_of, vec4u8_aos_to_soa_lem}
use wprs.Filtering.Decode.{vec4u8_soa_to_aos}
use wprs.Filtering.Decode.Blocks.{append_assoc_quad}
use wprs.Filtering.Decode.Threads.{encode_chunks}
use wprs.Filtering.Decode.Whole.{raw_planes, filtered, planes_bytes, vec4u8_soa_to_aos-filtered}

-- The inputs of the shards of each plane, in the order in which they lie in the plane.
unfoldable pub joined : List (Quad Submission) → Quad (List ℕ)
joined [] = quad [] [] [] []
joined (r ∷ rs) = zip_quad ◌++◌ (map_quad (λ s. s.input) r) (joined rs)

-- All that was submitted for an image, plane by plane.
abbrev pub planes_submitted : Rounds → Quad (List ℕ)
planes_submitted r = zip_quad ◌++◌ (joined (flatten r.threads)) (joined r.caller)

joined-append :
    (xs ys : List (Quad Submission)) → joined (xs ++ ys) ≡ zip_quad ◌++◌ (joined xs) (joined ys)
unfolding joined
joined-append [] ys = refl
joined-append (x ∷ xs) ys =
    ap (zip_quad ◌++◌ (map_quad (λ s. s.input) x)) (joined-append xs ys)
    ∙ sym (append_assoc_quad (map_quad (λ s. s.input) x) (joined xs) (joined ys))

joined-rounds_of :
    (len idx : ℕ) (prev : Quad ℕ) (cs : List (List Vec4u8))
    → joined (rounds_of len idx prev cs) ≡ encode prev (flatten cs)
unfolding joined rounds_of flatten
joined-rounds_of len idx prev [] = unfold delta in refl
joined-rounds_of len idx prev (ps ∷ rest) =
    ap (zip_quad ◌++◌ (encode prev ps))
      (joined-rounds_of len (idx + length ps) (carry prev ps) rest)
    ∙ sym (encode-append prev ps (flatten rest))

thread_rounds-eq :
    (len idx : ℕ) (ps : List Vec4u8)
    → thread_rounds len idx ps ≡ rounds_of len idx zeros (slice_chunks compression_block_size ps)
unfolding thread_rounds
thread_rounds-eq len idx ps = refl

joined-threads_of :
    (len size i : ℕ) (cs : List (List Vec4u8))
    → joined (flatten (threads_of len size i cs)) ≡ encode_chunks cs
unfolding joined threads_of flatten encode_chunks
joined-threads_of len size i [] = refl
joined-threads_of len size i (ps ∷ rest) =
    joined-append (thread_rounds len (i * size) ps) (flatten (threads_of len size (suc i) rest))
    ∙ ap₂ (zip_quad ◌++◌) (one_thread len (i * size) ps) (joined-threads_of len size (suc i) rest)
  where
    one_thread :
        (len idx : ℕ) (ps : List Vec4u8) → joined (thread_rounds len idx ps) ≡ encode zeros ps
    one_thread len idx ps =
        ap joined (thread_rounds-eq len idx ps)
        ∙ joined-rounds_of len idx zeros (slice_chunks compression_block_size ps)
        ∙ ap (encode zeros) (flatten-slice_chunks compression_block_size (omega arith) ps)

joined-remainder_of :
    (len rem : ℕ) (ps : List Vec4u8)
    → length ps ≡ rem
    → joined (remainder_of len rem ps) ≡ raw_planes ps
unfolding joined
joined-remainder_of len rem ps h = elim (dec_lt 0 rem) [
  | yes some_left ↦
      rw (lt→ltb 0 rem some_left)
        (quad_path (append-nil _) (append-nil _) (append-nil _) (append-nil _))
  | no done ↦ rw (ltb-false 0 rem (omega arith)) (nothing ps (omega arith))
]
  where
    nothing : (ps : List Vec4u8) → length ps ≡ 0 → quad [] [] [] [] ≡ raw_planes ps
    nothing [] e = refl
    nothing (p ∷ ps) e = absurd (omega arith)

planes_submitted-rounds_for :
    (len : ℕ) (ps : List Vec4u8)
    → length ps ≡ len
    → planes_submitted (rounds_for len ps) ≡ filtered len ps
unfolding filtered rounds_for
planes_submitted-rounds_for len ps h =
    ap₂ (zip_quad ◌++◌)
      (joined-threads_of len (thread_chunk_size (len / 32)) 0
        (slice_chunks (thread_chunk_size (len / 32)) (take (len / 32 * 32) ps)))
      (joined-remainder_of len (len % 32) (drop (len / 32 * 32) ps)
        (omega (arith, length-drop (len / 32 * 32) ps)))

-- The same for the buffer seen as pixels.
vec4u8_soa_to_aos-vec4u8_aos_to_soa :
    (upper : Lanes ℕ) (m : Memory)
    → ((a : ℕ) → m a < 256)
    → (b : BufferPointer) (aos : List Vec4u8) → IsValid vec4u8_pod b
    → 0 < b.len
    → length aos ≡ b.len
    → (vec4u8_aos_to_soa upper m b >>= λ r.
        vec4u8_soa_to_aos (planes_bytes (planes_submitted r)) aos)
      ≡ some (elements vec4u8_pod m b)
vec4u8_soa_to_aos-vec4u8_aos_to_soa upper m bytes b aos v p h =
    let ps = elements vec4u8_pod m b in
    let count : length ps ≡ b.len = length-tabulate b.len _ in
    rw (vec4u8_aos_to_soa_lem upper m bytes b v p) (
      ap (λ q. vec4u8_soa_to_aos (planes_bytes q) aos) (planes_submitted-rounds_for b.len ps count)
      ∙ vec4u8_soa_to_aos-filtered b.len ps count aos h (elements-IsPixel upper m bytes b))

-- The pixels that a buffer of bytes holds.
abbrev pub pixels_of : BufferPointer → BufferPointer
pixels_of source = record { ptr = source.ptr; len = source.len / 4 }

cast-pixels :
    (source : BufferPointer)
    → IsValid u8_pod source
    → source.len % 4 ≡ 0
    → cast u8_pod vec4u8_pod source ≡ some (pixels_of source)
unfolding cast
cast-pixels source v h = ground (
  arith,
  v.not_null,
  (let e : source.len * 1 / 4 ≡ source.len / 4 = omega arith in e),
  (let e : source.ptr % 1 ≡ 0 = omega arith in e),
  (let e : 1 * source.len ≡ 4 * (source.len / 4) = omega arith in e),
)

-- `filter_and_compress` of a non-empty buffer of whole pixels at a valid address of a memory of
-- bytes neither panics nor runs out of fuel, and `vec4u8_soa_to_aos` of the planes that its
-- submissions make up gives the pixels of the buffer back, whatever the undefined halves of
-- registers and an output of the right length held.
pub vec4u8_soa_to_aos-filter_and_compress :
    (upper : Lanes ℕ) (m : Memory)
    → ((a : ℕ) → m a < 256)
    → (source : BufferPointer) (aos : List Vec4u8) → IsValid u8_pod source
    → 0 < source.len
    → source.len % 4 ≡ 0
    → length aos ≡ source.len / 4
    → (filter_and_compress upper m source >>= λ r.
        vec4u8_soa_to_aos (planes_bytes (planes_submitted r)) aos)
      ≡ some (elements vec4u8_pod m (pixels_of source))
unfolding filter_and_compress
vec4u8_soa_to_aos-filter_and_compress upper m bytes source aos v p h e =
    rw (==-true (source.len % 4) 0 h, cast-pixels source v h)
      (vec4u8_soa_to_aos-vec4u8_aos_to_soa upper m bytes (pixels_of source) aos
        (record { not_null = v.not_null; aligned = omega arith; tiles = refl }) (omega arith) e)
