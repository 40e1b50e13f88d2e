-- ===== src/Filtering/Decode/Whole.antt =====
-- src/filtering.rs: vec4u8_soa_to_aos_avx2_parallel on the planes of an image, one after the other.
use mathlib.Core.List.{flatten}
use mathlib.Core.Path.{subst}
use native.Mathlib.Nat.{le_refl}
use wprs.Base.{
  ==-true, ℕ, ◌+◌, ◌*◌, ◌/◌, ◌%◌, ◌≡◌, refl, sym, ap, ap₂, ◌∙◌, arith, some, List, [], ◌∷◌, ◌++◌,
  map, take, drop, length, length-map, length-take, length-drop, length-append, take-append-drop,
  take-append, drop-append, All, All-take,
}
use wprs.Base.Chunks.{slice_chunks}
use wprs.Base.Chunks.Laws.{flatten-slice_chunks}
use wprs.Pixels.{Vec4u8}
use wprs.Vec4u8s
use wprs.Vec4u8s.{Vec4u8s, parts}
use wprs.Filtering.Planes.{Quad, quad, zip_quad, zip4, IsPixel}
use wprs.Filtering.Planes.Encode.{encode}
use wprs.Filtering.Encode.{thread_chunk_size}
use wprs.Filtering.Encode.Threads.{zeros}
use wprs.Filtering.Encode.Total.{thread_chunk_size-pos, thread_chunk_size-mod_32}
use wprs.Filtering.Block.Backward.{HasLength}
use wprs.Filtering.Decode.{raw_pixels, vec4u8_soa_to_aos}
use wprs.Filtering.Decode.Blocks.{encode-HasLength}
use wprs.Filtering.Decode.Threads.{encode_chunks, rebuilt, rebuilt-encode_chunks}

-- The bytes of the pixels, plane by plane.
abbrev pub raw_planes : List Vec4u8 → Quad (List ℕ)
raw_planes ps =
    quad (map (λ p. p.c0) ps) (map (λ p. p.c1) ps) (map (λ p. p.c2) ps) (map (λ p. p.c3) ps)

-- The planes that the filter makes of an image of `len` pixels: the threads' chunks of the whole
-- blocks, predicted, and then the pixels that are left, as they are.
unfoldable pub filtered : ℕ → List Vec4u8 → Quad (List ℕ)
filtered len ps =
    zip_quad ◌++◌
      (encode_chunks (slice_chunks (thread_chunk_size (len / 32)) (take (len / 32 * 32) ps)))
      (raw_planes (drop (len / 32 * 32) ps))

unfoldable pub planes_bytes : Quad (List ℕ) → Vec4u8s
planes_bytes q = record { bytes = q.q0 ++ (q.q1 ++ (q.q2 ++ q.q3)) }

length-planes_bytes :
    (n : ℕ) (q : Quad (List ℕ)) → HasLength n q → length (Vec4u8s.bytes (planes_bytes q)) ≡ 4 * n
unfolding planes_bytes
length-planes_bytes n q h = omega (
  arith,
  length-append q.q0 (q.q1 ++ (q.q2 ++ q.q3)),
  length-append q.q1 (q.q2 ++ q.q3),
  length-append q.q2 q.q3,
)

len-planes_bytes : (n : ℕ) (q : Quad (List ℕ)) → HasLength n q → Vec4u8s.len (planes_bytes q) ≡ n
unfolding Vec4u8s.len
len-planes_bytes n q h = omega (arith, length-planes_bytes n q h)

parts-planes_bytes : (n : ℕ) (q : Quad (List ℕ)) → HasLength n q → parts (planes_bytes q) ≡ q
unfolding parts planes_bytes
parts-planes_bytes n q h = rw (
  len-planes_bytes n q h,
  take-append n q.q0 (q.q1 ++ (q.q2 ++ q.q3)) h.0,
  drop-append n q.q0 (q.q1 ++ (q.q2 ++ q.q3)) h.0,
  take-append n q.q1 (q.q2 ++ q.q3) h.1,
  drop-append n q.q1 (q.q2 ++ q.q3) h.1,
  take-append n q.q2 q.q3 h.2,
  drop-append n q.q2 q.q3 h.2,
)

chunks-parts :
    (v : Vec4u8s) (n : ℕ)
    → Vec4u8s.chunks v n
      ≡ zip4
          (slice_chunks n (parts v).q0)
          (slice_chunks n (parts v).q1)
          (slice_chunks n (parts v).q2)
          (slice_chunks n (parts v).q3)
unfolding Vec4u8s.chunks
chunks-parts v n = refl

raw_pixels-raw_planes :
    (ps : List Vec4u8) → let q = raw_planes ps in raw_pixels (zip4 q.q0 q.q1 q.q2 q.q3) ≡ ps
unfolding raw_pixels zip4
raw_pixels-raw_planes [] = refl
raw_pixels-raw_planes (p ∷ ps) = ap (λ l. p ∷ l) (raw_pixels-raw_planes ps)

raw-HasLength : (n : ℕ) (ps : List Vec4u8) → length ps ≡ n → HasLength n (raw_planes ps)
raw-HasLength n ps h =
    (length-map _ ps ∙ h, length-map _ ps ∙ h, length-map _ ps ∙ h, length-map _ ps ∙ h)

append-HasLength :
    (m n : ℕ) (q r : Quad (List ℕ))
    → HasLength m q
    → HasLength n r
    → HasLength (m + n) (zip_quad ◌++◌ q r)
append-HasLength m n q r h k = (
  length-append q.q0 r.q0 ∙ ap₂ ◌+◌ h.0 k.0,
  length-append q.q1 r.q1 ∙ ap₂ ◌+◌ h.1 k.1,
  length-append q.q2 r.q2 ∙ ap₂ ◌+◌ h.2 k.2,
  length-append q.q3 r.q3 ∙ ap₂ ◌+◌ h.3 k.3,
)

encode_chunks-HasLength :
    (cs : List (List Vec4u8)) → HasLength (length (flatten cs)) (encode_chunks cs)
unfolding encode_chunks flatten
encode_chunks-HasLength [] = (refl, refl, refl, refl)
encode_chunks-HasLength (c ∷ cs) =
    subst (λ n. HasLength n (zip_quad ◌++◌ (encode zeros c) (encode_chunks cs)))
      (sym (length-append c (flatten cs)))
      (append-HasLength (length c) (length (flatten cs)) (encode zeros c) (encode_chunks cs)
        (encode-HasLength zeros c (length c) refl) (encode_chunks-HasLength cs))

-- The four planes of a filtered image, in either piece.
module _ (len : ℕ) (ps : List Vec4u8) (whole : length ps ≡ len) where
  abbrev lim : ℕ
  lim = len / 32 * 32

  abbrev size : ℕ
  size = thread_chunk_size (len / 32)

  abbrev front : Quad (List ℕ)
  front = encode_chunks (slice_chunks size (take lim ps))

  front-HasLength : HasLength lim front
  front-HasLength =
      subst (λ n. HasLength n front)
        (ap length (flatten-slice_chunks size (thread_chunk_size-pos (len / 32)) (take lim ps))
          ∙ omega (arith, length-take lim ps))
        (encode_chunks-HasLength (slice_chunks size (take lim ps)))

  back-HasLength : HasLength (len % 32) (raw_planes (drop lim ps))
  back-HasLength = raw-HasLength (len % 32) (drop lim ps) (omega (arith, length-drop lim ps))

  filtered-HasLength : HasLength len (filtered len ps)
  unfolding filtered
  filtered-HasLength =
      subst (λ n. HasLength n (zip_quad ◌++◌ front (raw_planes (drop lim ps))))
        (let e : lim + len % 32 ≡ len = omega arith in e)
        (append-HasLength lim (len % 32) front (raw_planes (drop lim ps)) front-HasLength
          back-HasLength)

  unfilter-threads :
      (aos : List Vec4u8)
      → length aos ≡ len
      → All IsPixel ps
      → take lim (rebuilt size (thread_chunk_size-pos (len / 32)) (filtered len ps) aos)
        ≡ take lim ps
  unfolding filtered
  unfilter-threads aos h a =
      let pos = thread_chunk_size-pos (len / 32) in
      let taken : length (take lim ps) ≡ lim = omega (arith, length-take lim ps) in
      ap (λ k. take k (rebuilt size pos (filtered len ps) aos)) (sym taken)
      ∙ rebuilt-encode_chunks size pos (length (take lim ps)) (take lim ps)
          (raw_planes (drop lim ps)) (len % 32) aos (le_refl _)
          (thread_chunk_size-mod_32 (len / 32)) (omega arith) back-HasLength (omega arith)
          (omega arith) (All-take IsPixel lim ps a)

  -- Behind the whole blocks the planes hold the pixels as they are.
  unfilter-rest :
      let q = filtered len ps in
      raw_pixels (zip4 (drop lim q.q0) (drop lim q.q1) (drop lim q.q2) (drop lim q.q3))
      ≡ drop lim ps
  unfolding filtered
  unfilter-rest =
      let f = front-HasLength in
      let r = raw_planes (drop lim ps) in
      rw
        (
          drop-append lim front.q0 r.q0 f.0,
          drop-append lim front.q1 r.q1 f.1,
          drop-append lim front.q2 r.q2 f.2,
          drop-append lim front.q3 r.q3 f.3,
        )
        (raw_pixels-raw_planes (drop lim ps))

  -- `vec4u8_soa_to_aos` of the four planes that `filtered` makes of an image of byte pixels gives
  -- the image, when the output has the image's length, whatever it held.
  pub vec4u8_soa_to_aos-filtered :
      (aos : List Vec4u8)
      → length aos ≡ len
      → All IsPixel ps
      → vec4u8_soa_to_aos (planes_bytes (filtered len ps)) aos ≡ some ps
  unfolding vec4u8_soa_to_aos
  vec4u8_soa_to_aos-filtered aos h a =
      rw
        (
          len-planes_bytes len (filtered len ps) filtered-HasLength,
          chunks-parts (planes_bytes (filtered len ps)) size,
          parts-planes_bytes len (filtered len ps) filtered-HasLength,
          ==-true len (length aos) (sym h),
        )
        (ap some (ap₂ ◌++◌ (unfilter-threads aos h a) unfilter-rest ∙ take-append-drop lim ps))
