-- ===== src/Filtering/Decode.antt =====
-- src/filtering.rs: vec4u8_soa_to_aos_avx2_parallel. Threads write disjoint chunks of the output, so
-- they are a list in the order of the chunks.
pub mod Blocks
pub mod Threads
pub mod Whole
use mathlib.Core.List.{flatten}
use wprs.Base.{
  ℕ, suc, ◌*◌, ◌/◌, Option, some, List, [], ◌∷◌, ◌++◌, take, drop, length, ◌==◌, guard, ◌>>=◌, ◌>>◌,
}
use wprs.Base.Chunks.{slice_chunks, exact_chunks}
use wprs.Simd.{Lanes, set1_epi8}
use wprs.Pixels.{Vec4u8, vec4u8}
use wprs.Vec4u8s
use wprs.Vec4u8s.{Vec4u8s, parts}
use wprs.Filtering.Planes.{Quad, quad, zip4}
use wprs.Filtering.Block.{soa_to_aos_u8_32x4}
use wprs.Filtering.Encode.{thread_chunk_size}

-- The inner loop: the pixels that its rounds write.
unfoldable pub unfilter_blocks : List (Quad (List ℕ)) → Quad (Lanes ℕ) → List Vec4u8
unfilter_blocks [] prev = []
unfilter_blocks (b ∷ bs) prev =
    let (out, next) = soa_to_aos_u8_32x4 b prev in out ++ unfilter_blocks bs next

-- The closure of one thread: whole blocks are written over the start of `aos`. The registers that it
-- captured are zero, and the output has a say in where `izip!` stops.
unfoldable pub unfilter_thread : Quad (List ℕ) → List Vec4u8 → List Vec4u8
unfilter_thread soa aos =
    let z = set1_epi8 0 in
    let blocks =
      zip4 (exact_chunks 32 soa.q0) (exact_chunks 32 soa.q1) (exact_chunks 32 soa.q2)
        (exact_chunks 32 soa.q3) in
    let written = unfilter_blocks (take (length (exact_chunks 32 aos)) blocks) (quad z z z z) in
    written ++ drop (length written) aos

unfoldable pub unfilter_threads : List (Quad (List ℕ)) → List (List Vec4u8) → List (List Vec4u8)
unfilter_threads (soa ∷ soas) (aos ∷ rest) = unfilter_thread soa aos ∷ unfilter_threads soas rest
unfilter_threads _ rest = rest

-- The pixels of the four planes as they are.
unfoldable pub raw_pixels : List (Quad ℕ) → List Vec4u8
raw_pixels [] = []
raw_pixels (q ∷ qs) = vec4u8 q.q0 q.q1 q.q2 q.q3 ∷ raw_pixels qs

unfoldable pub vec4u8_soa_to_aos : Vec4u8s → List Vec4u8 → Option (List Vec4u8)
vec4u8_soa_to_aos soa aos =
    let n = Vec4u8s.len soa in
    let n_blocks = n / 32 in
    let lim = n_blocks * 32 in
    let size = thread_chunk_size n_blocks in
    let p = parts soa in
    let blocks = flatten (unfilter_threads (Vec4u8s.chunks soa size) (slice_chunks size aos)) in
    (do
      guard (n == length aos)
      some (
          take lim blocks
          ++ raw_pixels (zip4 (drop lim p.q0) (drop lim p.q1) (drop lim p.q2) (drop lim p.q3))))
