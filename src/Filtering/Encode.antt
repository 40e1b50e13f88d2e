-- ===== src/Filtering/Encode.antt =====
-- src/filtering.rs: vec4u8_aos_to_soa_avx2_parallel_compression up to what it submits to the
-- compressor. Its four calls of `compress_shard` in one round of the inner loop are a `Quad`, in
-- their order; what each closure run by the thread pool submits is a list of rounds. `none` is a
-- panic or a loop that ran out of fuel.
pub mod Blocks
pub mod Threads
pub mod Total
use wprs.Base.{
  ℕ, zero, suc, ◌+◌, ◌-◌, ◌*◌, ◌/◌, ◌%◌, Option, none, some, List, [], ◌∷◌, ◌++◌, map, take,
  replicate, length, max, min, ltb, ◌==◌, if◌then◌else◌, ◌>>=◌, ◌>>◌, guard,
}
use wprs.Simd.{Lanes}
use wprs.Pixels.{Memory, Vec4u8}
use wprs.Shards.{Submission}
use wprs.BufferPointer.{
  BufferPointer, KnownSizeBufferPointer, u8_pod, vec4u8_pod, cast, is_empty, split_at, chunks,
  collect_chunks, array_chunks, collect_arrays, into_list,
}
use wprs.Filtering.Planes.{Quad, quad, map_quad, zip_quad}
use wprs.Filtering.Block.{aos_to_soa_u8_32x4}

abbrev pub compression_block_size : ℕ
compression_block_size = 128 * 1024

unfoldable pub thread_chunk_size : ℕ → ℕ
thread_chunk_size n_blocks = max (n_blocks / 4) 1 * 32

-- What each thread submits, and then what the caller does.
pub record Rounds : Type 0 where
  pub threads : List (List (Quad Submission))
  pub caller : List (Quad Submission)

-- `vec![0; soa_len]` after the loop has written its start.
abbrev pub fill : ℕ → List ℕ → List ℕ
fill soa_len written = written ++ replicate (soa_len - length written) 0

module _ (upper : Lanes ℕ) (m : Memory) where
  -- The innermost loop: the arrays that its rounds fill, one after the other, and the last bytes.
  pub filter_blocks : List (KnownSizeBufferPointer 32) → Quad ℕ → Option (Quad (List ℕ) × Quad ℕ)
  filter_blocks [] prev = some (quad [] [] [] [], prev)
  filter_blocks (k ∷ ks) prev = do
    (out, next) ← aos_to_soa_u8_32x4 upper m k prev
    (outs, last) ← filter_blocks ks next
    some (zip_quad ◌++◌ out outs, last)

  -- One round of the loop over the compression blocks of a thread's chunk.
  pub filter_chunk : ℕ → ℕ → BufferPointer → Quad ℕ → Option (Quad Submission × Quad ℕ)
  filter_chunk len idx aos prev =
      let soa_len = min aos.len compression_block_size in
      (do
        arrays ← array_chunks vec4u8_pod 32 aos
        ks ← collect_arrays vec4u8_pod 32 (suc aos.len) arrays
        (out, next) ← filter_blocks (take (soa_len / 32) ks) prev
        some (
          quad (record { idx = idx; input = fill soa_len out.q0 })
              (record { idx = idx + len; input = fill soa_len out.q1 })
              (record { idx = idx + 2 * len; input = fill soa_len out.q2 })
              (record { idx = idx + 3 * len; input = fill soa_len out.q3 }),
          next,
        ))

  pub filter_chunks : ℕ → ℕ → List BufferPointer → Quad ℕ → Option (List (Quad Submission))
  filter_chunks len idx [] prev = some []
  filter_chunks len idx (aos ∷ rest) prev = do
    (shards, next) ← filter_chunk len idx aos prev
    later ← filter_chunks len (idx + aos.len) rest next
    some (shards ∷ later)

  -- The closure of one thread, for a chunk that starts at pixel `idx`.
  pub filter_thread : ℕ → ℕ → BufferPointer → Option (List (Quad Submission))
  filter_thread len idx aos = do
    c ← chunks vec4u8_pod aos compression_block_size
    subs ← collect_chunks vec4u8_pod (suc aos.len) c
    filter_chunks len idx subs (quad 0 0 0 0)

  -- The loop that starts the threads.
  pub filter_threads : ℕ → ℕ → ℕ → List BufferPointer → Option (List (List (Quad Submission)))
  filter_threads len size thread_idx [] = some []
  filter_threads len size thread_idx (aos ∷ rest) = do
    rounds ← filter_thread len (thread_idx * size) aos
    others ← filter_threads len size (suc thread_idx) rest
    some (rounds ∷ others)

  -- The pixels after the last whole block go out as they are.
  pub remainder : ℕ → ℕ → BufferPointer → Option (List (Quad Submission))
  remainder len rem aos_remainder =
      if ltb 0 rem
      then (do
        ps ← into_list vec4u8_pod m aos_remainder
        some (
            quad (record { idx = len - rem; input = map (λ p. p.c0) ps })
              (record { idx = 2 * len - rem; input = map (λ p. p.c1) ps })
              (record { idx = 3 * len - rem; input = map (λ p. p.c2) ps })
              (record { idx = 4 * len - rem; input = map (λ p. p.c3) ps })
            ∷ []))
      else some []

  pub vec4u8_aos_to_soa : BufferPointer → Option Rounds
  vec4u8_aos_to_soa aos =
      if is_empty aos
      then some (record { threads = []; caller = [] })
      else (let len = aos.len in
          let n_blocks = len / 32 in
          let lim = n_blocks * 32 in
          let rem = len % 32 in
          let size = thread_chunk_size n_blocks in
          do
            (aos_to_lim, aos_remainder) ← split_at vec4u8_pod aos lim
            c ← chunks vec4u8_pod aos_to_lim size
            threads ← collect_chunks vec4u8_pod (suc aos_to_lim.len) c
            rounds ← filter_threads len size 0 threads
            rest ← remainder len rem aos_remainder
            some (record { threads = rounds; caller = rest }))

  -- The entry of the filter: the bytes of the buffer, seen as pixels.
  unfoldable pub filter_and_compress : BufferPointer → Option Rounds
  filter_and_compress bytes = do
    guard (bytes.len % 4 == 0)
    pixels ← cast u8_pod vec4u8_pod bytes
    vec4u8_aos_to_soa pixels
