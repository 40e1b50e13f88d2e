-- ===== src/Filtering/Encode/Total.antt =====
-- src/filtering.rs: the whole filter, on the pixels that its buffer points to.
use wprs.Base.{
  ℕ, suc, ◌-◌, ◌*◌, ◌/◌, ◌%◌, ◌≤◌, ◌<◌, ◌≡◌, refl, ap, ap₂, ◌∙◌, arith, some, List, [], ◌∷◌, map,
  length, take, drop, ltb, if◌then◌else◌, length-tabulate, All, All-map, All-zip, All-impl,
  ==-false,
}
use wprs.Base.Chunks.{slice_chunks}
use wprs.Base.Chunks.Laws.{slice_chunks-bounds, slice_chunks-mod_32}
use wprs.Simd.{Lanes}
use wprs.Pixels.{Memory, Vec4u8}
use wprs.Shards.{Submission}
use wprs.BufferPointer.{BufferPointer, vec4u8_pod, is_empty, chunks}
use wprs.BufferPointer.Elements.{
  elements, elements-front, elements-back, front, back, front-IsValid, IsValid,
  collect_chunks-elements, split_at-eq-some,
}
use wprs.BufferPointer.Iteration.{into_list-eq-elements}
use wprs.Filtering.Planes.{Quad, quad}
use wprs.Filtering.Encode.{
  compression_block_size, thread_chunk_size, filter_thread, filter_threads, remainder, Rounds,
  vec4u8_aos_to_soa,
}
use wprs.Filtering.Encode.Threads.{
  zeros, rounds_of, thread_rounds, threads_of, IsWhole, filter_chunks_lem,
}

-- The bytes of the pixels after the last whole block.
abbrev pub remainder_of : ℕ → ℕ → List Vec4u8 → List (Quad Submission)
remainder_of len rem ps =
    if ltb 0 rem
    then quad (record { idx = len - rem; input = map (λ p. p.c0) ps })
        (record { idx = 2 * len - rem; input = map (λ p. p.c1) ps })
        (record { idx = 3 * len - rem; input = map (λ p. p.c2) ps })
        (record { idx = 4 * len - rem; input = map (λ p. p.c3) ps })
      ∷ []
    else []

-- What the filter submits for a list of pixels.
unfoldable pub rounds_for : ℕ → List Vec4u8 → Rounds
rounds_for len ps = record {
  threads =
      threads_of len (thread_chunk_size (len / 32)) 0
        (slice_chunks (thread_chunk_size (len / 32)) (take (len / 32 * 32) ps));
  caller = remainder_of len (len % 32) (drop (len / 32 * 32) ps);
}

pub thread_chunk_size-pos : (n : ℕ) → 0 < thread_chunk_size n
unfolding thread_chunk_size
thread_chunk_size-pos n = omega arith

pub thread_chunk_size-mod_32 : (n : ℕ) → thread_chunk_size n % 32 ≡ 0
unfolding thread_chunk_size
thread_chunk_size-mod_32 n = omega arith

module _ (upper : Lanes ℕ) (m : Memory) (bytes : (a : ℕ) → m a < 256) where
  length-elements : (b : BufferPointer) → length (elements vec4u8_pod m b) ≡ b.len
  length-elements b = length-tabulate b.len _

  abbrev blocks : (b : BufferPointer) → List (List Vec4u8)
  blocks b = slice_chunks compression_block_size (elements vec4u8_pod m b)

  abbrev IsChunk : List Vec4u8 → Type 0
  IsChunk c = ((0 < length c) × (length c ≤ compression_block_size)) × (length c % 32 ≡ 0)

  All-IsWhole :
      (b : BufferPointer) (subs : List BufferPointer)
      → b.len % 32 ≡ 0
      → map (elements vec4u8_pod m) subs ≡ blocks b
      → All IsWhole subs
  All-IsWhole b subs h e =
      All-impl (λ s. IsChunk (elements vec4u8_pod m s)) IsWhole subs
        (λ s p. omega (arith, length-elements s))
        (All-map IsChunk (elements vec4u8_pod m) subs (
          rw e (
            All-zip _ _ (blocks b)
              (slice_chunks-bounds compression_block_size (omega arith) (elements vec4u8_pod m b))
              (slice_chunks-mod_32 compression_block_size (omega arith) (elements vec4u8_pod m b)
                refl (ap (λ k. k % 32) (length-elements b) ∙ h)))))

  filter_thread_lem :
      (len idx : ℕ) (b : BufferPointer)
      → IsValid vec4u8_pod b
      → b.len % 32 ≡ 0
      → filter_thread upper m len idx b ≡ some (thread_rounds len idx (elements vec4u8_pod m b))
  unfolding filter_thread chunks thread_rounds
  filter_thread_lem len idx b v h =
      let subs =
        collect_chunks-elements vec4u8_pod m compression_block_size (omega arith) (suc b.len) b v
          (omega arith) in
      rw subs.1 (
        filter_chunks_lem upper m bytes len idx subs.0 zeros subs.3 (All-IsWhole b subs.0 h subs.2)
          (omega arith)
        ∙ ap (λ cs. some (rounds_of len idx zeros cs)) subs.2)

  filter_threads_lem :
      (len size i : ℕ) (bs : List BufferPointer)
      → All (IsValid vec4u8_pod) bs
      → All (λ b. b.len % 32 ≡ 0) bs
      → filter_threads upper m len size i bs
        ≡ some (threads_of len size i (map (elements vec4u8_pod m) bs))
  unfolding filter_threads threads_of
  filter_threads_lem len size i [] v h = refl
  filter_threads_lem len size i (b ∷ bs) v h =
      rw
        (filter_thread_lem len (i * size) b v.0 h.0, filter_threads_lem len size (suc i) bs v.1 h.1)

  whole_threads :
      (size : ℕ) (b : BufferPointer) (ts : List BufferPointer)
      → 0 < size
      → size % 32 ≡ 0
      → b.len % 32 ≡ 0
      → map (elements vec4u8_pod m) ts ≡ slice_chunks size (elements vec4u8_pod m b)
      → All (λ t. t.len % 32 ≡ 0) ts
  whole_threads size b ts pos d h e =
      All-impl (λ t. length (elements vec4u8_pod m t) % 32 ≡ 0) (λ t. t.len % 32 ≡ 0) ts
        (λ t p. omega (arith, length-elements t))
        (All-map (λ c. length c % 32 ≡ 0) (elements vec4u8_pod m) ts
          (rw e (
            slice_chunks-mod_32 size pos (elements vec4u8_pod m b) d
              (ap (λ k. k % 32) (length-elements b) ∙ h))))

  remainder_lem :
      (len rem : ℕ) (b : BufferPointer)
      → remainder upper m len rem b ≡ some (remainder_of len rem (elements vec4u8_pod m b))
  unfolding remainder
  remainder_lem len rem b = rw into_list-eq-elements (ground arith)

  -- For a valid non-empty buffer in a memory of bytes `vec4u8_aos_to_soa` returns, and submits
  -- what `rounds_for` says of the buffer's pixels: the differences of the planes of each
  -- compression block, thread by thread, and the bytes left over as they are.
  pub vec4u8_aos_to_soa_lem :
      (b : BufferPointer)
      → IsValid vec4u8_pod b
      → 0 < b.len
      → vec4u8_aos_to_soa upper m b ≡ some (rounds_for b.len (elements vec4u8_pod m b))
  unfolding vec4u8_aos_to_soa rounds_for is_empty chunks
  vec4u8_aos_to_soa_lem b v h =
      let size = thread_chunk_size (b.len / 32) in
      let pos = thread_chunk_size-pos (b.len / 32) in
      let lim = b.len / 32 * 32 in
      let threads =
        collect_chunks-elements vec4u8_pod m size pos (suc lim) (front vec4u8_pod b lim)
          (front-IsValid vec4u8_pod b lim v) (omega arith) in
      rw
        (
          ==-false b.len 0 (omega arith),
          split_at-eq-some vec4u8_pod b lim v (omega arith),
          ==-false size 0 (omega arith),
          threads.1,
          filter_threads_lem b.len size 0 threads.0 threads.3 (
              whole_threads size (front vec4u8_pod b lim) threads.0 pos
                (thread_chunk_size-mod_32 (b.len / 32)) (omega arith) threads.2),
          remainder_lem b.len (b.len % 32) (back vec4u8_pod b lim),
        )
        (ap₂
          (λ ts ps. some (record {
            threads = threads_of b.len size 0 ts;
            caller = remainder_of b.len (b.len % 32) ps;
          }))
          (threads.2 ∙ ap (slice_chunks size) (elements-front vec4u8_pod m b lim (omega arith)))
          (elements-back vec4u8_pod m b lim))
