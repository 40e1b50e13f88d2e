-- ===== src/Filtering/Encode/Threads.antt =====
-- src/filtering.rs: the filter's loops over compression blocks and threads, on lists of pixels.
use mathlib.Core.List.{flatten}
use wprs.Base.{
  ℕ, suc, ◌+◌, ◌-◌, ◌*◌, ◌/◌, ◌%◌, ◌≤◌, ◌<◌, ◌≡◌, refl, sym, ap, ◌∙◌, arith, some, none, List, [],
  ◌∷◌, ◌++◌, map, length, take, min, replicate, length-map, length-tabulate, take-all, append-nil,
  All,
}
use wprs.Base.Chunks.{slice_chunks}
use wprs.Base.Chunks.Laws.{flatten-exact_chunks, length-exact_chunks}
use wprs.Simd.{Lanes}
use wprs.Pixels.{Memory, Vec4u8}
use wprs.Shards.{Submission}
use wprs.BufferPointer.{
  BufferPointer, KnownSizeBufferPointer, vec4u8_pod, array_chunks, collect_arrays,
}
use wprs.BufferPointer.Elements.{elements, block, IsValid, collect_arrays-elements}
use wprs.Filtering.Planes.{Quad, quad, quad_path, delta, length-delta}
use wprs.Filtering.Planes.Encode.{encode, carry, carry-IsByteQuad, IsByteQuad}
use wprs.Filtering.Encode.{compression_block_size, fill, filter_blocks, filter_chunk, filter_chunks}
use wprs.Filtering.Encode.Blocks.{pixels, elements-IsPixel, filter_blocks_lem}

-- What is submitted for the planes `q` of the pixels from `idx` on, of `len` in all.
abbrev pub shards : ℕ → ℕ → Quad (List ℕ) → Quad Submission
shards len idx q =
    quad (record { idx = idx; input = q.q0 }) (record { idx = idx + len; input = q.q1 })
      (record { idx = idx + 2 * len; input = q.q2 }) (record { idx = idx + 3 * len; input = q.q3 })

unfoldable pub rounds_of : ℕ → ℕ → Quad ℕ → List (List Vec4u8) → List (Quad Submission)
rounds_of len idx prev [] = []
rounds_of len idx prev (ps ∷ rest) =
    shards len idx (encode prev ps) ∷ rounds_of len (idx + length ps) (carry prev ps) rest

abbrev pub zeros : Quad ℕ
zeros = quad 0 0 0 0

-- A thread's chunk is cut into compression blocks, and predicted from zero.
unfoldable pub thread_rounds : ℕ → ℕ → List Vec4u8 → List (Quad Submission)
thread_rounds len idx ps = rounds_of len idx zeros (slice_chunks compression_block_size ps)

unfoldable pub threads_of : ℕ → ℕ → ℕ → List (List Vec4u8) → List (List (Quad Submission))
threads_of len size i [] = []
threads_of len size i (ps ∷ rest) =
    thread_rounds len (i * size) ps ∷ threads_of len size (suc i) rest

-- A compression block as the filter meets it.
abbrev pub IsWhole : BufferPointer → Type 0
IsWhole b = (b.len ≤ compression_block_size) × (b.len % 32 ≡ 0)

module _ (upper : Lanes ℕ) (m : Memory) (bytes : (a : ℕ) → m a < 256) where
  fill-full : (n : ℕ) (xs : List ℕ) → length xs ≡ n → fill n xs ≡ xs
  fill-full n xs h =
      ap (λ k. xs ++ replicate k 0) (let e : n - length xs ≡ 0 = omega arith in e) ∙ append-nil xs

  length-plane :
      (g : Vec4u8 → ℕ) (b : BufferPointer) → length (map g (elements vec4u8_pod m b)) ≡ b.len
  length-plane g b = length-map g (elements vec4u8_pod m b) ∙ length-tabulate b.len _

  -- The four arrays of one compression block, full.
  full_shards :
      (len idx n : ℕ) (b : BufferPointer) (prev : Quad ℕ)
      → n ≡ b.len
      → let e = encode prev (elements vec4u8_pod m b) in
        shards len idx (quad (fill n e.q0) (fill n e.q1) (fill n e.q2) (fill n e.q3))
        ≡ shards len idx e
  full_shards len idx n b prev h = ap (shards len idx) (
      quad_path (fill-full n _ (plane _ prev.q0)) (fill-full n _ (plane _ prev.q1))
        (fill-full n _ (plane _ prev.q2)) (fill-full n _ (plane _ prev.q3)))
    where
      plane : (g : Vec4u8 → ℕ) (p : ℕ) → length (delta p (map g (elements vec4u8_pod m b))) ≡ n
      plane g p = length-delta p _ ∙ length-plane g b ∙ sym h

  filter_chunk-step :
      (len idx : ℕ) (b : BufferPointer) (prev : Quad ℕ) (ks : List (KnownSizeBufferPointer 32))
      → b.len ≤ compression_block_size
      → collect_arrays vec4u8_pod 32 (suc b.len) (record { ptr = b; rem = none }) ≡ some ks
      → take (min b.len compression_block_size / 32) ks ≡ ks
      → filter_blocks upper m ks prev
        ≡ some (encode prev (elements vec4u8_pod m b), carry prev (elements vec4u8_pod m b))
      → filter_chunk upper m len idx b prev
        ≡ some (
          shards len idx (encode prev (elements vec4u8_pod m b)),
          carry prev (elements vec4u8_pod m b),
        )
  unfolding filter_chunk array_chunks
  filter_chunk-step len idx b prev ks fits e f g =
      rw (e, f, g)
        (ap (λ s. some (s, carry prev (elements vec4u8_pod m b)))
          (full_shards len idx _ b prev (omega arith)))

  filter_chunk_lem :
      (len idx : ℕ) (b : BufferPointer) (prev : Quad ℕ)
      → IsValid vec4u8_pod b
      → IsWhole b
      → IsByteQuad prev
      → filter_chunk upper m len idx b prev
        ≡ some (
          shards len idx (encode prev (elements vec4u8_pod m b)),
          carry prev (elements vec4u8_pod m b),
        )
  filter_chunk_lem len idx b prev v w q =
      let arrays =
        collect_arrays-elements vec4u8_pod m 32 (omega arith) (suc b.len) b none v (omega arith) in
      let n : length (elements vec4u8_pod m b) ≡ b.len = length-tabulate b.len _ in
      let whole : pixels upper m bytes arrays.0 ≡ elements vec4u8_pod m b =
        ap flatten arrays.2
        ∙ flatten-exact_chunks (elements vec4u8_pod m b) (ap (λ k. k % 32) n ∙ w.1) in
      let count : length arrays.0 * 32 ≤ b.len = omega (
        arith,
        sym (length-map (block vec4u8_pod m) arrays.0) ∙ ap length arrays.2,
        (length-exact_chunks 32 (omega arith) (elements vec4u8_pod m b)).0,
        n,
      ) in
      filter_chunk-step len idx b prev arrays.0 w.0 arrays.1 (take-all _ _ (omega arith)) (
        filter_blocks_lem upper m bytes arrays.0 prev arrays.3 q
        ∙ ap (λ ps. some (encode prev ps, carry prev ps)) whole)

  pub filter_chunks_lem :
      (len idx : ℕ) (bs : List BufferPointer) (prev : Quad ℕ)
      → All (IsValid vec4u8_pod) bs
      → All IsWhole bs
      → IsByteQuad prev
      → filter_chunks upper m len idx bs prev
        ≡ some (rounds_of len idx prev (map (elements vec4u8_pod m) bs))
  unfolding filter_chunks rounds_of
  filter_chunks_lem len idx [] prev v w q = refl
  filter_chunks_lem len idx (b ∷ bs) prev v w q = rw (
    filter_chunk_lem len idx b prev v.0 w.0 q,
    filter_chunks_lem len (idx + b.len) bs _ v.1 w.1
        (carry-IsByteQuad prev _ q (elements-IsPixel upper m bytes b)),
    length-tabulate,
  )
