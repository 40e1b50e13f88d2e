-- ===== src/BufferPointer/Elements.antt =====
-- src/buffer_pointer.rs: the chunk iterators, in terms of the elements that a buffer points to.
use native.Mathlib.Nat.{add-mod}
use wprs.Base.{
  ℕ, zero, suc, ◌+◌, ◌-◌, ◌*◌, ◌%◌, ◌≤◌, ◌<◌, ◌≡◌, sym, ap, ap₂, ◌∙◌, arith, Option, some, List, [],
  ◌∷◌, map, tabulate, tabulate_ext, take, drop, take-tabulate, drop-tabulate, length,
  length-tabulate, min, All, take-min, drop-min, ltb-false, lt→ltb, ==-false, dec_lt,
}
use wprs.Base.Chunks.{
  slice_chunks, slice_chunks-nil, slice_chunks-step, exact_chunks, exact_chunks-short,
  exact_chunks-step,
}
use wprs.Pixels.{Memory}
use wprs.BufferPointer.{
  Pod, BufferPointer, Chunks, ArrayChunks, KnownSizeBufferPointer, split_at, next_chunk,
  collect_chunks, next_array, collect_arrays, as_known_size,
}

module _ {ℓ} {T : Type ℓ} (pod : Pod T) where
  -- The elements that a buffer points to.
  abbrev pub elements : Memory → BufferPointer → List T
  elements m b = tabulate b.len (λ i. pod.read m (b.ptr + i * pod.size))

  -- A pointer that `new` accepts, at an element type that tiles memory.
  pub record IsValid (b : BufferPointer) : Type 0 where
    pub not_null : 0 < b.ptr
    pub aligned : b.ptr % pod.align ≡ 0
    pub tiles : pod.size % pod.align ≡ 0

  abbrev pub front : BufferPointer → ℕ → BufferPointer
  front b mid = record { ptr = b.ptr; len = mid }

  abbrev pub back : BufferPointer → ℕ → BufferPointer
  back b mid = record { ptr = b.ptr + mid * pod.size; len = b.len - mid }

  add-aligned : (a x y : ℕ) → x % a ≡ 0 → y % a ≡ 0 → (x + y) % a ≡ 0
  add-aligned a x y p q = rw (add-mod, p, q) (grind arith)

  pub element-aligned :
      (b : BufferPointer) (i : ℕ) → IsValid b → (b.ptr + i * pod.size) % pod.align ≡ 0
  element-aligned b zero v = ground (arith, v.aligned)
  element-aligned b (suc i) v =
      ap (λ k. k % pod.align)
        (let e : b.ptr + suc i * pod.size ≡ b.ptr + i * pod.size + pod.size = grind arith in e)
      ∙ add-aligned pod.align (b.ptr + i * pod.size) pod.size (element-aligned b i v) v.tiles

  pub front-IsValid : (b : BufferPointer) (mid : ℕ) → IsValid b → IsValid (front b mid)
  front-IsValid b mid v = record { not_null = v.not_null; aligned = v.aligned; tiles = v.tiles }

  pub back-IsValid : (b : BufferPointer) (mid : ℕ) → IsValid b → IsValid (back b mid)
  back-IsValid b mid v = record {
    not_null = omega arith;
    aligned = element-aligned b mid v;
    tiles = v.tiles;
  }

  -- `split_at` of a valid buffer at a place within its length does not panic, and gives the
  -- pointers to the two parts.
  pub split_at-eq-some :
      (b : BufferPointer) (mid : ℕ)
      → IsValid b
      → mid ≤ b.len
      → split_at pod b mid ≡ some (front b mid, back b mid)
  unfolding split_at
  split_at-eq-some b mid v h = ground (arith, v.not_null, v.aligned, element-aligned b mid v)

  pub elements-front :
      (m : Memory) (b : BufferPointer) (mid : ℕ)
      → mid ≤ b.len
      → elements m (front b mid) ≡ take mid (elements m b)
  elements-front m b mid h =
      sym (take-tabulate mid b.len (λ i. pod.read m (b.ptr + i * pod.size)) h)

  pub elements-back :
      (m : Memory) (b : BufferPointer) (mid : ℕ) → elements m (back b mid) ≡ drop mid (elements m b)
  elements-back m b mid =
      tabulate_ext (b.len - mid) (λ i. pod.read m (b.ptr + mid * pod.size + i * pod.size))
        (λ i. pod.read m (b.ptr + (mid + i) * pod.size)) (λ i h. ap (pod.read m) (grind arith))
      ∙ sym (drop-tabulate mid b.len (λ i. pod.read m (b.ptr + i * pod.size)))

  length-elements : (m : Memory) (b : BufferPointer) → length (elements m b) ≡ b.len
  length-elements m b = length-tabulate b.len (λ i. pod.read m (b.ptr + i * pod.size))

  next_chunk-step :
      (b : BufferPointer) (n : ℕ)
      → IsValid b
      → 0 < b.len
      → next_chunk pod (record { ptr = b; chunk_size = n })
        ≡ some (some (front b (min b.len n)), record { ptr = back b (min b.len n); chunk_size = n })
  unfolding next_chunk
  next_chunk-step b n v h =
      rw (==-false b.len 0 (omega arith), split_at-eq-some b (min b.len n) v (omega arith))

  next_array-step :
      (n : ℕ) (b : BufferPointer) (r : Option BufferPointer)
      → 0 < n
      → IsValid b
      → n ≤ b.len
      → next_array pod n (record { ptr = b; rem = r })
        ≡ some (some (record { ptr = b.ptr }), record { ptr = back b n; rem = r })
  unfolding next_array as_known_size
  next_array-step n b r pos v h =
      rw (ltb-false b.len n h, split_at-eq-some b n v h) (ground (arith, v.not_null, v.aligned))

  collect_chunks-cons :
      (fuel : ℕ) (c c' : Chunks) (b : BufferPointer) (rest : List BufferPointer)
      → next_chunk pod c ≡ some (some b, c')
      → collect_chunks pod fuel c' ≡ some rest
      → collect_chunks pod (suc fuel) c ≡ some (b ∷ rest)
  unfolding collect_chunks
  collect_chunks-cons fuel c c' b rest e r = rw (e, r)

  collect_arrays-cons :
      (n fuel : ℕ) (c c' : ArrayChunks n) (k : KnownSizeBufferPointer n)
      (rest : List (KnownSizeBufferPointer n))
      → next_array pod n c ≡ some (some k, c')
      → collect_arrays pod n fuel c' ≡ some rest
      → collect_arrays pod n (suc fuel) c ≡ some (k ∷ rest)
  unfolding collect_arrays
  collect_arrays-cons n fuel c c' k rest e r = rw (e, r)

  -- The elements that a pointer of known size points to.
  abbrev pub block : Memory → {n : ℕ} → KnownSizeBufferPointer n → List T
  block m {n} k = elements m (record { ptr = k.ptr; len = n })

  abbrev pub IsUsable : {n : ℕ} → KnownSizeBufferPointer n → Type 0
  IsUsable {n} k = IsValid (record { ptr = k.ptr; len = n })

  module _ (m : Memory) (n : ℕ) (pos : 0 < n) where
    -- The chunk iterator over a valid buffer, for a positive size and more rounds of fuel than
    -- elements, ends without a panic, and its valid chunks point to the chunks of the buffer's
    -- elements.
    pub collect_chunks-elements :
        (fuel : ℕ) (b : BufferPointer)
        → IsValid b
        → b.len < fuel
        → (bs : List BufferPointer) × (collect_chunks pod fuel (record { ptr = b; chunk_size = n })
            ≡ some bs)
          × (map (elements m) bs ≡ slice_chunks n (elements m b))
          × All IsValid bs
    collect_chunks-elements zero b v lt = absurd (omega arith)
    collect_chunks-elements (suc fuel) b v lt = elim (dec_lt 0 b.len) [
      | no done ↦ (
        [],
        unfold collect_chunks next_chunk in ground arith,
        sym (slice_chunks-nil n (elements m b) (omega (arith, length-elements m b))),
        tt,
      )
      | yes more ↦
          (let size = min b.len n in
            let rest =
              collect_chunks-elements fuel (back b size) (back-IsValid b size v) (omega arith) in
            (
              front b size ∷ rest.0,
              collect_chunks-cons fuel _ _ _ _ (next_chunk-step b n v more) rest.1,
              ap₂ ◌∷◌ (elements-front m b size (omega arith))
                    (rest.2 ∙ ap (slice_chunks n) (elements-back m b size))
                  ∙ sym (chunk_step b more),
              (front-IsValid b size v, rest.3),
            ))
    ]
      where
        chunk_step :
            (b : BufferPointer)
            → 0 < b.len
            → slice_chunks n (elements m b)
              ≡ take (min b.len n) (elements m b)
                ∷ slice_chunks n (drop (min b.len n) (elements m b))
        chunk_step b more =
            slice_chunks-step n (elements m b) pos (omega (arith, length-elements m b))
            ∙ ap₂ (λ x y. x ∷ slice_chunks n y)
                (sym (take-min n (elements m b))
                  ∙ ap (λ k. take (min k n) (elements m b)) (length-elements m b))
                (sym (drop-min n (elements m b))
                  ∙ ap (λ k. drop (min k n) (elements m b)) (length-elements m b))

    -- The array iterator over a valid buffer, for a positive size and more rounds of fuel than
    -- elements, ends without a panic, and its usable arrays point to the whole chunks of the
    -- buffer's elements.
    pub collect_arrays-elements :
        (fuel : ℕ) (b : BufferPointer) (r : Option BufferPointer)
        → IsValid b
        → b.len < fuel
        → (ks : List (KnownSizeBufferPointer n)) × (collect_arrays pod n fuel
              (record { ptr = b; rem = r })
            ≡ some ks)
          × (map (block m) ks ≡ exact_chunks n (elements m b))
          × All IsUsable ks
    collect_arrays-elements zero b r v lt = absurd (omega arith)
    collect_arrays-elements (suc fuel) b r v lt = elim (dec_lt b.len n) [
      | yes short ↦ (
        [],
        unfold collect_arrays next_array in rw (lt→ltb b.len n short),
        sym (exact_chunks-short n (elements m b) (omega (arith, length-elements m b))),
        tt,
      )
      | no full ↦
          (let rest =
              collect_arrays-elements fuel (back b n) r (back-IsValid b n v) (omega arith) in
            (
              record { ptr = b.ptr } ∷ rest.0,
              collect_arrays-cons n fuel _ _ _ _ (next_array-step n b r pos v (omega arith)) rest.1,
              ap₂ ◌∷◌ (elements-front m b n (omega arith))
                    (rest.2 ∙ ap (exact_chunks n) (elements-back m b n))
                  ∙ sym
                      (exact_chunks-step n (elements m b) pos (omega (arith, length-elements m b))),
              (front-IsValid b n v, rest.3),
            ))
    ]
