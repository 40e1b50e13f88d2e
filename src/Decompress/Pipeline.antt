-- ===== src/Decompress/Pipeline.antt =====
-- src/sharding_compression.rs: from the data that is compressed to what the decompressor returns.
use mathlib.Core.List.{flatten}
use native.Mathlib.Nat.{le_refl}
use wprs.Base.{
  ℕ, zero, suc, ◌+◌, ◌*◌, ◌/◌, ◌<◌, ◌≤◌, ◌≡◌, refl, ap, ◌∙◌, arith, some, List, [], ◌∷◌, map, take,
  drop, length, ◌>>=◌, All, All-impl, dec_le, length-take, length-drop, ==-false,
}
use wprs.Base.Chunks.{slice_chunks, slice_chunks-nil, slice_chunks-step}
use wprs.Base.Chunks.Laws.{flatten-slice_chunks, slice_chunks-bounds, slice_chunks-one}
use wprs.ArcSlice
use wprs.ArcSlice.{ArcSlice, as_ref, collect, chunks}
use wprs.ArcSlice.View.{view, IsInside, as_ref-view, collect-view, new-view}
use wprs.Shards
use wprs.Shards.{
  Submission, CompressedShard, CompressedShards, sort_by_key, indices, uncompressed_size, sum,
}
use wprs.Shards.Order.{insert-front, insert-nil}
use wprs.Shards.{insert}
use wprs.Compress.{Zstd, compress_submission, submissions, compress}
use wprs.Decompress.{SplitTo, decompress_to_owned}
use wprs.Decompress.Windows.{offsets, IsNonEmpty, total, SplitsTo}
use wprs.Decompress.Roundtrip.{Restores, shards_at, decompress_to_owned-shards_at}

module _ (zstd : Zstd) where
  indices-shards_at :
      (off : ℕ) (cs : List (List ℕ)) → map (λ s. s.idx) (shards_at zstd off cs) ≡ offsets off cs
  unfolding shards_at offsets compress_submission
  indices-shards_at off [] = refl
  indices-shards_at off (c ∷ cs) = ap (λ l. off ∷ l) (indices-shards_at (off + length c) cs)

  total-shards_at :
      (off : ℕ) (cs : List (List ℕ))
      → sum (map (λ s. s.uncompressed_size) (shards_at zstd off cs)) ≡ total cs
  unfolding shards_at total compress_submission sum
  total-shards_at off [] = refl
  total-shards_at off (c ∷ cs) = ap (λ n. length c + n) (total-shards_at (off + length c) cs)

  -- Contiguous shards are sorted.
  sort_by_key-shards_at :
      (off : ℕ) (cs : List (List ℕ)) → sort_by_key (shards_at zstd off cs) ≡ shards_at zstd off cs
  unfolding shards_at sort_by_key compress_submission
  sort_by_key-shards_at off [] = refl
  sort_by_key-shards_at off (c ∷ []) = insert-nil _
  sort_by_key-shards_at off (c ∷ d ∷ cs) =
      ap (insert (compress_submission zstd (record { idx = off; input = c })))
        (sort_by_key-shards_at (off + length c) (d ∷ cs))
      ∙ insert-front _ _ _ (let h : off ≤ off + length c = omega arith in h)

  -- What `compress` numbers by chunks lies where the chunks before it end.
  abbrev numbered : ℕ → ℕ → List (List ℕ) → List CompressedShard
  numbered size i [] = []
  numbered size i (c ∷ cs) =
      compress_submission zstd (record { idx = i * size; input = c }) ∷ numbered size (i + 1) cs

  numbered-shards_at :
      (bound size i : ℕ) (xs : List ℕ)
      → 0 < size
      → length xs ≤ bound
      → numbered size i (slice_chunks size xs) ≡ shards_at zstd (i * size) (slice_chunks size xs)
  unfolding shards_at
  numbered-shards_at zero size i xs p h = rw (slice_chunks-nil size xs (omega arith)) refl
  numbered-shards_at (suc bound) size i xs p h = elim (dec_le size (length xs)) [
    | yes long ↦
        (let rest = slice_chunks size (drop size xs) in
          rw (slice_chunks-step size xs p (omega arith)) (
            ap (λ l. compress_submission zstd (record { idx = i * size; input = take size xs }) ∷ l)
              (numbered-shards_at bound size (i + 1) (drop size xs) p
                  (omega (arith, length-drop size xs))
                ∙ ap (λ o. shards_at zstd o rest)
                    (next_start i size (length (take size xs))
                      (omega (arith, length-take size xs))))))
    | no short ↦ elim (dec_le 1 (length xs)) [
      | yes one ↦ rw (slice_chunks-one size xs one (omega arith)) refl
      | no done ↦ rw (slice_chunks-nil size xs (omega arith)) refl
    ]
  ]
    where
      next_start : (i n k : ℕ) → k ≡ n → (i + 1) * n ≡ i * n + k
      next_start i n k e = grind arith

  submissions-cons :
      (size i : ℕ) (s : ArcSlice ℕ) (ss : List (ArcSlice ℕ)) (later : List Submission)
      → IsInside s
      → submissions size (i + 1) ss ≡ some later
      → submissions size i (s ∷ ss) ≡ some (record { idx = i * size; input = view s } ∷ later)
  unfolding submissions
  submissions-cons size i s ss later h e = rw (as_ref-view s h, e)

  submissions-numbered :
      (size i : ℕ) (ss : List (ArcSlice ℕ))
      → All IsInside ss
      → (subs : List Submission) × (submissions size i ss ≡ some subs)
        × (map (compress_submission zstd) subs ≡ numbered size i (map view ss))
  unfolding submissions
  submissions-numbered size i [] h = ([], refl, refl)
  submissions-numbered size i (s ∷ ss) h =
      let rest = submissions-numbered size (i + 1) ss h.1 in
      (
        record { idx = i * size; input = view s } ∷ rest.0,
        submissions-cons size i s ss rest.0 h.0 rest.1,
        ap (λ l. compress_submission zstd (record { idx = i * size; input = view s }) ∷ l) rest.2,
      )

  new-IsInside : (xs : List ℕ) → IsInside (ArcSlice.new xs)
  unfolding ArcSlice.new
  new-IsInside xs = omega arith

  len-new : (xs : List ℕ) → ArcSlice.len (ArcSlice.new xs) < suc (length xs)
  unfolding ArcSlice.new
  len-new xs = omega arith

  compress-some :
      (n : ℕ) (xs : List ℕ) (parts : List (ArcSlice ℕ)) (subs : List Submission)
      → 0 < length xs / n
      → collect
          (suc (length xs))
          (record { arc_slice = ArcSlice.new xs; chunk_size = length xs / n })
        ≡ some parts
      → submissions (length xs / n) 0 parts ≡ some subs
      → compress n (ArcSlice.new xs) ≡ some subs
  unfolding compress ArcSlice.new chunks
  compress-some n xs parts subs p a b = rw (==-false (length xs / n) 0 (omega arith), a, b)

  -- What `compress` submits makes contiguous shards of the chunks of the data.
  pub compress-shards_at :
      (n : ℕ) (xs : List ℕ)
      → 0 < length xs / n
      → (subs : List Submission) × (compress n (ArcSlice.new xs) ≡ some subs)
        × (map (compress_submission zstd) subs ≡ shards_at zstd 0 (slice_chunks (length xs / n) xs))
  compress-shards_at n xs p =
      let size = length xs / n in
      let parts =
        collect-view size p (suc (length xs)) (ArcSlice.new xs) (new-IsInside xs) (len-new xs) in
      let subs = submissions-numbered size 0 parts.0 parts.3 in
      (
        subs.0,
        compress-some n xs parts.0 subs.0 p parts.1 subs.1,
        subs.2
            ∙ ap (numbered size 0) (parts.2 ∙ ap (slice_chunks size) (new-view xs))
            ∙ numbered-shards_at (length xs) size 0 xs p (le_refl _)
            ∙ ap (λ o. shards_at zstd o (slice_chunks size xs))
                (let e : 0 * size ≡ 0 = omega arith in e),
      )

  -- The set of shards that a session collects for contiguous pieces.
  pub new-shards_at :
      (cs : List (List ℕ))
      → let c = Shards.new (shards_at zstd 0 cs) in
        (c.shards ≡ shards_at zstd 0 cs)
        × (indices c ≡ offsets 0 cs)
        × (uncompressed_size c ≡ total cs)
  unfolding Shards.new indices uncompressed_size
  new-shards_at cs =
      let sorted = sort_by_key-shards_at 0 cs in
      (
        sorted,
        ap (map (λ s. s.idx)) sorted ∙ indices-shards_at 0 cs,
        ap (λ ss. sum (map (λ s. s.uncompressed_size) ss)) sorted ∙ total-shards_at 0 cs,
      )

  pub decompress-pieces :
      Restores zstd
      → (split_to : SplitTo) → SplitsTo split_to
      → (buffer : List ℕ) (cs : List (List ℕ)) → All IsNonEmpty cs
      → let c = Shards.new (shards_at zstd 0 cs) in
        decompress_to_owned zstd split_to buffer (indices c) (uncompressed_size c) c.shards
        ≡ some (flatten cs)
  unfolding decompress_to_owned offsets flatten
  decompress-pieces r split_to law buffer [] a = let new_eq = new-shards_at [] in rw (new_eq.1) refl
  decompress-pieces r split_to law buffer (c ∷ cs) a =
      let new_eq = new-shards_at (c ∷ cs) in
      rw (new_eq.1, new_eq.2, new_eq.0)
        (decompress_to_owned-shards_at zstd r split_to law buffer c cs a.0 a.1)

  -- What `compress` submits for some data, compressed and sorted as a session collects it,
  -- `decompress_to_owned` turns back into the data, whatever its buffer held, when zstd restores
  -- what it compressed, `split_to` cuts where it is told, and no chunk is empty.
  pub compress-decompress_to_owned :
      Restores zstd
      → (split_to : SplitTo) → SplitsTo split_to
      → (buffer : List ℕ) (n_shards : ℕ) (xs : List ℕ) → 0 < length xs / n_shards
      → (compress n_shards (ArcSlice.new xs) >>= λ subs.
          let c = Shards.new (map (compress_submission zstd) subs) in
          decompress_to_owned zstd split_to buffer (indices c) (uncompressed_size c) c.shards)
        ≡ some xs
  compress-decompress_to_owned r split_to law buffer n xs p =
      let size = length xs / n in
      let subs = compress-shards_at n xs p in
      rw (subs.1, subs.2)
        (decompress-pieces r split_to law buffer (slice_chunks size xs) (
            All-impl _ IsNonEmpty (slice_chunks size xs) (λ c b. b.0)
              (slice_chunks-bounds size p xs))
          ∙ ap some (flatten-slice_chunks size p xs))
