-- ===== src/Decompress/Roundtrip.antt =====
-- src/sharding_compression.rs: the decompressor on the shards of contiguous pieces.
use mathlib.Core.List.{flatten}
use wprs.Base.{
  ℕ, ◌+◌, ◌≤◌, ◌≡◌, refl, sym, ap, ap₂, ◌∙◌, arith, none, some, inl, inr, List, [], ◌∷◌, ◌++◌, take,
  drop, length, replicate, get_elem?, ltb, if◌then◌else◌, le→leb, ltb-false, All, append_assoc,
  append-nil, Bool-cases, length-append, length-take, length-drop, drop-all, drop-drop, take-append,
  length-replicate, dec_lt, lt→ltb, set_elem, get_elem?-append, set_elem-append,
}
use wprs.Shards.{Submission, CompressedShard}
use wprs.Compress.{Zstd, compress_submission}
use wprs.Decompress.{
  SplitTo, decompress_shard, WindowMap, map_remove, number_windows, fill_windows, decompress_impl,
  decompress_to_owned, decompress_with,
}
use wprs.Decompress.Windows.{
  offsets, IsNonEmpty, windows_of, filled, total, SplitsTo, split_all-windows_of, Numbered,
  number_windows-Numbered, Numbered-tail,
}

-- The documented behaviour of zstd: what was compressed comes back when there is room for it.
abbrev pub Restores : Zstd → Type 0
Restores zstd =
    (xs : List ℕ) (capacity : ℕ)
    → length xs ≤ capacity
    → zstd.decompress_to_buffer (zstd.compress xs) capacity ≡ some xs

-- The shards of pieces that follow each other from `off` on.
unfoldable pub shards_at : Zstd → ℕ → List (List ℕ) → List CompressedShard
shards_at zstd off [] = []
shards_at zstd off (c ∷ cs) =
    compress_submission zstd (record { idx = off; input = c }) ∷ shards_at zstd (off + length c) cs

pub length-flatten : (cs : List (List ℕ)) → length (flatten cs) ≡ total cs
unfolding total flatten
length-flatten [] = refl
length-flatten (c ∷ cs) = omega (arith, length-append c (flatten cs), length-flatten cs)

module _ (zstd : Zstd) (restores : Restores zstd) where
  -- What a decompressor thread leaves in a window with room for a submission is the submission's
  -- bytes and behind them what was there, whether or not the shard was worth compressing, when
  -- zstd restores what it compressed.
  pub decompress_shard-compress_submission :
      (s : Submission) (output : List ℕ)
      → length s.input ≤ length output
      → decompress_shard zstd (compress_submission zstd s) output
        ≡ some (s.input ++ drop (length s.input) output)
  unfolding decompress_shard compress_submission
  decompress_shard-compress_submission s output h = elim (Bool-cases (ltb 4096 (length s.input))) [
    | inl large ↦ rw (large, restores s.input (length output) h)
    | inr small ↦ rw (small, le→leb (length s.input) (length output) h)
  ]

  fill_windows-step :
      (s : CompressedShard) (ss : List CompressedShard) (m : WindowMap) (ws : List (List ℕ)) (i : ℕ)
      (out out' : List ℕ)
      → m s.idx ≡ some i
      → get_elem? ws i ≡ some out
      → decompress_shard zstd s out ≡ some out'
      → fill_windows zstd (s ∷ ss) m ws
        ≡ fill_windows zstd ss (map_remove s.idx m) (set_elem ws i out')
  unfolding fill_windows
  fill_windows-step s ss m ws i out out' a b c = rw (a, b, c)

  first_window :
      (off : ℕ) (c out : List ℕ) (cs : List (List ℕ)) (ss : List CompressedShard) (m : WindowMap)
      (done later : List (List ℕ))
      → length c ≤ length out
      → m off ≡ some (length done)
      → fill_windows zstd
          (compress_submission zstd (record { idx = off; input = c }) ∷ ss)
          m
          (done ++ out ∷ later)
        ≡ fill_windows zstd ss (map_remove off m) (done ++ (c ++ drop (length c) out) ∷ later)
  unfolding compress_submission
  first_window off c out cs ss m done later h e =
      let s = compress_submission zstd (record { idx = off; input = c }) in
      fill_windows-step s ss m (done ++ out ∷ later) (length done) out (c ++ drop (length c) out) e
        (get_elem?-append done out later)
        (decompress_shard-compress_submission (record { idx = off; input = c }) out h)
      ∙ ap (fill_windows zstd ss (map_remove off m))
          (set_elem-append done out (c ++ drop (length c) out) later)

  fill_windows-filled :
      (off : ℕ) (c : List ℕ) (cs : List (List ℕ)) (m : WindowMap) (done : List (List ℕ))
      (buf : List ℕ)
      → IsNonEmpty c
      → All IsNonEmpty cs
      → length c + total cs ≤ length buf
      → Numbered (length done) (offsets off (c ∷ cs)) m
      → fill_windows zstd (shards_at zstd off (c ∷ cs)) m (done ++ windows_of c cs buf)
        ≡ some (done ++ filled c cs buf)
  unfolding shards_at windows_of filled total
  fill_windows-filled off c [] m done buf p a h n =
      first_window off c buf [] [] m done [] (omega arith)
        ((Numbered-tail (length done) off c [] m p n).0)
      ∙ (unfold fill_windows in refl)
  fill_windows-filled off c (d ∷ cs) m done buf p a h n =
      let later = windows_of d cs (drop (length c) buf) in
      let k = Numbered-tail (length done) off c (d ∷ cs) m p n in
      first_window off c (take (length c) buf) (d ∷ cs) _ m done later
        (omega (arith, length-take (length c) buf)) k.0
      ∙ ap
          (λ x.
            fill_windows zstd (shards_at zstd (off + length c) (d ∷ cs)) (map_remove off m)
              (done ++ (c ++ x) ∷ later))
          (drop-all (length c) (take (length c) buf) (omega (arith, length-take (length c) buf)))
      ∙ ap (λ x. fill_windows zstd (shards_at zstd (off + length c) (d ∷ cs)) (map_remove off m) x)
          (ap (λ x. done ++ x ∷ later) (append-nil c) ∙ sym (append_assoc done (c ∷ []) later))
      ∙ fill_windows-filled (off + length c) d cs (map_remove off m) (done ++ c ∷ [])
          (drop (length c) buf) a.0 a.1 (omega (arith, length-drop (length c) buf))
          (subst_number (off + length c) (d ∷ cs) (map_remove off m)
            (omega (arith, length-append done (c ∷ []))) k.1)
      ∙ ap some (append_assoc done (c ∷ []) (filled d cs (drop (length c) buf)))
    where
      subst_number :
          {i j : ℕ} (o : ℕ) (es : List (List ℕ)) (m' : WindowMap)
          → i ≡ j
          → Numbered i (offsets o es) m'
          → Numbered j (offsets o es) m'
      subst_number o es m' e x = rw (sym e) x

flatten-filled :
    (c : List ℕ) (cs : List (List ℕ)) (buf : List ℕ)
    → flatten (filled c cs buf) ≡ flatten (c ∷ cs) ++ drop (length c + total cs) buf
unfolding filled flatten total
flatten-filled c [] buf =
    append-nil (c ++ drop (length c) buf)
    ∙ ap₂ (λ x k. x ++ drop k buf) (sym (append-nil c))
        (let e : length c ≡ length c + 0 = omega arith in e)
flatten-filled c (d ∷ cs) buf =
    ap (λ x. c ++ x)
      (flatten-filled d cs (drop (length c) buf)
        ∙ ap (λ x. (d ++ flatten cs) ++ x) (drop-drop (length d + total cs) (length c) buf))
    ∙ sym (append_assoc c (d ++ flatten cs) (drop (length c + (length d + total cs)) buf))

-- The buffer once it is large enough.
abbrev pub grown : List ℕ → ℕ → List ℕ
grown buffer n = if ltb (length buffer) n then replicate n 0 else buffer

length-grown : (buffer : List ℕ) (n : ℕ) → n ≤ length (grown buffer n)
length-grown buffer n = elim (dec_lt (length buffer) n) [
  | yes small ↦ rw (lt→ltb (length buffer) n small) (omega (arith, length-replicate {A = ℕ} n 0))
  | no large ↦ rw (ltb-false (length buffer) n (omega arith)) (omega arith)
]

module _ (zstd : Zstd) (restores : Restores zstd) (split_to : SplitTo) (splits : SplitsTo split_to)
    (buffer : List ℕ) (c : List ℕ) (cs : List (List ℕ)) (p : IsNonEmpty c)
    (a : All IsNonEmpty cs) where
  pub decompress_impl-shards_at :
      decompress_impl zstd split_to buffer
        (offsets 0 (c ∷ cs))
        (total (c ∷ cs))
        (shards_at zstd 0 (c ∷ cs))
      ≡ some (flatten (c ∷ cs) ++ drop (total (c ∷ cs)) (grown buffer (total (c ∷ cs))))
  unfolding decompress_impl offsets total
  decompress_impl-shards_at =
      let buf = grown buffer (total (c ∷ cs)) in
      let room : length c + total cs ≤ length buf = length-grown buffer (total (c ∷ cs)) in
      rw
        (
          split_all-windows_of split_to splits 0 c cs buf room,
          fill_windows-filled zstd restores 0 c cs
              (number_windows 0 (offsets 0 (c ∷ cs)) (λ j. none)) [] buf p a room
              (number_windows-Numbered 0 0 (c ∷ cs) (λ j. none) (p, a)),
        )
        (ap some (flatten-filled c cs buf))

  -- Whatever the buffer held, and whether or not it had to grow, the bytes of the pieces come back.
  pub decompress_to_owned-shards_at :
      decompress_to_owned zstd split_to buffer
        (offsets 0 (c ∷ cs))
        (total (c ∷ cs))
        (shards_at zstd 0 (c ∷ cs))
      ≡ some (flatten (c ∷ cs))
  unfolding decompress_to_owned offsets
  decompress_to_owned-shards_at =
      rw decompress_impl-shards_at
        (ap some (take-append (total (c ∷ cs)) (flatten (c ∷ cs)) _ (length-flatten (c ∷ cs))))

  -- `decompress_with` of the shards of non-empty pieces that follow each other from 0 on gives
  -- the pieces' bytes, whether or not the buffer had to grow and whatever it held, when zstd
  -- restores what it compressed and `split_to` cuts where it is told.
  pub decompress_with-shards_at :
      decompress_with zstd split_to buffer
        (offsets 0 (c ∷ cs))
        (total (c ∷ cs))
        (shards_at zstd 0 (c ∷ cs))
      ≡ some (flatten (c ∷ cs))
  unfolding decompress_with offsets
  decompress_with-shards_at =
      let rest = drop (total (c ∷ cs)) (grown buffer (total (c ∷ cs))) in
      rw
        (
          decompress_impl-shards_at,
          splits (total (c ∷ cs)) (flatten (c ∷ cs) ++ rest)
              (omega (arith, length-append (flatten (c ∷ cs)) rest, length-flatten (c ∷ cs))),
        )
        (ap some (take-append (total (c ∷ cs)) (flatten (c ∷ cs)) rest (length-flatten (c ∷ cs))))
