-- ===== src/Filtering/Decode/Threads.antt =====
-- src/filtering.rs: the threads of vec4u8_soa_to_aos_avx2_parallel, and the whole planes.
use mathlib.Core.List.{flatten}
use wprs.Base.{
  ℕ, zero, suc, ◌+◌, ◌%◌, ◌≤◌, ◌<◌, ◌≡◌, refl, sym, ap, ap₂, ◌∙◌, arith, List, [], ◌∷◌, ◌++◌, take,
  drop, length, length-take, length-drop, length-append, take-append-drop, append-nil, take-append,
  take-append_more, drop-all, All, All-take, All-drop, dec_lt,
}
use wprs.Base.Chunks.{slice_chunks, slice_chunks-step}
use wprs.Base.Chunks.Laws.{slice_chunks-append, slice_chunks-one}
use wprs.Simd.{set1_epi8}
use wprs.Pixels.{Vec4u8}
use wprs.Filtering.Planes.{Quad, quad, quad_path, zip_quad, zip4, IsPixel}
use wprs.Filtering.Planes.Encode.{encode}
use wprs.Filtering.Encode.Threads.{zeros}
use wprs.Filtering.Decode.{unfilter_blocks, unfilter_thread, unfilter_threads}
use wprs.Filtering.Decode.Blocks.{
  unfilter_blocks-encode, IsShort, encode-HasLength, append_assoc_quad, blocks_of-fit,
}
use wprs.Filtering.Block.Backward.{HasLength}

-- The planes of the threads' chunks, each predicted from zero.
unfoldable pub encode_chunks : List (List Vec4u8) → Quad (List ℕ)
encode_chunks [] = quad [] [] [] []
encode_chunks (c ∷ cs) = zip_quad ◌++◌ (encode zeros c) (encode_chunks cs)

-- A thread's chunk, with what is left of the planes behind it.
unfilter_thread-encode :
    (ps : List Vec4u8) (r : Quad (List ℕ)) (aos : List Vec4u8)
    → length ps % 32 ≡ 0
    → IsShort r
    → length ps ≤ length aos
    → All IsPixel ps
    → unfilter_thread (zip_quad ◌++◌ (encode zeros ps) r) aos ≡ ps ++ drop (length ps) aos
unfolding unfilter_thread
unfilter_thread-encode ps r aos d s h a =
    ap (λ w. w ++ drop (length w) aos)
      (ap (λ bs. unfilter_blocks bs (quad (set1_epi8 0) (set1_epi8 0) (set1_epi8 0) (set1_epi8 0)))
          (blocks_of-fit zeros ps aos r d s h)
        ∙ unfilter_blocks-encode (length ps) ps r zeros
            (quad (set1_epi8 0) (set1_epi8 0) (set1_epi8 0) (set1_epi8 0)) (omega arith) d s
            ((λ k. refl), (λ k. refl), (λ k. refl), (λ k. refl)) (omega arith) a)

module _ (size : ℕ) (pos : 0 < size) where
  abbrev chunks_of : Quad (List ℕ) → List (Quad (List ℕ))
  chunks_of q =
      zip4 (slice_chunks size q.q0) (slice_chunks size q.q1) (slice_chunks size q.q2)
        (slice_chunks size q.q3)

  chunks_of-append :
      (q r : Quad (List ℕ)) → HasLength size q → chunks_of (zip_quad ◌++◌ q r) ≡ q ∷ chunks_of r
  unfolding zip4
  chunks_of-append q r h = rw (
    slice_chunks-append size pos q.q0 r.q0 h.0,
    slice_chunks-append size pos q.q1 r.q1 h.1,
    slice_chunks-append size pos q.q2 r.q2 h.2,
    slice_chunks-append size pos q.q3 r.q3 h.3,
  )

  chunks_of-one :
      (q : Quad (List ℕ)) (n : ℕ) → HasLength n q → 0 < n → n ≤ size → chunks_of q ≡ q ∷ []
  unfolding zip4
  chunks_of-one q n h p l = rw (
    slice_chunks-one size q.q0 (omega arith) (omega arith),
    slice_chunks-one size q.q1 (omega arith) (omega arith),
    slice_chunks-one size q.q2 (omega arith) (omega arith),
    slice_chunks-one size q.q3 (omega arith) (omega arith),
  )

  abbrev pub rebuilt : Quad (List ℕ) → List Vec4u8 → List Vec4u8
  rebuilt q aos = flatten (unfilter_threads (chunks_of q) (slice_chunks size aos))

  rebuilt-more :
      (q r : Quad (List ℕ)) (aos : List Vec4u8)
      → HasLength size q
      → size ≤ length aos
      → rebuilt (zip_quad ◌++◌ q r) aos
        ≡ unfilter_thread q (take size aos) ++ rebuilt r (drop size aos)
  rebuilt-more q r aos h l =
      ap₂ (λ cs as'. flatten (unfilter_threads cs as')) (chunks_of-append q r h)
        (slice_chunks-step size aos pos (omega arith))
      ∙ unfold unfilter_threads flatten in refl

  rebuilt-one :
      (q : Quad (List ℕ)) (n : ℕ) (aos : List Vec4u8)
      → HasLength n q
      → 0 < n
      → n ≤ size
      → length aos ≡ n
      → rebuilt q aos ≡ unfilter_thread q aos ++ []
  rebuilt-one q n aos h p l e =
      ap₂ (λ cs as'. flatten (unfilter_threads cs as')) (chunks_of-one q n h p l)
        (slice_chunks-one size aos (omega arith) (omega arith))
      ∙ unfold unfilter_threads flatten in refl

  -- What one round of `rebuilt` gives, cut to the pixels that were predicted.
  first_thread :
      (first : List Vec4u8) (q : Quad (List ℕ)) (aos later : List Vec4u8)
      → length first ≡ size
      → size % 32 ≡ 0
      → All IsPixel first
      → size ≤ length aos
      → take (length later) (rebuilt q (drop size aos)) ≡ later
      → take (length first + length later) (rebuilt (zip_quad ◌++◌ (encode zeros first) q) aos)
        ≡ first ++ later
  first_thread first q aos later full d a l ih =
      ap (take (length first + length later)) (
        rebuilt-more (encode zeros first) q aos (encode-HasLength zeros first size full) l
        ∙ ap (λ w. w ++ rebuilt q (drop size aos)) whole)
      ∙ take-append_more (length first + length later) (length later) first _ refl
      ∙ ap (λ x. first ++ x) ih
    where
      nothing : Quad (List ℕ)
      nothing = quad [] [] [] []

      whole : unfilter_thread (encode zeros first) (take size aos) ≡ first
      whole =
          ap (λ e. unfilter_thread e (take size aos))
            (sym (quad_path (append-nil _) (append-nil _) (append-nil _) (append-nil _)))
          ∙ unfilter_thread-encode first nothing (take size aos) (omega arith) (omega arith)
              (omega (arith, length-take size aos)) a
          ∙ ap (λ x. first ++ x)
              (drop-all (length first) (take size aos) (omega (arith, length-take size aos)))
          ∙ append-nil first

  last_thread :
      (ps : List Vec4u8) (r : Quad (List ℕ)) (n : ℕ) (aos : List Vec4u8)
      → 0 < length ps
      → length ps + n ≤ size
      → length ps % 32 ≡ 0
      → HasLength n r
      → n < 32
      → length aos ≡ length ps + n
      → All IsPixel ps
      → take (length ps) (rebuilt (zip_quad ◌++◌ (encode zeros ps) r) aos) ≡ ps
  last_thread ps r n aos p l d h s e a =
      ap (take (length ps)) (
        rebuilt-one (zip_quad ◌++◌ (encode zeros ps) r) (length ps + n) aos lengths (omega arith) l
          e
        ∙ append-nil _
        ∙ unfilter_thread-encode ps r aos d (omega arith) (omega arith) a)
      ∙ take-append (length ps) ps _ refl
    where
      own : HasLength (length ps) (encode zeros ps)
      own = encode-HasLength zeros ps (length ps) refl

      lengths : HasLength (length ps + n) (zip_quad ◌++◌ (encode zeros ps) r)
      lengths = (
        length-append _ r.q0 ∙ ap₂ ◌+◌ own.0 h.0,
        length-append _ r.q1 ∙ ap₂ ◌+◌ own.1 h.1,
        length-append _ r.q2 ∙ ap₂ ◌+◌ own.2 h.2,
        length-append _ r.q3 ∙ ap₂ ◌+◌ own.3 h.3,
      )

  -- Planes predicted in chunks of this size, with fewer than 32 bytes behind each, are rebuilt.
  pub rebuilt-encode_chunks :
      (bound : ℕ) (ps : List Vec4u8) (r : Quad (List ℕ)) (n : ℕ) (aos : List Vec4u8)
      → length ps ≤ bound
      → size % 32 ≡ 0
      → length ps % 32 ≡ 0
      → HasLength n r
      → n < 32
      → length aos ≡ length ps + n
      → All IsPixel ps
      → take (length ps) (rebuilt (zip_quad ◌++◌ (encode_chunks (slice_chunks size ps)) r) aos) ≡ ps
  rebuilt-encode_chunks bound [] r n aos h ds d hr s e a = refl
  rebuilt-encode_chunks zero (x ∷ ps) r n aos h ds d hr s e a = absurd (omega arith)
  rebuilt-encode_chunks (suc bound) (x ∷ ps) r n aos h ds d hr s e a =
      let all = x ∷ ps in
      let first = take size all in
      let later = drop size all in
      elim (dec_lt (length all) size) [
        | yes small ↦
            ap (λ q. take (length all) (rebuilt q aos))
              (ap (λ cs. zip_quad ◌++◌ (encode_chunks cs) r)
                  (slice_chunks-one size all (omega arith) (omega arith))
                ∙ only all)
            ∙ last_thread all r n aos (omega arith) (omega arith) d hr s e a
        | no large ↦
            (let full : length first ≡ size = omega (arith, length-take size all) in
              ap₂ (λ k q. take k (rebuilt q aos))
                (let split : length all ≡ length first + length later =
                    omega (arith, full, length-drop size all) in
                  split)
                (ap (λ cs. zip_quad ◌++◌ (encode_chunks cs) r)
                    (slice_chunks-step size all pos (omega arith))
                  ∙ cut first (slice_chunks size later))
              ∙ first_thread first _ aos later full ds (All-take IsPixel size all a) (omega arith) (
                  rebuilt-encode_chunks bound later r n (drop size aos)
                    (omega (arith, length-drop size all)) ds (omega (arith, length-drop size all))
                    hr s (omega (arith, length-drop size all, length-drop size aos))
                    (All-drop IsPixel size all a))
              ∙ take-append-drop size all)
      ]
    where
      cut :
          (c : List Vec4u8) (cs : List (List Vec4u8))
          → zip_quad ◌++◌ (encode_chunks (c ∷ cs)) r
            ≡ zip_quad ◌++◌ (encode zeros c) (zip_quad ◌++◌ (encode_chunks cs) r)
      cut c cs = unfold encode_chunks in append_assoc_quad (encode zeros c) (encode_chunks cs) r

      only :
          (c : List Vec4u8)
          → zip_quad ◌++◌ (encode_chunks (c ∷ [])) r ≡ zip_quad ◌++◌ (encode zeros c) r
      only c = unfold encode_chunks in append_assoc_quad (encode zeros c) (quad [] [] [] []) r
