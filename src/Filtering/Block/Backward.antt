-- ===== src/Filtering/Block/Backward.antt =====
-- src/filtering.rs: soa_to_aos_u8_32x4 against sums of the planes.
use wprs.Base.{
  ℕ, zero, suc, ◌+◌, ◌%◌, ◌<◌, ◌≡◌, refl, sym, ap, ◌∙◌, arith, List, [], ◌∷◌, get_or, tabulate,
  tabulate_ext, length,
}
use wprs.Simd.{Lanes, add_u8, load_m256i}
use wprs.Filtering.Prediction.{prefix_sum}
use wprs.Filtering.Prediction.Sums.{running_sum, prefix_sum-eq-running_sum, prefix_sum-carry}
use wprs.Filtering.Transpose.{store_channels_lem}
use wprs.Filtering.Planes.{
  Quad, undelta, last_or, zip_quad, join, join_lists, join_pixel, length-undelta,
}
use wprs.Filtering.Block.{soa_to_aos_u8_32x4}

running_sum-shift :
    (f : Lanes ℕ) (i : ℕ) → running_sum f (suc i) ≡ f 0 + running_sum (λ j. f (suc j)) i
unfolding running_sum
running_sum-shift f zero = refl
running_sum-shift f (suc i) = omega (arith, running_sum-shift f i)

undelta-eq-running_sum :
    (p : ℕ) (ds : List ℕ) (i : ℕ)
    → i < length ds
    → get_or (undelta p ds) i 0 ≡ (p + running_sum (λ j. get_or ds j 0) i) % 256
undelta-eq-running_sum p [] i h = absurd (omega arith)
undelta-eq-running_sum p (d ∷ ds) zero h = unfold undelta running_sum in refl
undelta-eq-running_sum p (d ∷ ds) (suc i) h =
    step (undelta-eq-running_sum (add_u8 p d) ds i (omega arith))
  where
    step :
        get_or (undelta (add_u8 p d) ds) i 0
          ≡ (add_u8 p d + running_sum (λ j. get_or ds j 0) i) % 256
        → get_or (undelta p (d ∷ ds)) (suc i) 0
          ≡ (p + running_sum (λ j. get_or (d ∷ ds) j 0) (suc i)) % 256
    step e = unfold undelta in omega (arith, e, running_sum-shift (λ j. get_or (d ∷ ds) j 0) i)

last_or-get_or : (p n : ℕ) (xs : List ℕ) → length xs ≡ suc n → last_or p xs ≡ get_or xs n 0
unfolding last_or
last_or-get_or p n [] h = absurd (omega arith)
last_or-get_or p zero (x ∷ []) h = refl
last_or-get_or p zero (x ∷ y ∷ xs) h = absurd (omega arith)
last_or-get_or p (suc n) (x ∷ xs) h = last_or-get_or x n xs (omega arith)

join_lists-tabulate :
    (n : ℕ) (as' bs cs ds : List ℕ)
    → length as' ≡ n
    → length bs ≡ n
    → length cs ≡ n
    → length ds ≡ n
    → join_lists as' bs cs ds
      ≡ tabulate n
          (λ i. join_pixel (get_or as' i 0) (get_or bs i 0) (get_or cs i 0) (get_or ds i 0))
unfolding join_lists tabulate
join_lists-tabulate zero [] bs cs ds p q r s = refl
join_lists-tabulate (suc n) (a ∷ as') (b ∷ bs) (c ∷ cs) (d ∷ ds) p q r s =
    ap (λ ys. join_pixel a b c d ∷ ys)
      (join_lists-tabulate n as' bs cs ds (omega arith) (omega arith) (omega arith) (omega arith))
join_lists-tabulate zero (a ∷ as') bs cs ds p q r s = absurd (omega arith)
join_lists-tabulate (suc n) [] bs cs ds p q r s = absurd (omega arith)
join_lists-tabulate (suc n) (a ∷ as') [] cs ds p q r s = absurd (omega arith)
join_lists-tabulate (suc n) (a ∷ as') (b ∷ bs) [] ds p q r s = absurd (omega arith)
join_lists-tabulate (suc n) (a ∷ as') (b ∷ bs) (c ∷ cs) [] p q r s = absurd (omega arith)

-- One channel.
module _ (ds : List ℕ) (prev : Lanes ℕ) (p : ℕ) (same : (k : ℕ) → prev k ≡ p)
    (full : length ds ≡ 32) where
  channel_in : (i : ℕ) → i < 32 → (prefix_sum (load_m256i ds) prev).0 i ≡ get_or (undelta p ds) i 0
  unfolding load_m256i
  channel_in i h =
      prefix_sum-eq-running_sum (load_m256i ds) prev p i same h
      ∙ sym (undelta-eq-running_sum p ds i (omega arith))

  channel_carry : (k : ℕ) → (prefix_sum (load_m256i ds) prev).1 k ≡ last_or p (undelta p ds)
  unfolding load_m256i
  channel_carry k =
      prefix_sum-carry (load_m256i ds) prev p k same
      ∙ sym (undelta-eq-running_sum p ds 31 (omega arith))
      ∙ sym (last_or-get_or p 31 (undelta p ds) (length-undelta p ds ∙ full))

abbrev pub Carries : Quad (Lanes ℕ) → Quad ℕ → Type 0
Carries prev p =
    ((k : ℕ) → prev.q0 k ≡ p.q0)
    × ((k : ℕ) → prev.q1 k ≡ p.q1)
    × ((k : ℕ) → prev.q2 k ≡ p.q2)
    × ((k : ℕ) → prev.q3 k ≡ p.q3)

abbrev pub HasLength : ℕ → Quad (List ℕ) → Type 0
HasLength n q = (length q.q0 ≡ n) × (length q.q1 ≡ n) × (length q.q2 ≡ n) × (length q.q3 ≡ n)

module _ (input : Quad (List ℕ)) (prev : Quad (Lanes ℕ)) (p : Quad ℕ) (c : Carries prev p)
    (full : HasLength 32 input) where
  -- The pixels that `soa_to_aos_u8_32x4` writes for four planes of 32 bytes are those of the
  -- planes summed up from the bytes carried in, when each register carried in holds its byte in
  -- every lane.
  pub soa_to_aos_u8_32x4_out : (soa_to_aos_u8_32x4 input prev).0 ≡ join (zip_quad undelta p input)
  unfolding soa_to_aos_u8_32x4
  soa_to_aos_u8_32x4_out =
      store_channels_lem _
      ∙ tabulate_ext 32 _ _ (λ i h. pixel i h)
      ∙ sym (
          join_lists-tabulate 32 _ _ _ _ (length-undelta _ _ ∙ full.0) (length-undelta _ _ ∙ full.1)
            (length-undelta _ _ ∙ full.2) (length-undelta _ _ ∙ full.3))
    where
      join_path :
          {a a' b b' c c' d d' : ℕ}
          → a ≡ a'
          → b ≡ b'
          → c ≡ c'
          → d ≡ d'
          → join_pixel a b c d ≡ join_pixel a' b' c' d'
      join_path u v w x = λ i. join_pixel (u i) (v i) (w i) (x i)

      pixel :
          (i : ℕ)
          → i < 32
          → join_pixel
              ((prefix_sum (load_m256i input.q0) prev.q0).0 i)
              ((prefix_sum (load_m256i input.q1) prev.q1).0 i)
              ((prefix_sum (load_m256i input.q2) prev.q2).0 i)
              ((prefix_sum (load_m256i input.q3) prev.q3).0 i)
            ≡ join_pixel
                (get_or (undelta p.q0 input.q0) i 0)
                (get_or (undelta p.q1 input.q1) i 0)
                (get_or (undelta p.q2 input.q2) i 0)
                (get_or (undelta p.q3 input.q3) i 0)
      pixel i h =
          join_path (channel_in input.q0 prev.q0 p.q0 c.0 full.0 i h)
            (channel_in input.q1 prev.q1 p.q1 c.1 full.1 i h)
            (channel_in input.q2 prev.q2 p.q2 c.2 full.2 i h)
            (channel_in input.q3 prev.q3 p.q3 c.3 full.3 i h)

  -- The registers that `soa_to_aos_u8_32x4` returns hold in every lane the last byte of each
  -- plane summed up, when the planes have 32 bytes and each register carried in holds its byte in
  -- every lane.
  pub soa_to_aos_u8_32x4_carry :
      Carries (soa_to_aos_u8_32x4 input prev).1 (zip_quad last_or p (zip_quad undelta p input))
  unfolding soa_to_aos_u8_32x4
  soa_to_aos_u8_32x4_carry = (
    channel_carry input.q0 prev.q0 p.q0 c.0 full.0,
    channel_carry input.q1 prev.q1 p.q1 c.1 full.1,
    channel_carry input.q2 prev.q2 p.q2 c.2 full.2,
    channel_carry input.q3 prev.q3 p.q3 c.3 full.3,
  )
