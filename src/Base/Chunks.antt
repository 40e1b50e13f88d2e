-- ===== src/Base/Chunks.antt =====
-- `chunks` and `as_chunks` of the standard library's slices.
pub mod Laws
use wprs.Base.{
  ℕ, zero, suc, ◌+◌, ◌-◌, ◌≤◌, ◌<◌, ◌≡◌, refl, ap, arith, List, [], ◌∷◌, ◌++◌, length, take, drop,
  ltb, if◌then◌else◌, take-append-drop, length-drop, lt→ltb, ltb-false, Bool-cases, inl, inr,
}

module _ {ℓ} {A : Type ℓ} where
  chunks_fuel : ℕ → ℕ → List A → List (List A)
  chunks_fuel zero n xs = []
  chunks_fuel (suc fuel) n [] = []
  chunks_fuel (suc fuel) n (x ∷ xs) = take n (x ∷ xs) ∷ chunks_fuel fuel n (drop n (x ∷ xs))

  -- [T]::chunks for a positive size; the last chunk may be shorter.
  unfoldable pub slice_chunks : ℕ → List A → List (List A)
  unfolding chunks_fuel
  slice_chunks n xs = chunks_fuel (length xs) n xs

  chunks_fuel-enough :
      (f g n : ℕ) (xs : List A)
      → 0 < n
      → length xs ≤ f
      → length xs ≤ g
      → chunks_fuel f n xs ≡ chunks_fuel g n xs
  unfolding chunks_fuel
  chunks_fuel-enough zero zero n [] h p q = refl
  chunks_fuel-enough zero (suc g) n [] h p q = refl
  chunks_fuel-enough (suc f) zero n [] h p q = refl
  chunks_fuel-enough (suc f) (suc g) n [] h p q = refl
  chunks_fuel-enough zero g n (x ∷ xs) h p q = absurd (omega arith)
  chunks_fuel-enough (suc f) zero n (x ∷ xs) h p q = absurd (omega arith)
  chunks_fuel-enough (suc f) (suc g) n (x ∷ xs) h p q =
      ap (λ r. take n (x ∷ xs) ∷ r)
        (chunks_fuel-enough f g n (drop n (x ∷ xs)) h (omega (arith, length-drop n (x ∷ xs)))
          (omega (arith, length-drop n (x ∷ xs))))

  -- The equation by which `slice_chunks` is used.
  pub slice_chunks-step :
      (n : ℕ) (xs : List A)
      → 0 < n
      → 0 < length xs
      → slice_chunks n xs ≡ take n xs ∷ slice_chunks n (drop n xs)
  unfolding slice_chunks
  slice_chunks-step n [] h p = absurd (omega arith)
  slice_chunks-step n (x ∷ xs) h p =
      ap (λ r. take n (x ∷ xs) ∷ r)
        (chunks_fuel-enough (length xs) (length (drop n (x ∷ xs))) n (drop n (x ∷ xs)) h
          (omega (arith, length-drop n (x ∷ xs))) (omega arith))

  pub slice_chunks-nil : (n : ℕ) (xs : List A) → length xs ≡ 0 → slice_chunks n xs ≡ []
  unfolding slice_chunks
  slice_chunks-nil n [] h = refl
  slice_chunks-nil n (x ∷ xs) h = absurd (omega arith)

  exact_fuel : ℕ → ℕ → List A → List (List A)
  exact_fuel zero n xs = []
  exact_fuel (suc fuel) n xs =
      let rest = exact_fuel fuel n (drop n xs) in if ltb (length xs) n then [] else take n xs ∷ rest

  -- `as_chunks::<n>().0`: the whole chunks of a positive size.
  unfoldable pub exact_chunks : ℕ → List A → List (List A)
  unfolding exact_fuel
  exact_chunks n xs = exact_fuel (length xs) n xs

  exact_fuel-enough :
      (f g n : ℕ) (xs : List A)
      → 0 < n
      → length xs ≤ f
      → length xs ≤ g
      → exact_fuel f n xs ≡ exact_fuel g n xs
  unfolding exact_fuel
  exact_fuel-enough zero zero n xs h p q = refl
  exact_fuel-enough zero (suc g) n xs h p q = rw (lt→ltb (length xs) n (omega arith))
  exact_fuel-enough (suc f) zero n xs h p q = rw (lt→ltb (length xs) n (omega arith))
  exact_fuel-enough (suc f) (suc g) n xs h p q = elim (Bool-cases (ltb (length xs) n)) [
    | inl short ↦ rw short
    | inr full ↦ rw full (
        ap (λ r. take n xs ∷ r)
          (exact_fuel-enough f g n (drop n xs) h (ground (arith, length-drop n xs))
            (ground (arith, length-drop n xs))))
  ]

  pub exact_chunks-step :
      (n : ℕ) (xs : List A)
      → 0 < n
      → n ≤ length xs
      → exact_chunks n xs ≡ take n xs ∷ exact_chunks n (drop n xs)
  unfolding exact_chunks
  exact_chunks-step n [] h p = absurd (omega arith)
  exact_chunks-step n (x ∷ xs) h p = rw (ltb-false (length (x ∷ xs)) n p) (
      ap (λ r. take n (x ∷ xs) ∷ r)
        (exact_fuel-enough (length xs) (length (drop n (x ∷ xs))) n (drop n (x ∷ xs)) h
          (omega (arith, length-drop n (x ∷ xs))) (omega arith)))

  pub exact_chunks-short : (n : ℕ) (xs : List A) → length xs < n → exact_chunks n xs ≡ []
  unfolding exact_chunks
  exact_chunks-short n [] h = refl
  exact_chunks-short n (x ∷ xs) h = rw (lt→ltb (length (x ∷ xs)) n h)
