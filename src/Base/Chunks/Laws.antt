-- ===== src/Base/Chunks/Laws.antt =====
-- The laws of the chunks of a list.
use mathlib.Core.List.{flatten}
use native.Mathlib.Nat.{le_refl}
use wprs.Base.{
  ℕ, zero, suc, ◌+◌, ◌*◌, ◌%◌, ◌≤◌, ◌<◌, ◌≡◌, refl, ap, ◌∙◌, arith, List, [], ◌∷◌, ◌++◌, length,
  take, drop, take-append-drop, length-take, length-drop, length-append, take-append, drop-append,
  take-all, All, dec_lt, ap₂,
}
use wprs.Base.Chunks.{
  slice_chunks, slice_chunks-nil, slice_chunks-step, exact_chunks, exact_chunks-short,
  exact_chunks-step,
}

-- What holds of every chunk, by induction on a bound for the length.
module _ {ℓ} {A : Type ℓ} (n : ℕ) (pos : 0 < n) where
  slice_chunks_induction {κ} :
      (P : List A → List (List A) → Type κ)
      → ((xs : List A) → length xs ≡ 0 → P xs [])
      → ((xs : List A) (cs : List (List A))
          → 0 < length xs
          → P (drop n xs) cs
          → P xs (take n xs ∷ cs))
      → (bound : ℕ) (xs : List A) → length xs ≤ bound
      → P xs (slice_chunks n xs)
  slice_chunks_induction P none_left more zero xs h =
      rw (slice_chunks-nil n xs (omega arith)) (none_left xs (omega arith))
  slice_chunks_induction P none_left more (suc bound) xs h = elim (dec_lt 0 (length xs)) [
    | no done ↦ rw (slice_chunks-nil n xs (omega arith)) (none_left xs (omega arith))
    | yes some_left ↦ rw (slice_chunks-step n xs pos some_left) (
        more xs _ some_left (
          slice_chunks_induction P none_left more bound (drop n xs)
            (omega (arith, length-drop n xs))))
  ]

  -- The chunks are the list, cut up.
  pub flatten-slice_chunks : (xs : List A) → flatten (slice_chunks n xs) ≡ xs
  unfolding flatten
  flatten-slice_chunks xs =
      slice_chunks_induction (λ ys cs. flatten cs ≡ ys) nothing
        (λ ys cs h ih. ap (λ r. take n ys ++ r) ih ∙ take-append-drop n ys) (length xs) xs
        (le_refl _)
    where
      nothing : (ys : List A) → length ys ≡ 0 → flatten [] ≡ ys
      nothing [] h = refl
      nothing (y ∷ ys) h = absurd (omega arith)

  -- No chunk is empty or longer than asked for.
  pub slice_chunks-bounds :
      (xs : List A) → All (λ c. (0 < length c) × (length c ≤ n)) (slice_chunks n xs)
  slice_chunks-bounds xs =
      slice_chunks_induction (λ ys cs. All (λ c. (0 < length c) × (length c ≤ n)) cs) (λ ys h. tt)
        (λ ys cs h ih. ((omega (arith, length-take n ys), omega (arith, length-take n ys)), ih))
        (length xs) xs (le_refl _)

  -- A common divisor of the size and of the length divides every chunk.
  pub slice_chunks-mod_32 :
      (xs : List A)
      → n % 32 ≡ 0
      → length xs % 32 ≡ 0
      → All (λ c. length c % 32 ≡ 0) (slice_chunks n xs)
  slice_chunks-mod_32 xs dn =
      slice_chunks_induction (λ ys cs. length ys % 32 ≡ 0 → All (λ c. length c % 32 ≡ 0) cs)
        (λ ys h d. tt)
        (λ ys cs h ih d. (omega (arith, length-take n ys), ih (omega (arith, length-drop n ys))))
        (length xs) xs (le_refl _)

  exact_chunks_induction {κ} :
      (P : List A → List (List A) → Type κ)
      → ((xs : List A) → length xs < n → P xs [])
      → ((xs : List A) (cs : List (List A))
          → n ≤ length xs
          → P (drop n xs) cs
          → P xs (take n xs ∷ cs))
      → (bound : ℕ) (xs : List A) → length xs ≤ bound
      → P xs (exact_chunks n xs)
  exact_chunks_induction P short full zero xs h =
      rw (exact_chunks-short n xs (omega arith)) (short xs (omega arith))
  exact_chunks_induction P short full (suc bound) xs h = elim (dec_lt (length xs) n) [
    | yes s ↦ rw (exact_chunks-short n xs s) (short xs s)
    | no f ↦ rw (exact_chunks-step n xs pos (omega arith)) (
        full xs _ (omega arith)
          (exact_chunks_induction P short full bound (drop n xs) (omega (arith, length-drop n xs))))
  ]

  -- The whole chunks take up less than the list by less than one chunk.
  pub length-exact_chunks :
      (xs : List A)
      → (length (exact_chunks n xs) * n ≤ length xs)
        × (length xs < length (exact_chunks n xs) * n + n)
  length-exact_chunks xs =
      exact_chunks_induction
        (λ ys cs. (length cs * n ≤ length ys) × (length ys < length cs * n + n))
        (λ ys h. (omega arith, omega arith))
        (λ ys cs h ih.
          (grind (arith, length-drop n ys, ih.0), grind (arith, length-drop n ys, ih.1)))
        (length xs) xs (le_refl _)

-- A list of whole chunks is the list of its whole chunks.
pub flatten-exact_chunks {ℓ} :
    {A : Type ℓ} (xs : List A) → length xs % 32 ≡ 0 → flatten (exact_chunks 32 xs) ≡ xs
unfolding flatten
flatten-exact_chunks {A} xs =
    exact_chunks_induction 32 (omega arith) (λ ys cs. length ys % 32 ≡ 0 → flatten cs ≡ ys) short
      (λ ys cs h ih d.
        ap (λ r. take 32 ys ++ r) (ih (omega (arith, length-drop 32 ys))) ∙ take-append-drop 32 ys)
      (length xs) xs (le_refl _)
  where
    short : (ys : List A) → length ys < 32 → length ys % 32 ≡ 0 → flatten [] ≡ ys
    short [] h d = refl
    short (y ∷ ys) h d = absurd (omega arith)

module _ {ℓ} {A : Type ℓ} (n : ℕ) (pos : 0 < n) (xs ys : List A) where
  -- A first part of the right length is the first chunk.
  pub slice_chunks-append : length xs ≡ n → slice_chunks n (xs ++ ys) ≡ xs ∷ slice_chunks n ys
  slice_chunks-append h =
      slice_chunks-step n (xs ++ ys) pos (omega (arith, length-append xs ys))
      ∙ ap₂ (λ c r. c ∷ slice_chunks n r) (take-append n xs ys h) (drop-append n xs ys h)

  pub exact_chunks-append : length xs ≡ n → exact_chunks n (xs ++ ys) ≡ xs ∷ exact_chunks n ys
  exact_chunks-append h =
      exact_chunks-step n (xs ++ ys) pos (omega (arith, length-append xs ys))
      ∙ ap₂ (λ c r. c ∷ exact_chunks n r) (take-append n xs ys h) (drop-append n xs ys h)

-- A list that fits is one chunk.
pub slice_chunks-one {ℓ} :
    {A : Type ℓ} (n : ℕ) (xs : List A) → 0 < length xs → length xs ≤ n → slice_chunks n xs ≡ xs ∷ []
slice_chunks-one n xs pos h =
    slice_chunks-step n xs (omega arith) pos
    ∙ ap₂ (λ c r. c ∷ r) (take-all n xs h)
        (slice_chunks-nil n (drop n xs) (omega (arith, length-drop n xs)))
