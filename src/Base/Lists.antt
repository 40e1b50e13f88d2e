-- ===== src/Base/Lists.antt =====
-- Lists measured and indexed by native numbers, under the library's names.
use Prim.Native.Nat.{ℕ, zero, suc, ◌+◌, ◌-◌, ◌<◌, ◌≤◌, min}
use mathlib.Core.Path.{◌≡◌, refl, ap, ap₂, ◌∙◌}
use mathlib.Core.List.{List, [], ◌∷◌, ◌++◌, map, flatten}
use mathlib.Core.Option.{Option, none, some}
use native.Mathlib.Omega.{arith}

module _ {ℓ} {A : Type ℓ} where
  abbrev pub length : List A → ℕ
  length [] = 0
  length (x ∷ xs) = suc (length xs)

  abbrev pub get_elem? : List A → ℕ → Option A
  get_elem? [] i = none
  get_elem? (x ∷ xs) zero = some x
  get_elem? (x ∷ xs) (suc i) = get_elem? xs i

  abbrev pub get_or : List A → ℕ → A → A
  get_or [] i d = d
  get_or (x ∷ xs) zero d = x
  get_or (x ∷ xs) (suc i) d = get_or xs i d

  abbrev pub take : ℕ → List A → List A
  take zero xs = []
  take (suc n) [] = []
  take (suc n) (x ∷ xs) = x ∷ take n xs

  abbrev pub drop : ℕ → List A → List A
  drop zero xs = xs
  drop (suc n) [] = []
  drop (suc n) (x ∷ xs) = drop n xs

  abbrev pub replicate : ℕ → A → List A
  replicate zero a = []
  replicate (suc n) a = a ∷ replicate n a

  -- `f 0 ∷ f 1 ∷ … ∷ f (n - 1) ∷ []`
  unfoldable pub tabulate : ℕ → (ℕ → A) → List A
  tabulate zero f = []
  tabulate (suc n) f = f 0 ∷ tabulate n (λ i. f (suc i))

  pub tabulate-suc : (n : ℕ) (f : ℕ → A) → tabulate (suc n) f ≡ f 0 ∷ tabulate n (λ i. f (suc i))
  unfolding tabulate
  tabulate-suc n f = refl

  pub length-append : (xs ys : List A) → length (xs ++ ys) ≡ length xs + length ys
  length-append [] ys = omega arith
  length-append (x ∷ xs) ys = omega (arith, length-append xs ys)

  pub take-append-drop : (n : ℕ) (xs : List A) → take n xs ++ drop n xs ≡ xs
  take-append-drop zero xs = refl
  take-append-drop (suc n) [] = refl
  take-append-drop (suc n) (x ∷ xs) = rw (take-append-drop n xs)

  pub length-take : (n : ℕ) (xs : List A) → length (take n xs) ≡ min n (length xs)
  length-take zero xs = omega arith
  length-take (suc n) [] = omega arith
  length-take (suc n) (x ∷ xs) = omega (arith, length-take n xs)

  pub length-drop : (n : ℕ) (xs : List A) → length (drop n xs) ≡ length xs - n
  length-drop zero xs = omega arith
  length-drop (suc n) [] = omega arith
  length-drop (suc n) (x ∷ xs) = omega (arith, length-drop n xs)

  pub length-replicate : (n : ℕ) (a : A) → length (replicate n a) ≡ n
  length-replicate zero a = refl
  length-replicate (suc n) a = ap suc (length-replicate n a)

  pub length-tabulate : (n : ℕ) (f : ℕ → A) → length (tabulate n f) ≡ n
  unfolding tabulate
  length-tabulate zero f = refl
  length-tabulate (suc n) f = ap suc (length-tabulate n (λ i. f (suc i)))

  -- Tables that agree agree at each place, and the other way round.
  pub tabulate-apply :
      (n : ℕ) (f g : ℕ → A) → tabulate n f ≡ tabulate n g → (i : ℕ) → i < n → f i ≡ g i
  unfolding tabulate
  tabulate-apply zero f g e i h = absurd (omega arith)
  tabulate-apply (suc n) f g e zero h = cc
  tabulate-apply (suc n) f g e (suc i) h =
      tabulate-apply n (λ j. f (suc j)) (λ j. g (suc j)) (ap (drop 1) e) i (omega arith)

  pub tabulate_ext :
      (n : ℕ) (f g : ℕ → A) → ((i : ℕ) → i < n → f i ≡ g i) → tabulate n f ≡ tabulate n g
  unfolding tabulate
  tabulate_ext zero f g h = refl
  tabulate_ext (suc n) f g h =
      ap₂ ◌∷◌ (h 0 (omega arith))
        (tabulate_ext n (λ i. f (suc i)) (λ i. g (suc i)) (λ i b. h (suc i) (omega arith)))

  pub tabulate-get_or : (d : A) (xs : List A) → tabulate (length xs) (λ i. get_or xs i d) ≡ xs
  unfolding tabulate
  tabulate-get_or d [] = refl
  tabulate-get_or d (x ∷ xs) = ap (λ ys. x ∷ ys) (tabulate-get_or d xs)

  pub get_or-tabulate :
      (n : ℕ) (f : ℕ → A) (d : A) (i : ℕ) → i < n → get_or (tabulate n f) i d ≡ f i
  unfolding tabulate
  get_or-tabulate zero f d i h = absurd (omega arith)
  get_or-tabulate (suc n) f d zero h = refl
  get_or-tabulate (suc n) f d (suc i) h = get_or-tabulate n (λ j. f (suc j)) d i (omega arith)

module _ {ℓ} {A : Type ℓ} where
  pub take-tabulate : (k n : ℕ) (f : ℕ → A) → k ≤ n → take k (tabulate n f) ≡ tabulate k f
  unfolding tabulate
  take-tabulate zero n f h = refl
  take-tabulate (suc k) zero f h = absurd (omega arith)
  take-tabulate (suc k) (suc n) f h =
      ap (λ ys. f 0 ∷ ys) (take-tabulate k n (λ i. f (suc i)) (omega arith))

  pub drop-tabulate :
      (k n : ℕ) (f : ℕ → A) → drop k (tabulate n f) ≡ tabulate (n - k) (λ i. f (k + i))
  unfolding tabulate
  drop-tabulate zero n f =
      tabulate_ext n f (λ i. f (0 + i)) (λ i h. ap f (omega arith))
      ∙ ap (λ k. tabulate k (λ i. f (0 + i))) (let e : n ≡ n - 0 = omega arith in e)
  drop-tabulate (suc k) zero f =
      ap (λ j. tabulate j (λ i. f (suc k + i))) (let e : 0 ≡ 0 - suc k = omega arith in e)
  drop-tabulate (suc k) (suc n) f =
      drop-tabulate k n (λ i. f (suc i))
      ∙ tabulate_ext (n - k) (λ i. f (suc (k + i))) (λ i. f (suc k + i)) (λ i h. ap f (omega arith))
      ∙ ap (λ j. tabulate j (λ i. f (suc k + i))) (let e : n - k ≡ suc n - suc k = omega arith in e)

  pub tabulate-add :
      (m n : ℕ) (f : ℕ → A) → tabulate (m + n) f ≡ tabulate m f ++ tabulate n (λ i. f (m + i))
  unfolding tabulate
  tabulate-add zero n f =
      ap (λ k. tabulate k f) (let e : 0 + n ≡ n = omega arith in e)
      ∙ tabulate_ext n f (λ i. f (0 + i)) (λ i h. ap f (omega arith))
  tabulate-add (suc m) n f =
      ap (λ k. tabulate k f) (let e : suc m + n ≡ suc (m + n) = omega arith in e)
      ∙ ap (λ ys. f 0 ∷ ys)
          (tabulate-add m n (λ i. f (suc i))
            ∙ ap (λ ys. tabulate m (λ i. f (suc i)) ++ ys)
                (tabulate_ext n (λ i. f (suc (m + i))) (λ i. f (suc m + i))
                  (λ i h. ap f (omega arith))))

-- A predicate on every item.
abbrev pub All {ℓ κ} : {A : Type ℓ} → (A → Type κ) → List A → Type κ
All P [] = Unit
All P (x ∷ xs) = P x × All P xs

module _ {ℓ} {A : Type ℓ} where
  pub take-min : (n : ℕ) (xs : List A) → take (min (length xs) n) xs ≡ take n xs
  take-min zero xs = ap (λ k. take k xs) (let e : min (length xs) 0 ≡ 0 = omega arith in e)
  take-min (suc n) [] = ap (λ k. take k []) (let e : min 0 (suc n) ≡ 0 = omega arith in e)
  take-min (suc n) (x ∷ xs) =
      ap (λ k. take k (x ∷ xs))
        (let e : min (suc (length xs)) (suc n) ≡ suc (min (length xs) n) = omega arith in e)
      ∙ ap (λ ys. x ∷ ys) (take-min n xs)

  pub drop-min : (n : ℕ) (xs : List A) → drop (min (length xs) n) xs ≡ drop n xs
  drop-min zero xs = ap (λ k. drop k xs) (let e : min (length xs) 0 ≡ 0 = omega arith in e)
  drop-min (suc n) [] = ap (λ k. drop k []) (let e : min 0 (suc n) ≡ 0 = omega arith in e)
  drop-min (suc n) (x ∷ xs) =
      ap (λ k. drop k (x ∷ xs))
        (let e : min (suc (length xs)) (suc n) ≡ suc (min (length xs) n) = omega arith in e)
      ∙ drop-min n xs

pub map-tabulate {ℓ κ} :
    {A : Type ℓ} {B : Type κ} (g : A → B) (n : ℕ) (f : ℕ → A)
    → map g (tabulate n f) ≡ tabulate n (λ i. g (f i))
unfolding tabulate
map-tabulate g zero f = refl
map-tabulate g (suc n) f = ap (λ ys. g (f 0) ∷ ys) (map-tabulate g n (λ i. f (suc i)))

pub All-tabulate {ℓ κ} :
    {A : Type ℓ} (P : A → Type κ) (n : ℕ) (f : ℕ → A)
    → ((i : ℕ) → i < n → P (f i))
    → All P (tabulate n f)
unfolding tabulate
All-tabulate P zero f h = tt
All-tabulate P (suc n) f h =
    (h 0 (omega arith), All-tabulate P n (λ i. f (suc i)) (λ i b. h (suc i) (omega arith)))

pub flatten-cons {ℓ} :
    {A : Type ℓ} (xs : List A) (xss : List (List A)) → flatten (xs ∷ xss) ≡ xs ++ flatten xss
unfolding flatten
flatten-cons xs xss = refl

pub All-map {ℓ κ μ} :
    {A : Type ℓ} {B : Type κ} (P : B → Type μ) (f : A → B) (xs : List A)
    → All P (map f xs)
    → All (λ x. P (f x)) xs
All-map P f [] h = tt
All-map P f (x ∷ xs) h = (h.0, All-map P f xs h.1)

pub length-map {ℓ κ} :
    {A : Type ℓ} {B : Type κ} (f : A → B) (xs : List A) → length (map f xs) ≡ length xs
length-map f [] = refl
length-map f (x ∷ xs) = ap suc (length-map f xs)

pub take-all {ℓ} : {A : Type ℓ} (n : ℕ) (xs : List A) → length xs ≤ n → take n xs ≡ xs
take-all zero [] h = refl
take-all zero (x ∷ xs) h = absurd (omega arith)
take-all (suc n) [] h = refl
take-all (suc n) (x ∷ xs) h = ap (λ ys. x ∷ ys) (take-all n xs (omega arith))
