-- ===== src/Base/Fallible.antt =====
-- Code that may panic, or fail with no information in the error, as `Option`.
use mathlib.Core.Path.{◌≡◌, refl}
use mathlib.Core.Bool.{Bool, true, false}
use mathlib.Core.Option.{Option, none, some}
use mathlib.Core.List.{List, [], ◌∷◌, map}
use Prim.Native.Nat.{ℕ, zero, suc, ◌<◌}
use native.Mathlib.Omega.{arith}
use wprs.Base.Lists.{All, tabulate}

infixl 5 ◌>>=◌ ◌>>◌
abbrev pub ◌>>=◌ {ℓ κ} : {A : Type ℓ} {B : Type κ} → Option A → (A → Option B) → Option B
none >>= f = none
some a >>= f = f a

abbrev pub ◌>>◌ {ℓ} : {B : Type ℓ} → Option (Unit {0}) → Option B → Option B
m >> k = m >>= λ _. k

-- `assert!`
abbrev pub guard : Bool → Option (Unit {0})
guard true = some tt
guard false = none

-- All the values, if there is no `none`.
abbrev pub all_some {ℓ} : {A : Type ℓ} → List (Option A) → Option (List A)
all_some [] = some []
all_some (x ∷ xs) = x >>= λ a. all_some xs >>= λ as'. some (a ∷ as')

pub all_some-map {ℓ} :
    {A B : Type ℓ} (f : A → Option B) (g : A → B) (xs : List A)
    → All (λ x. f x ≡ some (g x)) xs
    → all_some (map f xs) ≡ some (map g xs)
all_some-map f g [] h = refl
all_some-map f g (x ∷ xs) h = rw (h.0, all_some-map f g xs h.1)

pub all_some-tabulate {ℓ} :
    {A : Type ℓ} (n : ℕ) (f : ℕ → Option A) (g : ℕ → A)
    → ((i : ℕ) → i < n → f i ≡ some (g i))
    → all_some (tabulate n f) ≡ some (tabulate n g)
unfolding tabulate
all_some-tabulate zero f g h = refl
all_some-tabulate (suc n) f g h = rw (
  h 0 (omega arith),
  all_some-tabulate n (λ i. f (suc i)) (λ i. g (suc i)) (λ i b. h (suc i) (omega arith)),
)
