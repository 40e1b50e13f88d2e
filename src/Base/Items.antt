-- ===== src/Base/Items.antt =====
-- Single items of a list: replaced, removed, inserted and found, as `Vec` does.
use Prim.Native.Nat.{ℕ, zero, suc}
use mathlib.Core.Path.{◌≡◌, refl, ap}
use mathlib.Core.Bool.{Bool, true, false}
use mathlib.Core.Option.{Option, none, some}
use mathlib.Core.List.{List, [], ◌∷◌, ◌++◌}
use wprs.Base.Tests.{if◌then◌else◌}
use wprs.Base.Lists.{length, get_elem?}

module _ {ℓ} {A : Type ℓ} where
  abbrev pub set_elem : List A → ℕ → A → List A
  set_elem [] i y = []
  set_elem (x ∷ xs) zero y = y ∷ xs
  set_elem (x ∷ xs) (suc i) y = x ∷ set_elem xs i y

  -- Vec::remove, for the items that are left.
  abbrev pub remove : ℕ → List A → List A
  remove i [] = []
  remove zero (x ∷ xs) = xs
  remove (suc i) (x ∷ xs) = x ∷ remove i xs

  -- Vec::insert
  abbrev pub insert_at : ℕ → A → List A → List A
  insert_at zero y xs = y ∷ xs
  insert_at (suc i) y [] = y ∷ []
  insert_at (suc i) y (x ∷ xs) = x ∷ insert_at i y xs

  abbrev pub filter : (A → Bool) → List A → List A
  filter p [] = []
  filter p (x ∷ xs) = let rest = filter p xs in if p x then x ∷ rest else rest

  -- slice::reverse
  abbrev pub reverse : List A → List A
  reverse [] = []
  reverse (x ∷ xs) = reverse xs ++ x ∷ []

  -- Iter::position
  abbrev pub position : (A → Bool) → List A → Option ℕ
  position p [] = none
  position p (x ∷ xs) = let rest = position p xs in if p x then some 0 else next rest
    where
      next : Option ℕ → Option ℕ
      next none = none
      next (some i) = some (suc i)

  -- Iter::any
  abbrev pub any : (A → Bool) → List A → Bool
  any p [] = false
  any p (x ∷ xs) = let rest = any p xs in if p x then true else rest

  pub get_elem?-append :
      (xs : List A) (y : A) (ys : List A) → get_elem? (xs ++ y ∷ ys) (length xs) ≡ some y
  get_elem?-append [] y ys = refl
  get_elem?-append (x ∷ xs) y ys = get_elem?-append xs y ys

  pub set_elem-append :
      (xs : List A) (y z : A) (ys : List A) → set_elem (xs ++ y ∷ ys) (length xs) z ≡ xs ++ z ∷ ys
  set_elem-append [] y z ys = refl
  set_elem-append (x ∷ xs) y z ys = ap (λ l. x ∷ l) (set_elem-append xs y z ys)

  pub insert_at-append :
      (xs : List A) (y : A) (ys : List A) → insert_at (length xs) y (xs ++ ys) ≡ xs ++ y ∷ ys
  insert_at-append [] y ys = refl
  insert_at-append (x ∷ xs) y ys = ap (λ l. x ∷ l) (insert_at-append xs y ys)
