-- ===== src/Client/Told.antt =====
-- src/client: what the local compositor was last told, from all that it was asked.
use wprs.Base.{Option, none, some, List, [], ◌∷◌, ◌++◌, ◌≡◌, refl, ◌∙◌}
use wprs.Client.{Asked}

module _ {A : Type 0} (says : Asked → Option A) where
  abbrev pub or_before : Option A → A → A
  or_before none a = a
  or_before (some a) b = a

  -- The last thing that was said, or what held before.
  abbrev pub last_told : A → List Asked → A
  last_told a [] = a
  last_told a (x ∷ xs) = last_told (or_before (says x) a) xs

  pub last_told-append :
      (a : A) (xs : List Asked) (x : Asked)
      → last_told a (xs ++ x ∷ []) ≡ or_before (says x) (last_told a xs)
  last_told-append a [] x = refl
  last_told-append a (y ∷ xs) x = last_told-append (or_before (says y) a) xs x

  -- What says nothing of it does not change it.
  pub last_told-silent :
      (a : A) (xs : List Asked) (x : Asked) {b : A}
      → says x ≡ none
      → last_told a xs ≡ b
      → last_told a (xs ++ x ∷ []) ≡ b
  last_told-silent a xs x silent told = last_told-append a xs x ∙ (rw silent told)
