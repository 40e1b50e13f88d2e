-- ===== src/Client/Stacking/Ids.antt =====
-- src/client/mod.rs: the ids in lists of children.
use wprs.Base.{
  ℕ, Bool, true, false, List, [], ◌∷◌, ◌++◌, ◌==◌, ◌≡◌, refl, sym, ◌∙◌, arith, if◌then◌else◌,
  filter, reverse, Bool-cases, inl, inr, ◌⊎◌,
}
use wprs.Wayland.{SubsurfacePosition}
use wprs.Client.Stacking.{contains}

-- The children without the first one with this id.
abbrev pub without : ℕ → List SubsurfacePosition → List SubsurfacePosition
without id [] = []
without id (c ∷ cs) = let rest = without id cs in if c.id == id then cs else c ∷ rest

-- No id is listed twice.
abbrev pub IsDistinct : List SubsurfacePosition → Type 0
IsDistinct [] = Unit
IsDistinct (c ∷ cs) = (contains c.id cs ≡ false) × IsDistinct cs

pub ==-sym : (a b : ℕ) → (a == b) ≡ (b == a)
==-sym a b = ground arith

pub ==-apart : (x id c : ℕ) → (x == id) ≡ false → (c == id) ≡ true → (c == x) ≡ false
==-apart x id c d e = ground arith

pub contains-nil : (x : ℕ) → contains x [] ≡ false
unfolding contains
contains-nil x = refl

pub contains-cons :
    (x : ℕ) (c : SubsurfacePosition) (cs : List SubsurfacePosition)
    → contains x (c ∷ cs) ≡ (if c.id == x then true else contains x cs)
unfolding contains
contains-cons x c cs = refl

pub contains-later :
    (x : ℕ) (c : SubsurfacePosition) (cs : List SubsurfacePosition)
    → contains x (c ∷ cs) ≡ false
    → ((c.id == x) ≡ false) × (contains x cs ≡ false)
unfolding contains
contains-later x c cs h = elim (Bool-cases (c.id == x)) [ inl e ↦ cc | inr n ↦ (n, rw n at h) ]

pub contains-append :
    (x : ℕ) (xs ys : List SubsurfacePosition)
    → contains x (xs ++ ys) ≡ (if contains x xs then true else contains x ys)
unfolding contains
contains-append x [] ys = refl
contains-append x (c ∷ cs) ys = elim (Bool-cases (c.id == x)) [
  | inl e ↦ rw e refl
  | inr n ↦ rw n (contains-append x cs ys)
]

pub contains-reverse :
    (x : ℕ) (xs : List SubsurfacePosition) → contains x xs ≡ false → contains x (reverse xs) ≡ false
contains-reverse x [] h = h
contains-reverse x (c ∷ cs) h =
    let l = contains-later x c cs h in
    rw
      (
        contains-append x (reverse cs) (c ∷ []),
        contains-reverse x cs l.1,
        contains-cons x c [],
        l.0,
      )
      (unfold contains in refl)

pub contains-filter :
    (p : SubsurfacePosition → Bool) (x : ℕ) (xs : List SubsurfacePosition)
    → contains x xs ≡ false
    → contains x (filter p xs) ≡ false
contains-filter p x [] h = h
contains-filter p x (c ∷ cs) h =
    let l = contains-later x c cs h in
    elim (Bool-cases (p c)) [
      | inl e ↦ rw (e, contains-cons x c (filter p cs), l.0) (contains-filter p x cs l.1)
      | inr n ↦ rw n (contains-filter p x cs l.1)
    ]

pub contains-without :
    (x id : ℕ) (xs : List SubsurfacePosition)
    → contains x xs ≡ false
    → contains x (without id xs) ≡ false
contains-without x id [] h = h
contains-without x id (c ∷ cs) h =
    let l = contains-later x c cs h in
    elim (Bool-cases (c.id == id)) [
      | inl e ↦ rw e l.1
      | inr n ↦ rw (n, contains-cons x c (without id cs), l.0) (contains-without x id cs l.1)
    ]

-- Another id stays.
pub contains-without_other :
    (x id : ℕ) (xs : List SubsurfacePosition)
    → (x == id) ≡ false
    → contains x xs ≡ true
    → contains x (without id xs) ≡ true
contains-without_other x id [] d h = h
contains-without_other x id (c ∷ cs) d h = elim (Bool-cases (c.id == id)) [
  | inl e ↦
      let n : (c.id == x) ≡ false = ==-apart x id c.id d e in
      rw e (sym (rw n at (contains-cons x c cs)) ∙ h)
  | inr n ↦ elim (Bool-cases (c.id == x)) [
    | inl e ↦ rw (n, contains-cons x c (without id cs), e) refl
    | inr m ↦
        rw (n, contains-cons x c (without id cs), m)
          (contains-without_other x id cs d (sym (rw m at (contains-cons x c cs)) ∙ h))
  ]
]

pub contains-cases :
    (x : ℕ) (c : SubsurfacePosition) (cs : List SubsurfacePosition)
    → contains x (c ∷ cs) ≡ true
    → ((c.id == x) ≡ true) ⊎ (((c.id == x) ≡ false) × (contains x cs ≡ true))
contains-cases x c cs h = elim (Bool-cases (c.id == x)) [
  | inl e ↦ inl e
  | inr n ↦ inr (n, sym (rw n at (contains-cons x c cs)) ∙ h)
]

pub without-IsDistinct :
    (id : ℕ) (xs : List SubsurfacePosition) → IsDistinct xs → IsDistinct (without id xs)
without-IsDistinct id [] d = tt
without-IsDistinct id (c ∷ cs) d = elim (Bool-cases (c.id == id)) [
  | inl e ↦ rw e d.1
  | inr n ↦ rw n (contains-without c.id id cs d.0, without-IsDistinct id cs d.1)
]

pub filter-IsDistinct :
    (p : SubsurfacePosition → Bool) (xs : List SubsurfacePosition)
    → IsDistinct xs
    → IsDistinct (filter p xs)
filter-IsDistinct p [] d = tt
filter-IsDistinct p (c ∷ cs) d = elim (Bool-cases (p c)) [
  | inl e ↦ rw e (contains-filter p c.id cs d.0, filter-IsDistinct p cs d.1)
  | inr n ↦ rw n (filter-IsDistinct p cs d.1)
]

pub append-one-IsDistinct :
    (xs : List SubsurfacePosition) (y : SubsurfacePosition)
    → IsDistinct xs
    → contains y.id xs ≡ false
    → IsDistinct (xs ++ y ∷ [])
append-one-IsDistinct [] y d h = ((unfold contains in refl), tt)
append-one-IsDistinct (x ∷ xs) y d h =
    let l = contains-later y.id x xs h in
    (
      rw (contains-append x.id xs (y ∷ []), d.0, contains-cons x.id y [], ==-sym y.id x.id, l.0)
          (unfold contains in refl),
      append-one-IsDistinct xs y d.1 l.1,
    )

pub reverse-IsDistinct : (xs : List SubsurfacePosition) → IsDistinct xs → IsDistinct (reverse xs)
reverse-IsDistinct [] d = tt
reverse-IsDistinct (x ∷ xs) d =
    append-one-IsDistinct (reverse xs) x (reverse-IsDistinct xs d.1) (contains-reverse x.id xs d.0)
