-- ===== src/Client/Stacking/Kept.antt =====
-- src/client/mod.rs: what holds of the children's ids before reorder_children and after it.
use wprs.Base.{
  ℕ, true, false, not, some, List, [], ◌∷◌, ◌++◌, ◌==◌, ◌≡◌, inl, inr, refl, sym, ap, ◌∙◌, filter,
  reverse, All, All-impl, Bool-cases, none, ==_iff, ==-true,
}
use wprs.Wayland.{SubsurfacePosition}
use wprs.Client.Stacking.{contains, reorder_children}
use wprs.Client.Stacking.Ids.{
  IsDistinct, contains-nil, contains-cons, contains-append, contains-cases, filter-IsDistinct,
  reverse-IsDistinct,
}
use wprs.Client.Stacking.Reordering.{listed, others, reorder_children_lem}

contains-All :
    (P : ℕ → Type 0) (x : ℕ) (cs : List SubsurfacePosition)
    → All (λ c. P c.id) cs
    → contains x cs ≡ true
    → P x
contains-All P x [] a h = absurd (false-true (sym (contains-nil x) ∙ h))
  where
    false-true : false ≡ true → ⊥
    false-true e = cc
contains-All P x (c ∷ cs) a h = elim (contains-cases x c cs h) [
  | inl same ↦ rw (sym ((==_iff c.id x).0 same)) a.0
  | inr later ↦ contains-All P x cs a.1 later.1
]

All-others :
    (P : ℕ → Type 0) (es cs : List SubsurfacePosition)
    → All (λ c. P c.id) cs
    → All (λ c. P c.id) (others es cs)
All-others P es [] a = tt
All-others P es (c ∷ cs) a = elim (Bool-cases (contains c.id es)) [
  | inl gone ↦ rw gone (All-others P es cs a.1)
  | inr kept ↦ rw kept (a.0, All-others P es cs a.1)
]

All-listed :
    (P : ℕ → Type 0) (es cs : List SubsurfacePosition)
    → All (λ c. P c.id) cs
    → All (λ c. P c.id) (filter (λ e. contains e.id cs) es)
All-listed P [] cs a = tt
All-listed P (e ∷ es) cs a = elim (Bool-cases (contains e.id cs)) [
  | inl there ↦ rw there (contains-All P e.id cs a there, All-listed P es cs a)
  | inr missing ↦ rw missing (All-listed P es cs a)
]

All-append :
    (P : ℕ → Type 0) (xs ys : List SubsurfacePosition)
    → All (λ c. P c.id) xs
    → All (λ c. P c.id) ys
    → All (λ c. P c.id) (xs ++ ys)
All-append P [] ys a b = b
All-append P (x ∷ xs) ys a b = (a.0, All-append P xs ys a.1 b)

-- The others have other ids.
contains-others :
    (x : ℕ) (es cs : List SubsurfacePosition)
    → contains x es ≡ true
    → contains x (others es cs) ≡ false
contains-others x es [] h = contains-nil x
contains-others x es (c ∷ cs) h = elim (Bool-cases (contains c.id es)) [
  | inl gone ↦ rw gone (contains-others x es cs h)
  | inr kept ↦ elim (Bool-cases (c.id == x)) [
    | inl same ↦
        absurd (true-false (sym h ∙ ap (λ y. contains y es) (sym ((==_iff c.id x).0 same)) ∙ kept))
    | inr other ↦ rw (kept, contains-cons x c (others es cs), other) (contains-others x es cs h)
  ]
]
  where
    true-false : true ≡ false → ⊥
    true-false e = cc

contains-others_kept :
    (x : ℕ) (es cs : List SubsurfacePosition)
    → contains x es ≡ false
    → contains x cs ≡ true
    → contains x (others es cs) ≡ true
contains-others_kept x es [] d h = h
contains-others_kept x es (c ∷ cs) d h = elim (contains-cases x c cs h) [
  | inl same ↦
      rw
        (
          ap (λ y. contains y es) ((==_iff c.id x).0 same) ∙ d,
          contains-cons x c (others es cs),
          same,
        )
        refl
  | inr later ↦ elim (Bool-cases (contains c.id es)) [
    | inl gone ↦ rw gone (contains-others_kept x es cs d later.1)
    | inr kept ↦
        rw (kept, contains-cons x c (others es cs), later.0)
          (contains-others_kept x es cs d later.1)
  ]
]

append-IsDistinct :
    (xs ys : List SubsurfacePosition)
    → IsDistinct xs
    → IsDistinct ys
    → All (λ c. contains c.id ys ≡ false) xs
    → IsDistinct (xs ++ ys)
append-IsDistinct [] ys d e a = e
append-IsDistinct (x ∷ xs) ys d e a =
    (rw (contains-append x.id xs ys, d.0) a.0, append-IsDistinct xs ys d.1 e a.1)

contains_self : (es : List SubsurfacePosition) → All (λ c. contains c.id es ≡ true) es
contains_self es = all_of es es (λ x h. h)
  where
    all_of :
        (xs ys : List SubsurfacePosition)
        → ((x : ℕ) → contains x xs ≡ true → contains x ys ≡ true)
        → All (λ c. contains c.id ys ≡ true) xs
    all_of [] ys h = tt
    all_of (x ∷ xs) ys h = (
      h x.id (rw (contains-cons x.id x xs, ==-true x.id x.id refl) refl),
      all_of xs ys (λ y e. h y (elim (Bool-cases (x.id == y)) [
        | inl same ↦ rw (contains-cons y x xs, same) refl
        | inr other ↦ rw (contains-cons y x xs, other) e
      ])),
    )

-- Ids stay distinct, none is lost, and what holds of each of them still does.
pub reorder_children-keeps :
    (new_order children z : List SubsurfacePosition) (moves : List (ℕ × ℕ))
    → IsDistinct new_order
    → IsDistinct children
    → reorder_children new_order children ≡ some (z, moves)
    → IsDistinct z
      × ((x : ℕ) → contains x children ≡ true → contains x z ≡ true)
      × ((P : ℕ → Type 0) → All (λ c. P c.id) children → All (λ c. P c.id) z)
reorder_children-keeps new_order children z moves n d e =
    let front = listed new_order children in
    let lem = reorder_children_lem new_order children n d in
    let z_eq = ap (λ o. elim o [ none ↦ z | some r ↦ r.0 ]) (sym e ∙ lem.1) in
    let front_distinct =
      filter-IsDistinct (λ c. contains c.id children) (reverse new_order)
        (reverse-IsDistinct new_order n) in
    rw z_eq (
      append-IsDistinct front (others front children) front_distinct
          (filter-IsDistinct (λ c. not (contains c.id front)) children d)
          (All-impl (λ c. contains c.id front ≡ true)
            (λ c. contains c.id (others front children) ≡ false) front
            (λ c h. contains-others c.id front children h) (contains_self front)),
      λ x h. elim (Bool-cases (contains x front)) [
        | inl there ↦ rw (contains-append x front (others front children), there) refl
        | inr missing ↦
            rw (contains-append x front (others front children), missing)
              (contains-others_kept x front children missing h)
      ],
      λ P a.
          All-append P front (others front children) (All-listed P (reverse new_order) children a)
            (All-others P front children a),
    )
