-- ===== src/Outputs/Crossings.antt =====
-- The outputs that a surface is on after src/compositor_utils.rs's update_surface_outputs.
use wprs.Base.{
  ℕ, Bool, true, false, not, Option, some, List, [], ◌∷◌, ◌++◌, ◌==◌, ◌≡◌, refl, ap, ◌∙◌,
  if◌then◌else◌, filter, Bool-cases, Option-cases, ==_iff, inl, inr,
}
use wprs.Outputs.{Crossing, contains, difference, cross, update_surface_outputs}

-- Left unless new, or entered unless old, or as before: that is new.
crossings_suffice :
    (n o : Bool)
    → (if (if n then false else o) then false else (if (if o then false else n) then true else o))
      ≡ n
crossings_suffice true true = refl
crossings_suffice true false = refl
crossings_suffice false true = refl
crossings_suffice false false = refl

both : (c b : Bool) → (if c then b else b) ≡ b
both true b = refl
both false b = refl

contains-filter-true :
    (p : ℕ → Bool) (ids : List ℕ) (k : ℕ) → p k ≡ true → contains (filter p ids) k ≡ contains ids k
contains-filter-true p [] k h = refl
contains-filter-true p (id ∷ ids) k h = elim (Bool-cases (id == k)) [
  | inl e ↦ rw (ap p ((==_iff id k).0 e) ∙ h, e) refl
  | inr n ↦ elim (Bool-cases (p id)) [
    | inl t ↦ rw (t, n) (contains-filter-true p ids k h)
    | inr f ↦ rw (f, n) (contains-filter-true p ids k h)
  ]
]

contains-filter-false :
    (p : ℕ → Bool) (ids : List ℕ) (k : ℕ) → p k ≡ false → contains (filter p ids) k ≡ false
contains-filter-false p [] k h = refl
contains-filter-false p (id ∷ ids) k h = elim (Bool-cases (p id)) [
  | inl t ↦ elim (Bool-cases (id == k)) [
    | inl e ↦ cc (ap p ((==_iff id k).0 e))
    | inr n ↦ rw (t, n) (contains-filter-false p ids k h)
  ]
  | inr f ↦ rw f (contains-filter-false p ids k h)
]

contains-difference :
    (ids others : List ℕ) (k : ℕ)
    → contains (difference ids others) k ≡ (if contains others k then false else contains ids k)
unfolding difference
contains-difference ids others k = elim (Bool-cases (contains others k)) [
  | inl e ↦ rw e (contains-filter-false (λ id. not (contains others id)) ids k (rw e refl))
  | inr n ↦ rw n (contains-filter-true (λ id. not (contains others id)) ids k (rw n refl))
]

module _ {ℓ} {O : Type ℓ} (number_of : O → ℕ) where
  abbrev pub output_of : Crossing O → O
  output_of (Crossing.enter o) = o
  output_of (Crossing.leave o) = o

  abbrev pub enters : Crossing O → Bool
  enters (Crossing.enter o) = true
  enters (Crossing.leave o) = false

  -- Whether a surface that was on some outputs is on the output of a number after these crossings.
  abbrev pub is_on : List (Crossing O) → (ℕ → Bool) → ℕ → Bool
  is_on [] was k = was k
  is_on (c ∷ rest) was k =
      is_on rest (λ i. if number_of (output_of c) == i then enters c else was i) k

  is_on-append :
      (xs ys : List (Crossing O)) (was : ℕ → Bool) (k : ℕ)
      → is_on (xs ++ ys) was k ≡ is_on ys (λ i. is_on xs was i) k
  is_on-append [] ys was k = refl
  is_on-append (c ∷ xs) ys was k = is_on-append xs ys _ k

  -- A loop's crossings decide for the outputs of its ids, and leave the others as they were.
  is_on-cross :
      (crossing : O → Crossing O) (b : Bool)
      → ((o : O) → enters (crossing o) ≡ b)
      → ((o : O) → output_of (crossing o) ≡ o)
      → (output_accessor : ℕ → Option O)
      → ((id : ℕ) (o : O) → output_accessor id ≡ some o → number_of o ≡ id)
      → (ids : List ℕ) (was : ℕ → Bool) (k : ℕ) (o : O) → output_accessor k ≡ some o
      → is_on (cross crossing output_accessor ids) was k ≡ (if contains ids k then b else was k)
  unfolding cross
  is_on-cross crossing b e c acc known [] was k o h = refl
  is_on-cross crossing b e c acc known (id ∷ ids) was k o h = elim (Option-cases (acc id)) [
    | inl none_there ↦ elim (Bool-cases (id == k)) [
      | inl t ↦ cc (ap acc ((==_iff id k).0 t))
      | inr n ↦ rw (cross, none_there, n) (is_on-cross crossing b e c acc known ids was k o h)
    ]
    | inr (o', there) ↦
        rw (cross, there)
          (is_on-cross crossing b e c acc known ids _ k o h
            ∙ rw (c o', e o', known id o' there)
                elim (Bool-cases (id == k)) [
                  | inl t ↦ rw t (both (contains ids k) b)
                  | inr n ↦ rw n refl
                ])
  ]

  -- A surface that was on the outputs of the old ids is, after what `update_surface_outputs`
  -- asks, on the output of an id that has one exactly if the id is among the new ones, when the
  -- output that is kept for an id has it for its number, whatever the order of the ids.
  pub update_surface_outputs-is_on :
      (new_ids old_ids : List ℕ) (output_accessor : ℕ → Option O) (k : ℕ) (o : O)
      → ((id : ℕ) (o : O) → output_accessor id ≡ some o → number_of o ≡ id)
      → output_accessor k ≡ some o
      → is_on (update_surface_outputs new_ids old_ids output_accessor) (λ i. contains old_ids i) k
        ≡ contains new_ids k
  unfolding update_surface_outputs
  update_surface_outputs-is_on new_ids old_ids acc k o known h =
      is_on-append (cross Crossing.enter acc (difference new_ids old_ids))
        (cross Crossing.leave acc (difference old_ids new_ids)) _ k
      ∙ is_on-cross Crossing.leave false (λ o. refl) (λ o. refl) acc known
          (difference old_ids new_ids) _ k o h
      ∙ (rw
          (
            is_on-cross Crossing.enter true (λ o. refl) (λ o. refl) acc known
                (difference new_ids old_ids) (λ i. contains old_ids i) k o h,
            contains-difference new_ids old_ids k,
            contains-difference old_ids new_ids k,
          )
          (crossings_suffice (contains new_ids k) (contains old_ids k)))
