-- ===== src/Client/Stacking/Moves.antt =====
-- src/client/mod.rs: one round of reorder_children, and what its move does to a stack.
use wprs.Base.{
  ℕ, suc, true, false, some, List, [], ◌∷◌, ◌++◌, map, length, ◌==◌, ◌≡◌, refl, ap, ◌∙◌,
  if◌then◌else◌, remove, position, Bool-cases, inl, inr, ==_iff, ==-true, get_elem?-append,
  set_elem-append, insert_at-append,
}
use wprs.Wayland.{SubsurfacePosition}
use wprs.Client.Stacking.{contains, reorder_child}
use wprs.Client.Stacking.Ids.{without, contains-later, contains-append}

abbrev pub ids : List SubsurfacePosition → List ℕ
ids cs = map (λ c. c.id) cs

-- wl_subsurface::place_above on a stack, from its top: a surface is taken out and put back just above
-- another one.
abbrev pub take_out : ℕ → List ℕ → List ℕ
take_out x [] = []
take_out x (y ∷ ys) = let rest = take_out x ys in if y == x then ys else y ∷ rest

abbrev pub put_above : ℕ → ℕ → List ℕ → List ℕ
put_above x sibling [] = []
put_above x sibling (y ∷ ys) =
    let rest = put_above x sibling ys in if y == sibling then x ∷ y ∷ ys else y ∷ rest

unfoldable pub place_above : List (ℕ × ℕ) → List ℕ → List ℕ
place_above [] stack = stack
place_above ((x, sibling) ∷ moves) stack =
    place_above moves (put_above x sibling (take_out x stack))

take_out-without : (x : ℕ) (cs : List SubsurfacePosition) → take_out x (ids cs) ≡ ids (without x cs)
take_out-without x [] = refl
take_out-without x (c ∷ cs) = elim (Bool-cases (c.id == x)) [
  | inl e ↦ rw e refl
  | inr n ↦ rw n (ap (λ l. c.id ∷ l) (take_out-without x cs))
]

put_above-append :
    (x : SubsurfacePosition) (done : List SubsurfacePosition) (cur : SubsurfacePosition)
    (rest : List SubsurfacePosition)
    → contains cur.id done ≡ false
    → put_above x.id cur.id (ids (done ++ cur ∷ rest)) ≡ ids (done ++ x ∷ cur ∷ rest)
put_above-append x [] cur rest h = rw (==-true cur.id cur.id refl) refl
put_above-append x (c ∷ done) cur rest h =
    let l = contains-later cur.id c done h in
    rw l.0 (ap (λ l. c.id ∷ l) (put_above-append x done cur rest l.1))

position-without :
    (id : ℕ) (cs : List SubsurfacePosition)
    → contains id cs ≡ true
    → (i : ℕ) × (position (λ c. c.id == id) cs ≡ some i) × (remove i cs ≡ without id cs)
unfolding contains
position-without id [] h = cc
position-without id (c ∷ cs) h = elim (Bool-cases (c.id == id)) [
  | inl e ↦ (0, rw e refl, rw e refl)
  | inr n ↦
      let rest = position-without id cs (rw n at h) in
      (suc rest.0, rw (n, rest.1) refl, rw n (ap (λ l. c ∷ l) rest.2))
]

without-append :
    (id : ℕ) (done rest : List SubsurfacePosition)
    → contains id done ≡ false
    → without id (done ++ rest) ≡ done ++ without id rest
without-append id [] rest h = refl
without-append id (c ∷ done) rest h =
    let l = contains-later id c done h in rw l.0 (ap (λ l. c ∷ l) (without-append id done rest l.1))

-- The move of a round, when `cur` is where `e` is to be.
abbrev pub moved : SubsurfacePosition → SubsurfacePosition → List (ℕ × ℕ)
moved e cur = if cur.id == e.id then [] else (e.id, cur.id) ∷ []

-- A round puts the next child behind those that are done.
pub reorder_child-append :
    (done : List SubsurfacePosition) (e cur : SubsurfacePosition) (rest : List SubsurfacePosition)
    → contains e.id done ≡ false
    → contains e.id (cur ∷ rest) ≡ true
    → reorder_child (length done) e (done ++ cur ∷ rest)
      ≡ some (done ++ e ∷ without e.id (cur ∷ rest), moved e cur)
unfolding reorder_child
reorder_child-append done e cur rest f h = elim (Bool-cases (cur.id == e.id)) [
  | inl same ↦ rw (get_elem?-append done cur rest, same, set_elem-append done cur e rest) refl
  | inr other ↦
      let there : contains e.id (done ++ cur ∷ rest) ≡ true =
        rw (contains-append e.id done (cur ∷ rest), f) h in
      let found = position-without e.id (done ++ cur ∷ rest) there in
      rw
        (
          get_elem?-append done cur rest,
          other,
          found.1,
          found.2,
          without-append e.id done (cur ∷ rest) f,
          other,
          insert_at-append done e (cur ∷ without e.id rest),
        )
        refl
]

ids_same :
    (done : List SubsurfacePosition) (e cur : SubsurfacePosition) (rest : List SubsurfacePosition)
    → cur.id ≡ e.id
    → ids (done ++ cur ∷ rest) ≡ ids (done ++ e ∷ rest)
ids_same [] e cur rest h = ap (λ x. x ∷ ids rest) h
ids_same (c ∷ done) e cur rest h = ap (λ l. c.id ∷ l) (ids_same done e cur rest h)

-- On a stack, it is the move's effect.
pub place_above-moved :
    (done : List SubsurfacePosition) (e cur : SubsurfacePosition) (rest : List SubsurfacePosition)
    → contains e.id done ≡ false
    → contains cur.id done ≡ false
    → place_above (moved e cur) (ids (done ++ cur ∷ rest))
      ≡ ids (done ++ e ∷ without e.id (cur ∷ rest))
unfolding place_above
place_above-moved done e cur rest f g = elim (Bool-cases (cur.id == e.id)) [
  | inl same ↦ rw same (ids_same done e cur rest ((==_iff cur.id e.id).0 same))
  | inr other ↦ rw other (
      ap (put_above e.id cur.id) (
        take_out-without e.id (done ++ cur ∷ rest)
        ∙ ap ids (without-append e.id done (cur ∷ rest) f))
      ∙ rw other (put_above-append e done cur (without e.id rest) g))
]
