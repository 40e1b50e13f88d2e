-- ===== src/Client/Stacking/Reordering.antt =====
-- src/client/mod.rs: what reorder_children makes of the children, and what its moves do to a stack.
use wprs.Base.{
  ℕ, suc, true, false, not, some, List, [], ◌∷◌, ◌++◌, length, ◌==◌, ◌≡◌, refl, sym, ap, ◌∙◌, arith,
  if◌then◌else◌, filter, reverse, All, Bool-cases, inl, inr, ==_iff, append_assoc, length-append,
}
use wprs.Wayland.{SubsurfacePosition}
use wprs.Client.Stacking.{contains, reorder_loop, reorder_children}
use wprs.Client.Stacking.Ids.{
  without, IsDistinct, ==-sym, contains-nil, contains-cons, contains-later, contains-append,
  contains-without_other, contains-cases, without-IsDistinct, filter-IsDistinct, reverse-IsDistinct,
}
use wprs.Client.Stacking.Moves.{
  ids, take_out, put_above, place_above, moved, reorder_child-append, place_above-moved,
}

-- The children that a list of ids leaves over.
abbrev withouts : List SubsurfacePosition → List SubsurfacePosition → List SubsurfacePosition
withouts [] rest = rest
withouts (e ∷ es) rest = withouts es (without e.id rest)

-- What `es` has to be for its rounds.
abbrev Listed : List SubsurfacePosition → List SubsurfacePosition → Type 0
Listed es rest = All (λ e. contains e.id rest ≡ true) es

absurd_contains : {A : Type 0} (x : ℕ) → contains x [] ≡ true → A
unfolding contains
absurd_contains x h = cc

contains-Fresh :
    (x : ℕ) (done rest : List SubsurfacePosition)
    → All (λ c. contains c.id done ≡ false) rest
    → contains x rest ≡ true
    → contains x done ≡ false
contains-Fresh x done [] f h = absurd_contains x h
contains-Fresh x done (c ∷ cs) f h = elim (contains-cases x c cs h) [
  | inl e ↦ ap (λ y. contains y done) (sym ((==_iff c.id x).0 e)) ∙ f.0
  | inr later ↦ contains-Fresh x done cs f.1 later.1
]

Fresh-one :
    (done : List SubsurfacePosition) (e c : SubsurfacePosition)
    → contains c.id done ≡ false
    → (c.id == e.id) ≡ false
    → contains c.id (done ++ e ∷ []) ≡ false
Fresh-one done e c f n =
    rw (contains-append c.id done (e ∷ []), f, contains-cons c.id e [], ==-sym e.id c.id, n)
      (unfold contains in refl)

Fresh-absent :
    (done : List SubsurfacePosition) (e : SubsurfacePosition) (rest : List SubsurfacePosition)
    → All (λ c. contains c.id done ≡ false) rest
    → contains e.id rest ≡ false
    → All (λ c. contains c.id (done ++ e ∷ []) ≡ false) rest
Fresh-absent done e [] f n = tt
Fresh-absent done e (c ∷ cs) f n =
    let l = contains-later e.id c cs n in
    (Fresh-one done e c f.0 l.0, Fresh-absent done e cs f.1 l.1)

Fresh-next :
    (done : List SubsurfacePosition) (e : SubsurfacePosition) (rest : List SubsurfacePosition)
    → All (λ c. contains c.id done ≡ false) rest
    → IsDistinct rest
    → All (λ c. contains c.id (done ++ e ∷ []) ≡ false) (without e.id rest)
Fresh-next done e [] f d = tt
Fresh-next done e (c ∷ cs) f d = elim (Bool-cases (c.id == e.id)) [
  | inl same ↦
      rw same (
        Fresh-absent done e cs f.1
          (ap (λ y. contains y cs) (sym ((==_iff c.id e.id).0 same)) ∙ d.0))
  | inr other ↦ rw other (Fresh-one done e c f.0 other, Fresh-next done e cs f.1 d.1)
]

Listed-next :
    (e : SubsurfacePosition) (es rest : List SubsurfacePosition)
    → contains e.id es ≡ false
    → Listed es rest
    → Listed es (without e.id rest)
Listed-next e [] rest n l = tt
Listed-next e (f ∷ es) rest n l =
    let m = contains-later e.id f es n in
    (contains-without_other f.id e.id rest m.0 l.0, Listed-next e es rest m.1 l.1)

place_above-append :
    (xs ys : List (ℕ × ℕ)) (stack : List ℕ)
    → place_above (xs ++ ys) stack ≡ place_above ys (place_above xs stack)
unfolding place_above
place_above-append [] ys stack = refl
place_above-append ((x, sibling) ∷ xs) ys stack =
    place_above-append xs ys (put_above x sibling (take_out x stack))

-- The loop, from where the children before it are done.
Reorders : List SubsurfacePosition → List SubsurfacePosition → List SubsurfacePosition → Type 0
Reorders done es rest =
    (moves : List (ℕ × ℕ)) × (reorder_loop (length done) es (done ++ rest)
      ≡ some (done ++ (es ++ withouts es rest), moves))
    × (place_above moves (ids (done ++ rest)) ≡ ids (done ++ (es ++ withouts es rest)))

reorder_loop-cons :
    (done : List SubsurfacePosition) (e cur : SubsurfacePosition) (es cs : List SubsurfacePosition)
    → contains e.id done ≡ false
    → contains cur.id done ≡ false
    → contains e.id (cur ∷ cs) ≡ true
    → Reorders (done ++ e ∷ []) es (without e.id (cur ∷ cs))
    → Reorders done (e ∷ es) (cur ∷ cs)
unfolding reorder_loop Reorders
reorder_loop-cons done e cur es cs f g h later =
    let rest = without e.id (cur ∷ cs) in
    let all = es ++ withouts es rest in
    let n : length (done ++ e ∷ []) ≡ suc (length done) =
      omega (arith, length-append done (e ∷ [])) in
    (
      moved e cur ++ later.0,
      rw
          (
            reorder_child-append done e cur cs f h,
            sym n,
            sym (append_assoc done (e ∷ []) rest),
            later.1,
            append_assoc done (e ∷ []) all,
          )
          refl,
      place_above-append (moved e cur) later.0 (ids (done ++ cur ∷ cs))
          ∙ ap (place_above later.0)
              (place_above-moved done e cur cs f g ∙ ap ids (sym (append_assoc done (e ∷ []) rest)))
          ∙ later.2
          ∙ ap ids (append_assoc done (e ∷ []) all),
    )

reorder_loop-append :
    (done es rest : List SubsurfacePosition)
    → All (λ c. contains c.id done ≡ false) rest
    → IsDistinct rest
    → IsDistinct es
    → Listed es rest
    → Reorders done es rest
unfolding reorder_loop Reorders place_above
reorder_loop-append done [] rest f d s l = ([], refl, refl)
reorder_loop-append done (e ∷ es) [] f d s l = absurd_contains e.id l.0
reorder_loop-append done (e ∷ es) (cur ∷ cs) f d s l =
    reorder_loop-cons done e cur es cs (contains-Fresh e.id done (cur ∷ cs) f l.0) f.0 l.0 (
      reorder_loop-append (done ++ e ∷ []) es (without e.id (cur ∷ cs))
        (Fresh-next done e (cur ∷ cs) f d) (without-IsDistinct e.id (cur ∷ cs) d) s.1
        (Listed-next e es (cur ∷ cs) s.0 l.1))

-- The children that are not in a list.
abbrev pub others : List SubsurfacePosition → List SubsurfacePosition → List SubsurfacePosition
others es children = filter (λ c. not (contains c.id es)) children

others-absent :
    (e : SubsurfacePosition) (es cs : List SubsurfacePosition)
    → contains e.id cs ≡ false
    → others (e ∷ es) cs ≡ others es cs
others-absent e es [] h = refl
others-absent e es (c ∷ cs) h =
    let l = contains-later e.id c cs h in
    rw (contains-cons c.id e es, ==-sym e.id c.id, l.0)
      (ap (λ l. if not (contains c.id es) then c ∷ l else l) (others-absent e es cs l.1))

others-without :
    (e : SubsurfacePosition) (es cs : List SubsurfacePosition)
    → IsDistinct cs
    → others es (without e.id cs) ≡ others (e ∷ es) cs
others-without e es [] d = refl
others-without e es (c ∷ cs) d = elim (Bool-cases (c.id == e.id)) [
  | inl same ↦
      rw (same, contains-cons c.id e es, ==-sym e.id c.id, same)
        (sym
          (others-absent e es cs (ap (λ y. contains y cs) (sym ((==_iff c.id e.id).0 same)) ∙ d.0)))
  | inr other ↦
      rw (other, contains-cons c.id e es, ==-sym e.id c.id, other)
        (ap (λ l. if not (contains c.id es) then c ∷ l else l) (others-without e es cs d.1))
]

withouts-others : (es cs : List SubsurfacePosition) → IsDistinct cs → withouts es cs ≡ others es cs
withouts-others [] cs d = others-nil cs
  where
    others-nil : (cs : List SubsurfacePosition) → cs ≡ others [] cs
    others-nil [] = refl
    others-nil (c ∷ cs) = rw (contains-nil c.id) (ap (λ l. c ∷ l) (others-nil cs))
withouts-others (e ∷ es) cs d =
    withouts-others es (without e.id cs) (without-IsDistinct e.id cs d) ∙ others-without e es cs d

Listed-filter : (es cs : List SubsurfacePosition) → Listed (filter (λ e. contains e.id cs) es) cs
Listed-filter [] cs = tt
Listed-filter (e ∷ es) cs = elim (Bool-cases (contains e.id cs)) [
  | inl h ↦ rw h (h, Listed-filter es cs)
  | inr h ↦ rw h (Listed-filter es cs)
]

-- The new order, from the top, of the children that there are.
abbrev pub listed : List SubsurfacePosition → List SubsurfacePosition → List SubsurfacePosition
listed new_order children = filter (λ e. contains e.id children) (reverse new_order)

-- When no id is twice among the children or in the new order, `reorder_children` does not panic:
-- the children are those of the new order that were there, from its end on and with its
-- positions, and behind them the others as they were; its moves, replayed by `place_above` on a
-- stack of the old ids from the top, give the ids of the new children.
pub reorder_children_lem :
    (new_order children : List SubsurfacePosition)
    → IsDistinct new_order
    → IsDistinct children
    → let front = listed new_order children in
      let result = front ++ others front children in
      (moves : List (ℕ × ℕ)) × (reorder_children new_order children ≡ some (result, moves))
      × (place_above moves (ids children) ≡ ids result)
unfolding reorder_children Reorders
reorder_children_lem new_order children n d =
    let front = listed new_order children in
    let got =
      reorder_loop-append [] front children (fresh children) d
        (filter-IsDistinct (λ e. contains e.id children) (reverse new_order)
          (reverse-IsDistinct new_order n))
        (Listed-filter (reverse new_order) children) in
    let e = ap (λ l. front ++ l) (withouts-others front children d) in
    (got.0, got.1 ∙ ap (λ l. some (l, got.0)) e, got.2 ∙ ap ids e)
  where
    fresh : (cs : List SubsurfacePosition) → All (λ c. contains c.id [] ≡ false) cs
    fresh [] = tt
    fresh (c ∷ cs) = ((unfold contains in refl), fresh cs)
