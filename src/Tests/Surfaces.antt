-- ===== src/Tests/Surfaces.antt =====
-- The theorems on the client's surfaces at concrete surfaces.
use mathlib.Core.Path.{subst}
use wprs.Base.{
  ℕ, ◌-◌, ◌<◌, ◌≡◌, ◌==◌, leb, ◌⊎◌, inl, inr, refl, arith, true, none, some, List, [], ◌∷◌, ◌++◌,
  length, All, Bool-cases,
}
use wprs.Geometry.{ℤ, pos, Point}
use wprs.Wayland
use wprs.Wayland.{SubsurfacePosition, SubSurfaceState, SurfaceState, new_state}
use wprs.Client
use wprs.Client.{
  RemoteSurface, Compositor, ClientState, Outcome, left_by, Surfaces, fresh_surface, or_insert_new,
  put, ask, get, wl_surface, as_sub_surface,
}
use wprs.Client.Stacking.{contains, reorder_children}
use wprs.Client.Stacking.Ids.{IsDistinct}
use wprs.Client.Stacking.Moves.{ids, place_above}
use wprs.Client.Stacking.Reordering.{listed, others, reorder_children_lem}
use wprs.Client.Subsurface.{
  commit_sync_children, push_child, take_role, set_role, sub_surface_of, update, apply,
  populate_subsurfaces,
}
use wprs.Client.Subsurface.Linked.{IsLinked, KeepsParents, some-inj}
use wprs.Client.Subsurface.Drawing.{Descends, commit_sync_children-enough}
use wprs.Client.Subsurface.Commits.{populate_subsurfaces-idle}
use wprs.Client.Commit.Reachable.{Call, perform, Reaches, Reaches-IsLinked}

abbrev here : Point ℤ
here = record { x = pos 0; y = pos 0 }

abbrev child : ℕ → SubsurfacePosition
child k = record { id = k; position = here }

-- The children 2 and 3 of surface 1, and the server's order, from the bottom of the stack.
abbrev children : List SubsurfacePosition
children = child 1 ∷ child 2 ∷ child 3 ∷ []

abbrev new_order : List SubsurfacePosition
new_order = child 2 ∷ child 3 ∷ child 4 ∷ child 1 ∷ []

children-IsDistinct : IsDistinct children
unfolding contains
children-IsDistinct = (refl, (refl, (refl, tt)))

new_order-IsDistinct : IsDistinct new_order
unfolding contains
new_order-IsDistinct = (refl, (refl, (refl, (refl, tt))))

reorder_children_lem_example :
    let front = listed new_order children in
    let result = front ++ others front children in
    (moves : List (ℕ × ℕ)) × (reorder_children new_order children ≡ some (result, moves))
    × (place_above moves (ids children) ≡ ids result)
reorder_children_lem_example =
    reorder_children_lem new_order children new_order-IsDistinct children-IsDistinct

-- A compositor that numbers what it makes.
abbrev pub numbering : Compositor (Unit {0})
numbering = record {
  new_surface = λ asked. some (length asked);
  new_subsurface = length;
  attaches = λ asked b wl. true;
  has_viewporter = true;
  new_viewport = length;
  makes_region = λ asked. true;
  makes_positioner = λ asked. true;
  makes_popup = λ asked. true;
  is_anchor = λ n. leb n 8;
  is_gravity = λ n. leb n 8;
  bimap_insert = λ key l b. b;
}

abbrev pub nothing : ClientState (Unit {0})
nothing = record { surfaces = λ j. none; object_bimap = tt; asked = [] }

abbrev state_2 : SurfaceState
state_2 = record (new_state 7 2 none) {
  role = some (Wayland.Role.sub_surface (record { parent = 1; location = here; sync = true }));
}

-- Surface 2 of client 7 becomes a subsurface of surface 1.
abbrev pub linked : ClientState (Unit {0})
linked = left_by (
    perform numbering (Call.become_subsurface 7 state_2 2) (
      left_by (
        perform numbering (Call.enter 7 2) (left_by (perform numbering (Call.enter 7 1) nothing)))))

pub linked-Reaches : Reaches numbering linked
linked-Reaches = Reaches.performed (Call.become_subsurface 7 state_2 2) tt (
    Reaches.performed (Call.enter 7 2) tt
      (Reaches.performed (Call.enter 7 1) tt (Reaches.started tt [])))

-- Surface 1 then lists its child.
linked-parent : linked.surfaces 1 ≡ some (push_child 2 (fresh_surface 7 1 0))
unfolding perform apply set_role or_insert_new Client.new put get ask take_role update new_state
    Wayland.as_sub_surface sub_surface_of as_sub_surface fresh_surface push_child wl_surface
linked-parent = refl

populate_subsurfaces-idle_example : populate_subsurfaces numbering 7 1 linked ≡ Outcome.ok linked tt
populate_subsurfaces-idle_example =
    populate_subsurfaces-idle numbering 7 1 (push_child 2 (fresh_surface 7 1 0)) linked
      (Reaches-IsLinked numbering linked linked-Reaches) linked-parent

-- Surface 2 is below surface 1.
abbrev rank : ℕ → ℕ
rank i = 3 - i

linked-Descends : Descends rank linked.surfaces
unfolding perform apply set_role or_insert_new Client.new put get ask take_role update new_state
    Wayland.as_sub_surface sub_surface_of as_sub_surface fresh_surface push_child wl_surface
linked-Descends i s e = elim (Bool-cases (i == 2)) [
  | inl two ↦
      let at_2 : 2 ≡ i = ground arith in
      subst (λ v. All (λ c. (c.id ≡ i) ⊎ (rank c.id < rank i)) v.z_ordered_children)
        (some-inj (rw two at e)) (inl at_2, tt)
  | inr not_two ↦ elim (Bool-cases (i == 1)) [
    | inl one ↦
        let at_1 : 1 ≡ i = ground arith in
        subst (λ v. All (λ c. (c.id ≡ i) ⊎ (rank c.id < rank i)) v.z_ordered_children)
          (some-inj (rw (not_two, one) at e)) (inl at_1, (inr (omega arith), tt))
    | inr neither ↦ absurd (none-some (rw (not_two, neither) at e))
  ]
]
  where
    none-some : none ≡ some s → ⊥
    none-some e = cc

commit_sync_children-enough_example :
    (c' : ClientState (Unit {0})) × (commit_sync_children numbering 2 1 linked ≡ Outcome.ok c' tt)
    × (IsLinked c'.surfaces × Descends rank c'.surfaces × KeepsParents linked.surfaces c'.surfaces)
commit_sync_children-enough_example =
    commit_sync_children-enough numbering rank (λ asked b wl. refl) 2 1 linked (omega arith)
      (Reaches-IsLinked numbering linked linked-Reaches) linked-Descends
