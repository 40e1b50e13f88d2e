-- ===== src/Client/Subsurface/Unlinking.antt =====
-- src/client/server_handlers.rs: surfaces that are destroyed.
use wprs.Base.{
  ℕ, true, false, not, none, some, List, [], ◌∷◌, ◌==◌, ◌≡◌, ◌⊎◌, inl, inr, refl, sym, ap, ◌∙◌,
  arith, filter, All, Bool-cases, Option-cases, ==_iff,
}
use wprs.Wayland.{SubsurfacePosition}
use wprs.Client.{
  RemoteSubSurface, RemoteSurface, ClientState, left_by, Surfaces, insert, remove, wl_surface,
}
use wprs.Client.Stacking.{contains}
use wprs.Client.Stacking.Ids.{filter-IsDistinct, contains-cons, contains-cases}
use wprs.Client.Subsurface.{sub_surface_of, drop_child, unlink, handle_surface_destroy}
use wprs.Client.Subsurface.Linked.{parent_at, parent_of, IsSurface, IsLinked, some-inj}

-- Another id stays.
contains-filter_other :
    (x k : ℕ) (cs : List SubsurfacePosition)
    → (x == k) ≡ false
    → contains x cs ≡ true
    → contains x (filter (λ c. not (c.id == k)) cs) ≡ true
contains-filter_other x k [] d h = h
contains-filter_other x k (c ∷ cs) d h = elim (Bool-cases (c.id == k)) [
  | inl gone ↦ rw gone (elim (contains-cases x c cs h) [
    | inl same ↦ absurd (both c.id x k d same gone)
    | inr later ↦ contains-filter_other x k cs d later.1
  ])
  | inr kept ↦ rw kept (elim (contains-cases x c cs h) [
    | inl same ↦ rw (contains-cons x c (filter (λ c'. not (c'.id == k)) cs), same) refl
    | inr later ↦
        rw (contains-cons x c (filter (λ c'. not (c'.id == k)) cs), later.0)
          (contains-filter_other x k cs d later.1)
  ])
]
  where
    both : (c x k : ℕ) → (x == k) ≡ false → (c == x) ≡ true → (c == k) ≡ true → ⊥
    both c x k d e f = ground arith

-- The links of the children that stay.
linked-filter :
    (m m' : Surfaces) (i k : ℕ) (cs : List SubsurfacePosition)
    → ((j p : ℕ) → (j == k) ≡ false → parent_of m j ≡ some p → parent_of m' j ≡ some p)
    → All (λ c. (c.id ≡ i) ⊎ (parent_of m c.id ≡ some i)) cs
    → All (λ c. (c.id ≡ i) ⊎ (parent_of m' c.id ≡ some i)) (filter (λ c. not (c.id == k)) cs)
linked-filter m m' i k [] keeps a = tt
linked-filter m m' i k (c ∷ cs) keeps a = elim (Bool-cases (c.id == k)) [
  | inl gone ↦ rw gone (linked-filter m m' i k cs keeps a.1)
  | inr kept ↦ rw kept (
    elim a.0 [ inl e ↦ inl e | inr e ↦ inr (keeps c.id i kept e) ],
    linked-filter m m' i k cs keeps a.1,
  )
]

-- The links of children none of which is gone.
linked_apart :
    (m m' : Surfaces) (i k : ℕ) (cs : List SubsurfacePosition)
    → ((j p : ℕ) → (j == k) ≡ false → parent_of m j ≡ some p → parent_of m' j ≡ some p)
    → (parent_of m k ≡ some i → ⊥)
    → (i == k) ≡ false
    → All (λ c. (c.id ≡ i) ⊎ (parent_of m c.id ≡ some i)) cs
    → All (λ c. (c.id ≡ i) ⊎ (parent_of m' c.id ≡ some i)) cs
linked_apart m m' i k [] keeps other d a = tt
linked_apart m m' i k (c ∷ cs) keeps other d a = (
  elim a.0 [
    | inl e ↦ inl e
    | inr e ↦ elim (Bool-cases (c.id == k)) [
      | inl gone ↦ absurd (other (ap (parent_of m) (sym ((==_iff c.id k).0 gone)) ∙ e))
      | inr kept ↦ inr (keeps c.id i kept e)
    ]
  ],
  linked_apart m m' i k cs keeps other d a.1,
)

module _ (m : Surfaces) (l : IsLinked m) (k : ℕ) where
  remove-KeepsParents :
      (j p : ℕ) → (j == k) ≡ false → parent_of m j ≡ some p → parent_of (remove k m) j ≡ some p
  remove-KeepsParents j p d e = rw d e

  remove-cases :
      (i : ℕ) (u : RemoteSurface) → remove k m i ≡ some u → ((i == k) ≡ false) × (m i ≡ some u)
  remove-cases i u e = elim (Bool-cases (i == k)) [
    | inl same ↦ absurd (none-some (rw same at e))
    | inr other ↦ (other, rw other at e)
  ]
    where
      none-some : none ≡ some u → ⊥
      none-some e = cc

  -- When no surface that stays is the parent, removing is all.
  remove-IsLinked :
      ((i : ℕ) (u : RemoteSurface) → remove k m i ≡ some u → parent_of m k ≡ some i → ⊥)
      → IsLinked (remove k m)
  remove-IsLinked orphan i u e =
      let there = remove-cases i u e in
      let h = l i u there.1 in
      record {
        same_id = h.same_id;
        shown = h.shown;
        distinct = h.distinct;
        own = h.own;
        linked =
            linked_apart m (remove k m) i k u.z_ordered_children remove-KeepsParents (orphan i u e)
              there.0 h.linked;
      }

  module _ (p : ℕ) (parent : RemoteSurface) (at_p : remove k m p ≡ some parent)
      (linked_to : parent_of m k ≡ some p) where
    dropped_map : Surfaces
    dropped_map = insert p (drop_child k parent) (remove k m)

    dropped_map-KeepsParents :
        (j q : ℕ) → (j == k) ≡ false → parent_of m j ≡ some q → parent_of dropped_map j ≡ some q
    unfolding dropped_map drop_child sub_surface_of
    dropped_map-KeepsParents j q d e = elim (Bool-cases (j == p)) [
      | inl same ↦
          let there = remove-cases p parent at_p in
          rw same (ap parent_at (sym there.1) ∙ ap (parent_of m) (sym ((==_iff j p).0 same)) ∙ e)
      | inr other ↦ rw (other, d) e
    ]

    parent-IsSurface : IsSurface dropped_map p (drop_child k parent)
    unfolding drop_child wl_surface
    parent-IsSurface =
        let there = remove-cases p parent at_p in
        let h = l p parent there.1 in
        record {
          same_id = h.same_id;
          shown = h.shown;
          distinct = filter-IsDistinct (λ c. not (c.id == k)) parent.z_ordered_children h.distinct;
          own = contains-filter_other p k parent.z_ordered_children there.0 h.own;
          linked =
              linked-filter m dropped_map p k parent.z_ordered_children dropped_map-KeepsParents
                h.linked;
        }

    other-IsSurface :
        (i : ℕ) (u : RemoteSurface)
        → (i == p) ≡ false
        → remove k m i ≡ some u
        → IsSurface dropped_map i u
    other-IsSurface i u d e =
        let there = remove-cases i u e in
        let h = l i u there.1 in
        record {
          same_id = h.same_id;
          shown = h.shown;
          distinct = h.distinct;
          own = h.own;
          linked =
              linked_apart m dropped_map i k u.z_ordered_children dropped_map-KeepsParents
                (λ q. absurd (apart d (some-inj (sym q ∙ linked_to)))) there.0 h.linked;
        }
      where
        apart : (i == p) ≡ false → i ≡ p → ⊥
        apart d e = ground arith

    dropped_map-cases :
        (i : ℕ) (u : RemoteSurface)
        → dropped_map i ≡ some u
        → ((i ≡ p) × (drop_child k parent ≡ u)) ⊎ (((i == p) ≡ false) × (remove k m i ≡ some u))
    unfolding dropped_map
    dropped_map-cases i u e = elim (Bool-cases (i == p)) [
      | inl same ↦ inl ((==_iff i p).0 same, some-inj (rw same at e))
      | inr other ↦ inr (other, rw other at e)
    ]

    dropped_map-IsLinked : IsLinked dropped_map
    dropped_map-IsLinked i u e = elim (dropped_map-cases i u e) [
      | inl same ↦ rw (same.0, sym same.1) parent-IsSurface
      | inr other ↦ other-IsSurface i u other.0 other.1
    ]

none-some : {A : Type 0} {a : A} → none ≡ some a → ⊥
none-some e = cc

parent_of-some :
    (m : Surfaces) (k : ℕ) (s : RemoteSurface) (r : RemoteSubSurface)
    → m k ≡ some s
    → sub_surface_of s ≡ some r
    → parent_of m k ≡ some r.parent
parent_of-some m k s r there child = ap parent_at there ∙ (rw (parent_at, child) refl)

parent_of-none :
    (m : Surfaces) (k : ℕ) (s : RemoteSurface)
    → m k ≡ some s
    → sub_surface_of s ≡ none
    → parent_of m k ≡ none
parent_of-none m k s there root = ap parent_at there ∙ (rw (parent_at, root) refl)

-- A surface that is destroyed.
pub handle_surface_destroy-IsLinked :
    {B : Type 0} (surface_id : ℕ) (c : ClientState B)
    → IsLinked c.surfaces
    → IsLinked (left_by (handle_surface_destroy surface_id c)).surfaces
unfolding handle_surface_destroy unlink dropped_map
handle_surface_destroy-IsLinked surface_id c h = elim (Option-cases (c.surfaces surface_id)) [
  | inl missing ↦ rw (left_by, missing) h
  | inr (s, there) ↦ elim (Option-cases (sub_surface_of s)) [
    | inl root ↦
        rw (left_by, there, root)
          (remove-IsLinked c.surfaces h surface_id (λ i u e q.
            absurd (none-some (sym (parent_of-none c.surfaces surface_id s there root) ∙ q))))
    | inr (r, child) ↦ elim (Option-cases (remove surface_id c.surfaces r.parent)) [
      | inl orphan ↦
          rw (left_by, there, child, orphan)
            (remove-IsLinked c.surfaces h surface_id (λ i u e q.
              let at_parent =
                some-inj (sym q ∙ parent_of-some c.surfaces surface_id s r there child) in
              absurd
                (none-some (sym orphan ∙ ap (remove surface_id c.surfaces) (sym at_parent) ∙ e))))
      | inr (parent, at_p) ↦
          rw (left_by, there, child, at_p, (h surface_id s there).same_id)
            (dropped_map-IsLinked c.surfaces h surface_id r.parent parent at_p
              (parent_of-some c.surfaces surface_id s r there child))
    ]
  ]
]
