-- ===== src/Client/Subsurface/Linking.antt =====
-- src/client/subsurface.rs: maps of surfaces in which one becomes a subsurface, or is new.
use mathlib.Core.Path.{subst}
use wprs.Base.{
  ℕ, true, false, none, some, List, [], ◌∷◌, ◌++◌, ◌==◌, ◌≡◌, ◌⊎◌, inl, inr, refl, sym, ap, ◌∙◌,
  any, All, Bool-cases, ==_iff, ==-true,
}
use wprs.Geometry.{pos}
use wprs.Wayland.{SubsurfacePosition}
use wprs.Client.{
  RemoteRole, RemoteSurface, Surfaces, insert, wl_surface, fresh_surface, as_sub_surface,
}
use wprs.Client.Stacking.{contains}
use wprs.Client.Stacking.Ids.{append-one-IsDistinct, contains-nil, contains-cons, contains-append}
use wprs.Client.Subsurface.{sub_surface_of, push_child}
use wprs.Client.Subsurface.Linked.{
  parent_at, parent_of, IsSurface, IsLinked, KeepsParents, keeps-IsSurface, some-inj,
  insert-KeepsParents, insert-IsLinked,
}

abbrev pub entry : ℕ → SubsurfacePosition
entry k = record { id = k; position = record { x = pos 0; y = pos 0 } }

-- What push_child keeps, and what it makes of the children.
push_child-cases :
    (k : ℕ) (t : RemoteSurface)
    → ((contains k t.z_ordered_children ≡ true) × (push_child k t ≡ t))
      ⊎ ((contains k t.z_ordered_children ≡ false)
          × (push_child k t
              ≡ record t { z_ordered_children = t.z_ordered_children ++ entry k ∷ [] }))
unfolding push_child contains
push_child-cases k t = elim (Bool-cases (any (λ child. child.id == k) t.z_ordered_children)) [
  | inl h ↦ inl (h, rw h refl)
  | inr h ↦ inr (h, rw h refl)
]

contains-one : (k : ℕ) (cs : List SubsurfacePosition) → contains k (cs ++ entry k ∷ []) ≡ true
contains-one k cs = elim (Bool-cases (contains k cs)) [
  | inl e ↦ rw (contains-append k cs (entry k ∷ []), e) refl
  | inr e ↦
      rw (contains-append k cs (entry k ∷ []), e, contains-cons k (entry k) [], ==-true k k refl)
        refl
]

All-append-one :
    (P : SubsurfacePosition → Type 0) (cs : List SubsurfacePosition) (x : SubsurfacePosition)
    → All P cs
    → P x
    → All P (cs ++ x ∷ [])
All-append-one P [] x a h = (h, tt)
All-append-one P (c ∷ cs) x a h = (a.0, All-append-one P cs x a.1 h)

-- A parent in a map where its new child has it as its parent.
push_child-IsSurface :
    (m : Surfaces) (p k : ℕ) (t : RemoteSurface)
    → IsSurface m p t
    → (k ≡ p) ⊎ (parent_of m k ≡ some p)
    → IsSurface m p (push_child k t)
unfolding wl_surface
push_child-IsSurface m p k t h link = elim (push_child-cases k t) [
  | inl same ↦ subst (IsSurface m p) (sym same.1) h
  | inr pushed ↦ subst (IsSurface m p) (sym pushed.1) (record {
    same_id = h.same_id;
    shown = h.shown;
    distinct = append-one-IsDistinct t.z_ordered_children (entry k) h.distinct pushed.0;
    own = rw (contains-append p t.z_ordered_children (entry k ∷ []), h.own) refl;
    linked =
        All-append-one (λ c. (c.id ≡ p) ⊎ (parent_of m c.id ≡ some p)) t.z_ordered_children
          (entry k) h.linked link;
  })
]

push_child-parent :
    (k : ℕ) (t : RemoteSurface) → parent_at (some (push_child k t)) ≡ parent_at (some t)
unfolding sub_surface_of
push_child-parent k t = elim (push_child-cases k t) [
  | inl same ↦ ap (λ s. parent_at (some s)) same.1
  | inr pushed ↦ ap (λ s. parent_at (some s)) pushed.1
]

pub push_child-wl_surface : (k : ℕ) (t : RemoteSurface) → wl_surface (push_child k t) ≡ wl_surface t
unfolding wl_surface
push_child-wl_surface k t = elim (push_child-cases k t) [
  | inl same ↦ ap wl_surface same.1
  | inr pushed ↦ ap wl_surface pushed.1
]

-- The surface that got the role.
abbrev pub with_role : ℕ → ℕ → ℕ → RemoteSurface → RemoteSurface
with_role p n l s = record s {
  local_surface = none;
  role = some (
      RemoteRole.sub_surface
        (record { parent = p; sync = true; local_subsurface = n; local_surface = l }));
}

pub no_parent : (s : RemoteSurface) → s.role ≡ none → parent_at (some s) ≡ none
unfolding sub_surface_of
no_parent s e = rw e refl

-- A surface without a role becomes a subsurface, and its parent lists it.
module _ (m : Surfaces) (l : IsLinked m) (p k : ℕ) (t s : RemoteSurface) (at_p : m p ≡ some t)
    (at_k : m k ≡ some s) (free : s.role ≡ none) where
  unfoldable pub with_parent : Surfaces
  with_parent = insert p (push_child k t) m

  -- The surface itself is as it was, also when it is its own parent.
  pub at_k-with_parent : with_parent k ≡ some s
  unfolding with_parent
  at_k-with_parent = elim (Bool-cases (k == p)) [
    | inl same ↦ rw same (elim (push_child-cases k t) [
      | inl there ↦ ap some there.1 ∙ sym at_p ∙ ap m (sym ((==_iff k p).0 same)) ∙ at_k
      | inr pushed ↦ absurd (no_own (sym pushed.0 ∙ rw ((==_iff k p).0 same) ((l p t at_p).own)))
    ])
    | inr other ↦ rw other at_k
  ]
    where
      no_own : false ≡ true → ⊥
      no_own e = cc

  unfoldable pub linked_map : ℕ → ℕ → Surfaces
  unfolding with_parent
  linked_map n w = insert k (with_role p n w s) with_parent

  linked_map-KeepsParents : (n w : ℕ) → KeepsParents m (linked_map n w)
  unfolding with_parent linked_map
  linked_map-KeepsParents n w j q e = elim (Bool-cases (j == k)) [
    | inl same ↦ absurd (
        none-some (
          sym (no_parent s free)
          ∙ ap parent_at (sym at_k)
          ∙ ap (parent_of m) (sym ((==_iff j k).0 same))
          ∙ e))
    | inr other ↦ elim (Bool-cases (j == p)) [
      | inl same ↦
          rw (other, same)
            (push_child-parent k t
              ∙ ap parent_at (sym at_p)
              ∙ ap (parent_of m) (sym ((==_iff j p).0 same))
              ∙ e)
      | inr apart ↦ rw (other, apart) e
    ]
  ]
    where
      none-some : {q : ℕ} → none ≡ some q → ⊥
      none-some e = cc

  linked_map-parent : (n w : ℕ) → parent_of (linked_map n w) k ≡ some p
  unfolding with_parent linked_map sub_surface_of as_sub_surface
  linked_map-parent n w = rw (==-true k k refl) refl

  subsurface-IsSurface : (n w : ℕ) → IsSurface (linked_map n w) k (with_role p n w s)
  unfolding wl_surface
  subsurface-IsSurface n w =
      let h = keeps-IsSurface m (linked_map n w) k s (linked_map-KeepsParents n w) (l k s at_k) in
      record {
        same_id = h.same_id;
        shown = (w, refl);
        distinct = h.distinct;
        own = h.own;
        linked = h.linked;
      }

  parent-IsSurface : (n w : ℕ) → IsSurface (linked_map n w) p (push_child k t)
  parent-IsSurface n w =
      push_child-IsSurface (linked_map n w) p k t
        (keeps-IsSurface m (linked_map n w) p t (linked_map-KeepsParents n w) (l p t at_p))
        (inr (linked_map-parent n w))

  linked_map-cases :
      (n w i : ℕ) (u : RemoteSurface)
      → linked_map n w i ≡ some u
      → ((i ≡ k) × (with_role p n w s ≡ u)) ⊎ ((i ≡ p) × (push_child k t ≡ u)) ⊎ (m i ≡ some u)
  unfolding with_parent linked_map
  linked_map-cases n w i u e = elim (Bool-cases (i == k)) [
    | inl same ↦ inl ((==_iff i k).0 same, some-inj (rw same at e))
    | inr other ↦ elim (Bool-cases (i == p)) [
      | inl same ↦ inr (inl ((==_iff i p).0 same, some-inj (rw (other, same) at e)))
      | inr apart ↦ inr (inr (rw (other, apart) at e))
    ]
  ]

  pub linked_map-IsLinked : (n w : ℕ) → IsLinked (linked_map n w)
  linked_map-IsLinked n w i u e = elim (linked_map-cases n w i u e) [
    | inl child ↦ rw (child.0, sym child.1) (subsurface-IsSurface n w)
    | inr (inl parent) ↦ rw (parent.0, sym parent.1) (parent-IsSurface n w)
    | inr (inr there) ↦
        keeps-IsSurface m (linked_map n w) i u (linked_map-KeepsParents n w) (l i u there)
  ]

pub free_surface :
    (s : RemoteSurface) (l : ℕ) → s.role ≡ none → wl_surface s ≡ some l → s.local_surface ≡ some l
unfolding wl_surface
free_surface s l e h = rw e at h

fresh-IsSurface : (m : Surfaces) (client_id k l : ℕ) → IsSurface m k (fresh_surface client_id k l)
unfolding fresh_surface wl_surface
fresh-IsSurface m client_id k l = record {
  same_id = refl;
  shown = (l, refl);
  distinct = (contains-nil k, tt);
  own = rw (contains-cons k (entry k) [], ==-true k k refl) refl;
  linked = (inl refl, tt);
}

pub fresh-IsLinked :
    (m : Surfaces) (client_id k l : ℕ)
    → IsLinked m
    → m k ≡ none
    → IsLinked (insert k (fresh_surface client_id k l) m)
fresh-IsLinked m client_id k l h e =
    insert-IsLinked m k (fresh_surface client_id k l) h
      (insert-KeepsParents m k (fresh_surface client_id k l)
        (λ p q. absurd (none-some (sym (ap parent_at e) ∙ q))))
      (fresh-IsSurface _ client_id k l)
  where
    none-some : {q : ℕ} → none ≡ some q → ⊥
    none-some e = cc

abbrev pub Extends : Surfaces → Surfaces → Type 0
Extends m m' = (j : ℕ) (s : RemoteSurface) → m j ≡ some s → m' j ≡ some s

pub insert-Extends :
    (m : Surfaces) (k : ℕ) (t : RemoteSurface) → m k ≡ none → Extends m (insert k t m)
insert-Extends m k t e j s h = elim (Bool-cases (j == k)) [
  | inl same ↦ absurd (none-some (sym e ∙ ap m (sym ((==_iff j k).0 same)) ∙ h))
  | inr other ↦ rw other h
]
  where
    none-some : none ≡ some s → ⊥
    none-some e = cc
