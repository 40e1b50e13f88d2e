-- ===== src/Client/Subsurface/Linked.antt =====
-- src/client: surfaces and their subsurfaces refer to each other.
use mathlib.Core.Path.{subst}
use wprs.Base.{
  ℕ, true, Option, none, some, List, [], ◌∷◌, ◌==◌, ◌≡◌, ◌⊎◌, inl, inr, refl, sym, ap, ◌∙◌, All,
  Bool-cases, ==_iff, ==-true,
}
use wprs.Wayland.{SubsurfacePosition}
use wprs.Client.{RemoteSurface, Surfaces, insert, wl_surface}
use wprs.Client.Stacking.{contains}
use wprs.Client.Stacking.Ids.{IsDistinct}
use wprs.Client.Subsurface.{sub_surface_of}

-- The parent of a subsurface.
abbrev pub parent_at : Option RemoteSurface → Option ℕ
parent_at none = none
parent_at (some s) = elim (sub_surface_of s) [ none ↦ none | some r ↦ some r.parent ]

abbrev pub parent_of : Surfaces → ℕ → Option ℕ
parent_of m k = parent_at (m k)

-- A surface of the map: it has its own id, a local surface, itself and other children among which no
-- id is twice; the others are in the map as its subsurfaces.
pub record IsSurface (m : Surfaces) (i : ℕ) (s : RemoteSurface) : Type 0 where
  pub same_id : s.id ≡ i
  pub shown : (l : ℕ) × (wl_surface s ≡ some l)
  pub distinct : IsDistinct s.z_ordered_children
  pub own : contains i s.z_ordered_children ≡ true
  pub linked : All (λ c. (c.id ≡ i) ⊎ (parent_of m c.id ≡ some i)) s.z_ordered_children

abbrev pub IsLinked : Surfaces → Type 0
IsLinked m = (i : ℕ) (s : RemoteSurface) → m i ≡ some s → IsSurface m i s

-- No subsurface of the first map has another parent in the second.
abbrev pub KeepsParents : Surfaces → Surfaces → Type 0
KeepsParents m m' = (j p : ℕ) → parent_of m j ≡ some p → parent_of m' j ≡ some p

pub All-linked :
    (m m' : Surfaces) (i : ℕ) (cs : List SubsurfacePosition)
    → KeepsParents m m'
    → All (λ c. (c.id ≡ i) ⊎ (parent_of m c.id ≡ some i)) cs
    → All (λ c. (c.id ≡ i) ⊎ (parent_of m' c.id ≡ some i)) cs
All-linked m m' i [] k a = tt
All-linked m m' i (c ∷ cs) k a =
    (elim a.0 [ inl e ↦ inl e | inr e ↦ inr (k c.id i e) ], All-linked m m' i cs k a.1)

pub keeps-IsSurface :
    (m m' : Surfaces) (i : ℕ) (s : RemoteSurface)
    → KeepsParents m m'
    → IsSurface m i s
    → IsSurface m' i s
keeps-IsSurface m m' i s k h = record {
  same_id = h.same_id;
  shown = h.shown;
  distinct = h.distinct;
  own = h.own;
  linked = All-linked m m' i s.z_ordered_children k h.linked;
}

pub some-inj : {A : Type 0} {a b : A} → some a ≡ some b → a ≡ b
some-inj {A = A} {a = a} e = ap (λ o. elim o [ none ↦ a | some x ↦ x ]) e

pub insert-same : (k : ℕ) (t : RemoteSurface) (m : Surfaces) → insert k t m k ≡ some t
insert-same k t m = rw (==-true k k refl) refl

pub insert-KeepsParents :
    (m : Surfaces) (k : ℕ) (t : RemoteSurface)
    → ((p : ℕ) → parent_of m k ≡ some p → parent_at (some t) ≡ some p)
    → KeepsParents m (insert k t m)
insert-KeepsParents m k t h j p e = elim (Bool-cases (j == k)) [
  | inl same ↦ rw same (h p (ap (parent_of m) (sym ((==_iff j k).0 same)) ∙ e))
  | inr other ↦ rw other e
]

-- An entry of the map that is written.
pub insert-IsLinked :
    (m : Surfaces) (k : ℕ) (t : RemoteSurface)
    → IsLinked m
    → KeepsParents m (insert k t m)
    → IsSurface (insert k t m) k t
    → IsLinked (insert k t m)
insert-IsLinked m k t l keeps h i s e = elim (Bool-cases (i == k)) [
  | inl same ↦
      let at_k = (==_iff i k).0 same in
      let is_t : t ≡ s = some-inj (rw same at e) in rw (at_k, sym is_t) h
  | inr other ↦ keeps-IsSurface m (insert k t m) i s keeps (l i s (rw other at e))
]

-- A surface that takes the place of one with the same role, children and local surface.
pub replace-IsLinked :
    (m : Surfaces) (k : ℕ) (s t : RemoteSurface)
    → IsLinked m
    → m k ≡ some s
    → t.id ≡ s.id
    → t.role ≡ s.role
    → t.local_surface ≡ s.local_surface
    → t.z_ordered_children ≡ s.z_ordered_children
    → IsLinked (insert k t m)
unfolding sub_surface_of wl_surface
replace-IsLinked m k s t l e i r w z =
    let h = l k s e in
    let keeps = insert-KeepsParents m k t (λ p q. rw r (ap parent_at (sym e) ∙ q)) in
    insert-IsLinked m k t l keeps (record {
      same_id = i ∙ h.same_id;
      shown = rw (r, w) h.shown;
      distinct = rw z h.distinct;
      own = rw z h.own;
      linked =
          subst (All (λ c. (c.id ≡ k) ⊎ (parent_of (insert k t m) c.id ≡ some k))) (sym z)
            (All-linked m (insert k t m) k s.z_ordered_children keeps h.linked);
    })
