-- ===== src/Client/Subsurface/Lookup.antt =====
-- src/client/subsurface.rs: subsurfaces that are found in the map of surfaces.
use wprs.Base.{
  ℕ, true, false, not, Option, none, some, List, [], ◌∷◌, ◌==◌, ◌≡◌, ◌⊎◌, inl, inr, refl, arith,
  filter, All, Bool-cases,
}
use wprs.Wayland.{SubsurfacePosition}
use wprs.Client.{RemoteSubSurface, RemoteRole, RemoteSurface, Surfaces, as_sub_surface}
use wprs.Client.Subsurface.{sub_surface_of, is_some}
use wprs.Client.Subsurface.Linked.{parent_at, parent_of, some-inj}

-- A subsurface is in the map, with its role.
pub parent_of-some :
    (m : Surfaces) (k p : ℕ)
    → parent_of m k ≡ some p
    → (s : RemoteSurface) × (r : RemoteSubSurface) × (m k ≡ some s)
      × (sub_surface_of s ≡ some r)
      × (r.parent ≡ p)
parent_of-some m k p e = found (m k) e
  where
    role :
        (s : RemoteSurface) (o : Option RemoteSubSurface)
        → sub_surface_of s ≡ o
        → (elim o [ none ↦ none | some r ↦ some r.parent ]) ≡ some p
        → (r : RemoteSubSurface) × (sub_surface_of s ≡ some r) × (r.parent ≡ p)
    role s none h e = cc
    role s (some r) h e = (r, h, some-inj e)

    found :
        (o : Option RemoteSurface)
        → parent_at o ≡ some p
        → (s : RemoteSurface) × (r : RemoteSubSurface) × (o ≡ some s)
          × (sub_surface_of s ≡ some r)
          × (r.parent ≡ p)
    found none e = cc
    found (some s) e = let r = role s (sub_surface_of s) refl e in (s, r.0, refl, r.1, r.2)

pub children-linked :
    (m : Surfaces) (i : ℕ) (cs : List SubsurfacePosition)
    → All (λ c. (c.id ≡ i) ⊎ (parent_of m c.id ≡ some i)) cs
    → All (λ c. parent_of m c.id ≡ some i) (filter (λ c. not (c.id == i)) cs)
children-linked m i [] a = tt
children-linked m i (c ∷ cs) a = elim (Bool-cases (c.id == i)) [
  | inl self ↦ rw self (children-linked m i cs a.1)
  | inr other ↦
      rw other
        (elim a.0 [ inl e ↦ absurd (apart c.id i other e) | inr e ↦ e ], children-linked m i cs a.1)
]
  where
    apart : (x y : ℕ) → (x == y) ≡ false → x ≡ y → ⊥
    apart x y d e = ground arith

pub has_role :
    (s : RemoteSurface) (r : RemoteSubSurface) → sub_surface_of s ≡ some r → is_some s.role ≡ true
unfolding sub_surface_of
has_role s r e = with_role s.role e
  where
    with_role :
        (o : Option RemoteRole)
        → (elim o [ none ↦ none | some q ↦ as_sub_surface q ]) ≡ some r
        → is_some o ≡ true
    with_role none e = cc
    with_role (some q) e = refl

pub parent_at-some :
    (s : RemoteSurface) (r : RemoteSubSurface)
    → sub_surface_of s ≡ some r
    → parent_at (some s) ≡ some r.parent
parent_at-some s r e = rw (parent_at, e) refl
