-- ===== src/Client/Settled/Lent.antt =====
-- src/client: surfaces that change their role, and those whose local surface was taken for a new one.
use mathlib.Core.Path.{fun_ext, subst}
use wprs.Base.{
  ==_iff, ℕ, true, none, some, ◌==◌, ◌≡◌, ◌≢◌, ◌⊎◌, refl, sym, ap, ◌∙◌, All, inl, inr, Bool-cases,
}
use wprs.Client.{RemoteSurface, Surfaces, insert, wl_surface}
use wprs.Client.Stacking.{contains}
use wprs.Client.Stacking.Ids.{IsDistinct}
use wprs.Client.Subsurface.{sub_surface_of}
use wprs.Client.Subsurface.Linked.{
  parent_at, parent_of, IsSurface, IsLinked, KeepsParents, All-linked, insert-KeepsParents,
  insert-IsLinked, some-inj, keeps-IsSurface,
}

-- Of a surface of the map: all but its local surface.
pub record IsListed (m : Surfaces) (i : ℕ) (s : RemoteSurface) : Type 0 where
  pub same_id : s.id ≡ i
  pub distinct : IsDistinct s.z_ordered_children
  pub own : contains i s.z_ordered_children ≡ true
  pub linked : All (λ c. (c.id ≡ i) ⊎ (parent_of m c.id ≡ some i)) s.z_ordered_children

-- Linked surfaces, of which this one may have lost its local surface.
abbrev pub IsLinkedBut : ℕ → Surfaces → Type 0
IsLinkedBut k m =
    (i : ℕ) (s : RemoteSurface)
    → m i ≡ some s
    → IsListed m i s × (i ≢ k → (l : ℕ) × (wl_surface s ≡ some l))

IsLinked-IsLinkedBut_at :
    (k : ℕ) (m : Surfaces) (i : ℕ) (s : RemoteSurface)
    → IsSurface m i s
    → IsListed m i s × (i ≢ k → (l : ℕ) × (wl_surface s ≡ some l))
IsLinked-IsLinkedBut_at k m i s x = (
  record { same_id = x.same_id; distinct = x.distinct; own = x.own; linked = x.linked },
  λ n. x.shown,
)

pub IsLinked-IsLinkedBut : (k : ℕ) (m : Surfaces) → IsLinked m → IsLinkedBut k m
IsLinked-IsLinkedBut k m h i s e = IsLinked-IsLinkedBut_at k m i s (h i s e)

-- The surface without a role whose local surface was taken out.
pub record Lent (k : ℕ) (s : RemoteSurface) (m : Surfaces) : Type 0 where
  pub before : Surfaces
  pub was_linked : IsLinked before
  pub there : before k ≡ some s
  pub roleless : s.role ≡ none
  pub same : m ≡ insert k (record s { local_surface = none }) before

no_parent : (s : RemoteSurface) → s.role ≡ none → sub_surface_of s ≡ none
unfolding sub_surface_of
no_parent s r = rw r refl

unlinked_parent :
    (s : RemoteSurface) (p : ℕ) → sub_surface_of s ≡ none → parent_at (some s) ≡ some p → ⊥
unlinked_parent s p r e = cc (rw (parent_at, r) at e)

-- A surface that is no subsurface is no one's child.
free-KeepsParents :
    (m : Surfaces) (k : ℕ) (s t : RemoteSurface)
    → m k ≡ some s
    → sub_surface_of s ≡ none
    → KeepsParents m (insert k t m)
free-KeepsParents m k s t there r =
    insert-KeepsParents m k t (λ p e. absurd (unlinked_parent s p r (sym (ap parent_at there) ∙ e)))

-- A surface that is no subsurface gets another role.
pub rerole-IsLinked :
    (m : Surfaces) (k : ℕ) (s t : RemoteSurface) (l : ℕ)
    → IsLinked m
    → m k ≡ some s
    → sub_surface_of s ≡ none
    → t.id ≡ s.id
    → t.z_ordered_children ≡ s.z_ordered_children
    → wl_surface t ≡ some l
    → IsLinked (insert k t m)
rerole-IsLinked m k s t l h there r i z shown =
    let keeps = free-KeepsParents m k s t there r in
    let x = h k s there in
    insert-IsLinked m k t h keeps (record {
      same_id = i ∙ x.same_id;
      shown = (l, shown);
      distinct = rw z x.distinct;
      own = rw z x.own;
      linked =
          subst (All (λ c. (c.id ≡ k) ⊎ (parent_of (insert k t m) c.id ≡ some k))) (sym z)
            (All-linked m (insert k t m) k s.z_ordered_children keeps x.linked);
    })

pub Lent-IsLinkedBut : (k : ℕ) (s : RemoteSurface) (m : Surfaces) → Lent k s m → IsLinkedBut k m
Lent-IsLinkedBut k s m h =
    let u : RemoteSurface = record s { local_surface = none } in
    let after : Surfaces = insert k u h.before in
    let keeps = free-KeepsParents h.before k s u h.there (no_parent s h.roleless) in
    let x = h.was_linked k s h.there in
    let linked : IsListed after k u = record {
      same_id = x.same_id;
      distinct = x.distinct;
      own = x.own;
      linked = All-linked h.before after k s.z_ordered_children keeps x.linked;
    } in
    subst (IsLinkedBut k) (sym h.same) (λ i t e. elim (Bool-cases (i == k)) [
      | inl same ↦
          let at_k = (==_iff i k).0 same in
          let is_u : u ≡ t = some-inj (rw same at e) in
          (rw (at_k, sym is_u) linked, λ n. absurd (n at_k))
      | inr other ↦
          let y = keeps-IsSurface h.before after i t keeps (h.was_linked i t (rw other at e)) in
          IsLinked-IsLinkedBut_at k after i t y
    ])

insert-insert :
    (k : ℕ) (s t : RemoteSurface) (m : Surfaces) → insert k t (insert k s m) ≡ insert k t m
insert-insert k s t m =
    fun_ext (λ j. elim (Bool-cases (j == k)) [ inl e ↦ rw e refl | inr n ↦ rw n refl ])

-- A surface that gets a role which holds its local surface.
pub Lent-IsLinked :
    (k : ℕ) (s t : RemoteSurface) (m : Surfaces) (l : ℕ)
    → Lent k s m
    → t.id ≡ s.id
    → t.z_ordered_children ≡ s.z_ordered_children
    → wl_surface t ≡ some l
    → IsLinked (insert k t m)
Lent-IsLinked k s t m l h i z shown =
    subst IsLinked
      (sym
        (ap (insert k t) h.same ∙ insert-insert k (record s { local_surface = none }) t h.before))
      (rerole-IsLinked h.before k s t l h.was_linked h.there (no_parent s h.roleless) i z shown)
