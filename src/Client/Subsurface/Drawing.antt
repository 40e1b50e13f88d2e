-- ===== src/Client/Subsurface/Drawing.antt =====
-- src/client/subsurface.rs: the recursion of commit_sync_children_impl over the surfaces of a tree.
use mathlib.Core.Path.{subst}
use wprs.Base.{
  ℕ, zero, suc, ◌<◌, ◌≤◌, Bool, true, false, not, Option, none, some, List, [], ◌∷◌, ◌++◌, ◌==◌,
  ◌≡◌, ◌⊎◌, inl, inr, refl, sym, ap, ◌∙◌, arith, if◌then◌else◌, ◌||◌, filter, ltb, length, All,
  All-impl, Bool-cases, Option-cases, ==_iff,
}
use wprs.Geometry.{ℤ, Rectangle}
use wprs.Wayland.{SubsurfacePosition}
use wprs.Client.{
  RemoteBuffer, RemoteSurface, Asked, Compositor, ClientState, Outcome, Action, ◌>>=◌, pure,
  for_each, get, put, ask, Surfaces, insert, attach_to, everything, limited_damage, draw_dirty,
  draw_buffer,
}
use wprs.Client.Subsurface.{
  sub_surface_of, children_of, commit_sync_children_impl, commit_sync_children,
}
use wprs.Client.Subsurface.Linked.{
  parent_at, parent_of, IsLinked, KeepsParents, some-inj, insert-KeepsParents, replace-IsLinked,
}
use wprs.Client.Subsurface.Lookup.{parent_of-some}

-- Each child that a surface lists has a smaller rank: there are no cycles.
abbrev pub Descends : (ℕ → ℕ) → Surfaces → Type 0
Descends rank m =
    (i : ℕ) (s : RemoteSurface)
    → m i ≡ some s
    → All (λ c. (c.id ≡ i) ⊎ (rank c.id < rank i)) s.z_ordered_children

-- What drawing keeps.
abbrev Same : (ℕ → ℕ) → Surfaces → Surfaces → Type 0
Same rank m m' = IsLinked m' × Descends rank m' × KeepsParents m m'

Same-trans :
    (rank : ℕ → ℕ) (m m' m'' : Surfaces) → Same rank m m' → Same rank m' m'' → Same rank m m''
Same-trans rank m m' m'' a b = (b.0, b.1, λ j p e. b.2 j p (a.2 j p e))

-- Some actions end well, and leave surfaces that are the same in this sense.
abbrev Ends : {B : Type 0} → (ℕ → ℕ) → ClientState B → Outcome B (Unit {0}) → Type 0
Ends {B = B} rank c o =
    (c' : ClientState B) × (o ≡ Outcome.ok c' tt) × Same rank c.surfaces c'.surfaces

module _ {B : Type 0} (compositor : Compositor B) (rank : ℕ → ℕ)
    (attached : (asked : List Asked) (b wl : ℕ) → compositor.attaches asked b wl ≡ true) where
  -- Asking leaves the surfaces.
  for_each-ask :
      {A : Type 0} (xs : List A) (f : A → Asked) (c : ClientState B)
      → (c' : ClientState B) × (for_each xs (λ x. ask (f x)) c ≡ Outcome.ok c' tt)
        × (c'.surfaces ≡ c.surfaces)
  unfolding ask
  for_each-ask [] f c = (c, refl, refl)
  for_each-ask (x ∷ xs) f c = for_each-ask xs f (record c { asked = c.asked ++ f x ∷ [] })

  limited_damage-ask :
      (wl : ℕ) (d : Option (List (Rectangle ℤ))) (c : ClientState B)
      → (c' : ClientState B) × (limited_damage compositor wl d c ≡ Outcome.ok c' tt)
        × (c'.surfaces ≡ c.surfaces)
  unfolding limited_damage ask
  limited_damage-ask wl none c = (_, refl, refl)
  limited_damage-ask wl (some rects) c = elim (Bool-cases (ltb (length rects) 256)) [
    | inl few ↦
        let r = for_each-ask rects (λ r. Asked.damage_buffer wl r) c in (r.0, rw few r.1, r.2)
    | inr many ↦
        (record c { asked = c.asked ++ Asked.damage_buffer wl everything ∷ [] }, rw many refl, refl)
  ]

  replace-Descends :
      (m : Surfaces) (k : ℕ) (s t : RemoteSurface)
      → Descends rank m
      → m k ≡ some s
      → t.z_ordered_children ≡ s.z_ordered_children
      → Descends rank (insert k t m)
  replace-Descends m k s t d there z i u e = elim (Bool-cases (i == k)) [
    | inl same ↦
        let is_t : t ≡ u = some-inj (rw same at e) in
        let at_k = (==_iff i k).0 same in
        subst (λ v. All (λ c. (c.id ≡ i) ⊎ (rank c.id < rank i)) v.z_ordered_children) is_t
          (subst (λ cs. All (λ c. (c.id ≡ i) ⊎ (rank c.id < rank i)) cs) (sym z)
            (d i s (ap m at_k ∙ there)))
    | inr other ↦ d i u (rw other at e)
  ]

  -- The surface with its buffer drawn.
  abbrev drawn : RemoteSurface → RemoteBuffer → RemoteSurface
  drawn s b = record s { buffer = some (record b { dirty = false }); frame_damage = none }

  drawn-Same :
      (m : Surfaces) (k : ℕ) (s t : RemoteSurface)
      → IsLinked m
      → Descends rank m
      → m k ≡ some s
      → t.id ≡ s.id
      → t.role ≡ s.role
      → t.local_surface ≡ s.local_surface
      → t.z_ordered_children ≡ s.z_ordered_children
      → Same rank m (insert k t m)
  unfolding sub_surface_of
  drawn-Same m k s t l d there i r w z = (
    replace-IsLinked m k s t l there i r w z,
    replace-Descends m k s t d there z,
    insert-KeepsParents m k t (λ p q. rw r (ap parent_at (sym there) ∙ q)),
  )

  draw_dirty-Ends :
      (k : ℕ) (s : RemoteSurface) (wl : ℕ) (b : Option RemoteBuffer) (c : ClientState B)
      → IsLinked c.surfaces
      → Descends rank c.surfaces
      → c.surfaces k ≡ some s
      → Ends rank c (draw_dirty compositor k s wl b c)
  unfolding draw_dirty attach_to ask put
  draw_dirty-Ends k s wl none c l d there = (c, refl, (l, d, λ j p e. e))
  draw_dirty-Ends k s wl (some b) c l d there = elim (Bool-cases b.dirty) [
    | inr clean ↦ (c, rw clean refl, (l, d, λ j p e. e))
    | inl dirty ↦
        let c1 : ClientState B = record c {
          asked = c.asked ++ Asked.attach wl b.active_buffer ∷ [];
        } in
        let r = limited_damage-ask wl s.frame_damage c1 in
        let t = drawn s b in
        (
          record r.0 { surfaces = insert k t r.0.surfaces },
          rw (dirty, ◌>>=◌, attach_to, attached c.asked b.active_buffer wl, r.1) refl,
          rw r.2 (drawn-Same c.surfaces k s t l d there refl refl refl refl),
        )
  ]

  draw_buffer-Ends :
      (k : ℕ) (s : RemoteSurface) (c : ClientState B)
      → IsLinked c.surfaces
      → Descends rank c.surfaces
      → c.surfaces k ≡ some s
      → Ends rank c (draw_buffer compositor k c)
  unfolding draw_buffer get ask
  draw_buffer-Ends k s c l d there =
      let wl = (l k s there).shown in
      let r = draw_dirty-Ends k s wl.0 s.buffer c l d there in
      (
        record r.0 { asked = r.0.asked ++ Asked.commit wl.0 ∷ [] },
        rw (draw_buffer, ◌>>=◌, there, wl.1, r.1) refl,
        r.2,
      )

  -- A loop over children that are there, each with a smaller rank.
  for_each-Ends :
      (i : ℕ) (cs : List SubsurfacePosition) (f : SubsurfacePosition → Action B (Unit {0}))
      → ((child : SubsurfacePosition) (c : ClientState B)
          → IsLinked c.surfaces
          → Descends rank c.surfaces
          → parent_of c.surfaces child.id ≡ some i
          → rank child.id < rank i
          → Ends rank c (f child c))
      → (c : ClientState B) → IsLinked c.surfaces
      → Descends rank c.surfaces
      → All (λ child. (parent_of c.surfaces child.id ≡ some i) × (rank child.id < rank i)) cs
      → Ends rank c (for_each cs f c)
  for_each-Ends i [] f each c l d a = (c, refl, (l, d, λ j p e. e))
  for_each-Ends i (x ∷ xs) f each c l d a =
      let r = each x c l d a.0.0 a.0.1 in
      let rest = for_each-Ends i xs f each r.0 r.2.0 r.2.1 (
        All-impl (λ child. (parent_of c.surfaces child.id ≡ some i) × (rank child.id < rank i))
          (λ child. (parent_of r.0.surfaces child.id ≡ some i) × (rank child.id < rank i)) xs
          (λ child h. (r.2.2 child.id i h.0, h.1)) a.1) in
      (
        rest.0,
        rw (for_each, ◌>>=◌, r.1) rest.1,
        Same-trans rank c.surfaces r.0.surfaces rest.0.surfaces r.2 rest.2,
      )

  children-below :
      (m : Surfaces) (i : ℕ) (cs : List SubsurfacePosition)
      → All (λ c. (c.id ≡ i) ⊎ (parent_of m c.id ≡ some i)) cs
      → All (λ c. (c.id ≡ i) ⊎ (rank c.id < rank i)) cs
      → All
          (λ c. (parent_of m c.id ≡ some i) × (rank c.id < rank i))
          (filter (λ c. not (c.id == i)) cs)
  children-below m i [] a b = tt
  children-below m i (c ∷ cs) a b = elim (Bool-cases (c.id == i)) [
    | inl self ↦ rw self (children-below m i cs a.1 b.1)
    | inr other ↦ rw other (
      (
        elim a.0 [ inl e ↦ absurd (apart c.id i other e) | inr e ↦ e ],
        elim b.0 [ inl e ↦ absurd (apart c.id i other e) | inr e ↦ e ],
      ),
      children-below m i cs a.1 b.1,
    )
  ]
    where
      apart : (x y : ℕ) → (x == y) ≡ false → x ≡ y → ⊥
      apart x y d e = ground arith

  draw_if-Ends :
      (b : Bool) (k : ℕ) (s : RemoteSurface) (c : ClientState B)
      → IsLinked c.surfaces
      → Descends rank c.surfaces
      → c.surfaces k ≡ some s
      → Ends rank c ((if b then draw_buffer compositor k else pure tt) c)
  draw_if-Ends true k s c l d there = draw_buffer-Ends k s c l d there
  draw_if-Ends false k s c l d there = (c, refl, (l, d, λ j p e. e))

  commit_sync_children_impl-Ends :
      (fuel k : ℕ) (b : Bool) (p : ℕ) (c : ClientState B)
      → rank k < fuel
      → IsLinked c.surfaces
      → Descends rank c.surfaces
      → parent_of c.surfaces k ≡ some p
      → Ends rank c (commit_sync_children_impl compositor fuel k b c)
  unfolding commit_sync_children_impl get
  commit_sync_children_impl-Ends zero k b p c h l d e = absurd (omega arith)
  commit_sync_children_impl-Ends (suc fuel) k b p c h l d e =
      let t = parent_of-some c.surfaces k p e in
      let first = draw_if-Ends (b || t.1.sync) k t.0 c l d t.2 in
      let again = parent_of-some first.0.surfaces k p (first.2.2 k p e) in
      let below =
        children-below first.0.surfaces k again.0.z_ordered_children
          ((first.2.0 k again.0 again.2).linked) (first.2.1 k again.0 again.2) in
      let rest =
        for_each-Ends k (children_of k again.0)
          (λ child. commit_sync_children_impl compositor fuel child.id (b || t.1.sync))
          (λ child c' l' d' e' lt.
            commit_sync_children_impl-Ends fuel child.id (b || t.1.sync) k c' (omega arith) l' d'
              e')
          first.0 first.2.0 first.2.1 below in
      (
        rest.0,
        rw (commit_sync_children_impl, ◌>>=◌, t.2, t.3, first.1, again.2) rest.1,
        Same-trans rank c.surfaces first.0.surfaces rest.0.surfaces first.2 rest.2,
      )

  children-Ends :
      (fuel k : ℕ) (s : RemoteSurface) (c : ClientState B)
      → rank k ≤ fuel
      → IsLinked c.surfaces
      → Descends rank c.surfaces
      → c.surfaces k ≡ some s
      → Ends rank c (
          for_each
            (children_of k s)
            (λ child. commit_sync_children_impl compositor fuel child.id false)
            c)
  children-Ends fuel k s c h l d there =
      for_each-Ends k (children_of k s)
        (λ child. commit_sync_children_impl compositor fuel child.id false)
        (λ child c' l' d' e' lt.
          commit_sync_children_impl-Ends fuel child.id false k c' (omega arith) l' d' e')
        c l d
        (children-below c.surfaces k s.z_ordered_children ((l k s there).linked) (d k s there))

  -- `commit_sync_children` with fuel for the rank of the surface returns without an error on
  -- surfaces that refer to each other, when each child that is listed has a smaller rank than its
  -- parent and the compositor takes every buffer; afterwards the surfaces still do so, and no
  -- subsurface has another parent.
  pub commit_sync_children-enough :
      (fuel surface_id : ℕ) (c : ClientState B)
      → rank surface_id ≤ fuel
      → IsLinked c.surfaces
      → Descends rank c.surfaces
      → (c' : ClientState B) × (commit_sync_children compositor fuel surface_id c
          ≡ Outcome.ok c' tt)
        × (IsLinked c'.surfaces × Descends rank c'.surfaces × KeepsParents c.surfaces c'.surfaces)
  unfolding commit_sync_children
  commit_sync_children-enough fuel k c h l d = elim (Option-cases (c.surfaces k)) [
    | inl missing ↦ (c, rw (commit_sync_children, missing) refl, (l, d, λ j p e. e))
    | inr (s, there) ↦ elim (Option-cases (sub_surface_of s)) [
      | inl root ↦
          let r = children-Ends fuel k s c h l d there in
          (r.0, rw (commit_sync_children, there, root) r.1, r.2)
      | inr (r, e) ↦ elim (Bool-cases r.sync) [
        | inl synced ↦ (c, rw (commit_sync_children, there, e, synced) refl, (l, d, λ j p e. e))
        | inr apart ↦
            let q = children-Ends fuel k s c h l d there in
            (q.0, rw (commit_sync_children, there, e, apart) q.1, q.2)
      ]
    ]
  ]
