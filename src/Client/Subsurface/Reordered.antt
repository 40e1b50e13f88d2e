-- ===== src/Client/Subsurface/Reordered.antt =====
-- src/client/subsurface.rs: reorder_subsurfaces, on surfaces that refer to each other.
use wprs.Base.{ℕ, some, List, [], ◌∷◌, ◌≡◌, ◌⊎◌, inl, inr, sym, ap, ◌∙◌, Option-cases}
use wprs.Wayland.{SubsurfacePosition, SurfaceState}
use wprs.Client.{
  RemoteSurface, Asked, Compositor, left_by, lift, for_each, get, put, ask, Surfaces, insert,
  wl_surface,
}
use wprs.Client.Stacking.{reorder_children}
use wprs.Client.Stacking.Ids.{IsDistinct}
use wprs.Client.Stacking.Kept.{reorder_children-keeps}
use wprs.Client.Subsurface.{
  sub_surface_of, children_of, resolve_move, resolve_moves, place_children, reorder_subsurfaces,
}
use wprs.Client.Subsurface.Linked.{
  parent_at, parent_of, IsLinked, All-linked, insert-KeepsParents, insert-IsLinked,
}
use wprs.Client.Subsurface.Outcomes.{
  Takes, >>=-Takes, for_each-Takes, ask-Takes, lift-Takes, get-Takes, pure-Takes,
}

module _ {B : Type 0} (compositor : Compositor B) where
  resolve_move-Takes : (P : Surfaces → Type 0) (m : ℕ × ℕ) → Takes P P (resolve_move compositor m)
  unfolding resolve_move
  resolve_move-Takes P (x, y) =
      >>=-Takes P P P (get x) _ (get-Takes P x) (λ m p. p)
        (λ s.
          >>=-Takes P P P (lift (sub_surface_of s)) _ (lift-Takes P _) (λ m p. p)
            (λ sub.
              >>=-Takes P P P (get y) _ (get-Takes P y) (λ m p. p)
                (λ t.
                  >>=-Takes P P P (lift (wl_surface t)) _ (lift-Takes P _) (λ m p. p)
                    (λ wl. pure-Takes P _))))

  resolve_moves-Takes :
      (P : Surfaces → Type 0) (ms : List (ℕ × ℕ)) → Takes P P (resolve_moves compositor ms)
  unfolding resolve_moves
  resolve_moves-Takes P [] = pure-Takes P []
  resolve_moves-Takes P (m ∷ ms) =
      >>=-Takes P P P (resolve_move compositor m) _ (resolve_move-Takes P m) (λ m p. p)
        (λ r.
          >>=-Takes P P P (resolve_moves compositor ms) _ (resolve_moves-Takes P ms) (λ m p. p)
            (λ rs. pure-Takes P _))

  -- A surface whose children are in another order.
  reordered-IsLinked :
      (m : Surfaces)
      → IsLinked m
      → (k : ℕ) (s : RemoteSurface) → m k ≡ some s
      → (new_order z : List SubsurfacePosition) (moves : List (ℕ × ℕ)) → IsDistinct new_order
      → reorder_children new_order s.z_ordered_children ≡ some (z, moves)
      → IsLinked (insert k (record s { z_ordered_children = z }) m)
  unfolding wl_surface sub_surface_of
  reordered-IsLinked m l k s there new_order z moves n e =
      let t : RemoteSurface = record s { z_ordered_children = z } in
      let h = l k s there in
      let keeps = insert-KeepsParents m k t (λ p q. ap parent_at (sym there) ∙ q) in
      let kept = reorder_children-keeps new_order s.z_ordered_children z moves n h.distinct e in
      insert-IsLinked m k t l keeps (record {
        same_id = h.same_id;
        shown = h.shown;
        distinct = kept.0;
        own = kept.1 k h.own;
        linked =
            All-linked m (insert k t m) k z keeps
              (kept.2 (λ x. (x ≡ k) ⊎ (parent_of m x ≡ some k)) h.linked);
      })

  -- The rest of reorder_subsurfaces reads and asks.
  place_children-Takes :
      (P : Surfaces → Type 0) (surface_id : ℕ) (ms : List (ℕ × ℕ))
      → Takes P P (place_children compositor surface_id ms)
  unfolding place_children
  place_children-Takes P surface_id ms =
      >>=-Takes P P P (resolve_moves compositor ms) _ (resolve_moves-Takes P ms) (λ m p. p)
        (λ moves.
          >>=-Takes P P P (for_each moves (λ m. ask (Asked.place_above m.0 m.1))) _
            (for_each-Takes P moves _ (λ m. ask-Takes P _)) (λ m p. p)
            (λ u.
              >>=-Takes P P P (get surface_id) _ (get-Takes P surface_id) (λ m p. p)
                (λ s. for_each-Takes P (children_of surface_id s) _ (λ child.
                  >>=-Takes P P P (get child.id) _ (get-Takes P child.id) (λ m p. p)
                    (λ t.
                      >>=-Takes P P P (lift (sub_surface_of t)) _ (lift-Takes P _) (λ m p. p)
                        (λ sub. ask-Takes P _))))))

  -- A surface whose children are reordered, also when that fails.
  pub reorder_subsurfaces-IsLinked :
      (surface_id : ℕ) (state : SurfaceState)
      → IsDistinct state.z_ordered_children
      → Takes IsLinked IsLinked (reorder_subsurfaces compositor surface_id state)
  unfolding reorder_subsurfaces get put
  reorder_subsurfaces-IsLinked surface_id state n = record {
    run = λ c h. elim (Option-cases (c.surfaces surface_id)) [
      | inl missing ↦ rw (left_by, missing) h
      | inr (s, there) ↦
          elim (Option-cases (reorder_children state.z_ordered_children s.z_ordered_children)) [
            | inl out ↦ rw (left_by, there, out) h
            | inr ((z, moves), e) ↦
                rw (left_by, there, e)
                  ((place_children-Takes IsLinked surface_id moves).run _ (
                    reordered-IsLinked c.surfaces h surface_id s there state.z_ordered_children z
                      moves n e))
          ]
    ];
  }
