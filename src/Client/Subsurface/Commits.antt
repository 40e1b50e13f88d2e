-- ===== src/Client/Subsurface/Commits.antt =====
-- src/client/subsurface.rs: the functions that a commit calls, on surfaces that refer to each other.
use wprs.Base.{
  ℕ, zero, suc, Bool, true, false, none, some, ◌≡◌, inl, inr, refl, sym, ap, ◌∙◌, if◌then◌else◌,
  ◌||◌, All-impl, Bool-cases, Option-cases,
}
use wprs.Wayland
use wprs.Wayland.{SubsurfacePosition, SubSurfaceState, SurfaceState}
use wprs.Client.{
  RemoteSubSurface, RemoteRole, RemoteSurface, Compositor, ClientState, Outcome, left_by, ◌>>=◌,
  pure, lift, for_each, get, put, ask, Surfaces, insert, wl_surface, as_sub_surface, or_insert_new,
  draw_buffer,
}
use wprs.Client.Subsurface.{
  sub_surface_of, children_of, set_role, populate_subsurfaces, update, apply,
  commit_sync_children_impl, commit_sync_children, same_sync,
}
use wprs.Client.Subsurface.Linked.{
  parent_at, parent_of, IsLinked, All-linked, insert-KeepsParents, insert-IsLinked,
}
use wprs.Client.Subsurface.Roles.{set_role-IsLinked}
use wprs.Client.Subsurface.Outcomes.{
  Takes, >>=-Takes, for_each-Takes, lift-Takes, get-Takes, pure-Takes, for_each-idle,
  draw_buffer-IsLinked,
}
use wprs.Client.Subsurface.Lookup.{parent_of-some, children-linked, has_role, parent_at-some}

-- A subsurface that gets another mode.
resync-IsLinked :
    (m : Surfaces)
    → IsLinked m
    → (k : ℕ) (s : RemoteSurface) (r : RemoteSubSurface) → m k ≡ some s
    → sub_surface_of s ≡ some r
    → (b : Bool)
    → IsLinked
        (insert k (record s { role = some (RemoteRole.sub_surface (record r { sync = b })) }) m)
unfolding wl_surface sub_surface_of as_sub_surface
resync-IsLinked m l k s r there e b =
    let t : RemoteSurface = record s {
      role = some (RemoteRole.sub_surface (record r { sync = b }));
    } in
    let h = l k s there in
    let keeps =
      insert-KeepsParents m k t
        (λ p q. sym (parent_at-some s r e) ∙ ap parent_at (sym there) ∙ q) in
    insert-IsLinked m k t l keeps (record {
      same_id = h.same_id;
      shown = (r.local_surface, refl);
      distinct = h.distinct;
      own = h.own;
      linked = All-linked m (insert k t m) k s.z_ordered_children keeps h.linked;
    })

module _ {B : Type 0} (compositor : Compositor B) where
  set_role-taken :
      (client_id p k : ℕ) (t : RemoteSurface) (r : RemoteSubSurface) (c : ClientState B)
      → c.surfaces k ≡ some t
      → sub_surface_of t ≡ some r
      → set_role compositor client_id p k c ≡ Outcome.ok c tt
  unfolding set_role get
  set_role-taken client_id p k t r c there e = rw (set_role, ◌>>=◌, there, has_role t r e) refl

  -- On surfaces that refer to each other, whatever roles they have, populating the subsurfaces of
  -- a surface that is there succeeds and changes nothing, so that no child is made with the id of
  -- its parent.
  pub populate_subsurfaces-idle :
      (client_id surface_id : ℕ) (s : RemoteSurface) (c : ClientState B)
      → IsLinked c.surfaces
      → c.surfaces surface_id ≡ some s
      → populate_subsurfaces compositor client_id surface_id c ≡ Outcome.ok c tt
  unfolding populate_subsurfaces get or_insert_new
  populate_subsurfaces-idle client_id surface_id s c h there =
      rw (populate_subsurfaces, ◌>>=◌, there)
        (for_each-idle (children_of surface_id s) _ c (
          All-impl (λ child. parent_of c.surfaces child.id ≡ some surface_id) _
            (children_of surface_id s)
            (λ child e.
              let t = parent_of-some c.surfaces child.id surface_id e in
              rw (or_insert_new, ◌>>=◌, t.2)
                (set_role-taken client_id surface_id child.id t.0 t.1 c t.2 t.3))
            (children-linked c.surfaces surface_id s.z_ordered_children
              ((h surface_id s there).linked))))

  pub populate_subsurfaces-missing :
      (client_id surface_id : ℕ) (c : ClientState B)
      → c.surfaces surface_id ≡ none
      → populate_subsurfaces compositor client_id surface_id c ≡ Outcome.err c
  unfolding populate_subsurfaces get
  populate_subsurfaces-missing client_id surface_id c missing =
      rw (populate_subsurfaces, ◌>>=◌, missing) refl

  -- A subsurface is updated.
  pub update-IsLinked :
      (surface_id : ℕ) (state : SubSurfaceState)
      → Takes IsLinked IsLinked (update compositor surface_id state)
  unfolding update get ask put
  update-IsLinked surface_id state = record {
    run = λ c h. elim (Option-cases (c.surfaces surface_id)) [
      | inl missing ↦ rw (left_by, missing) h
      | inr (s, there) ↦ elim (Option-cases (sub_surface_of s)) [
        | inl other ↦ rw (left_by, there, other) h
        | inr (r, e) ↦ elim (Bool-cases (same_sync r.sync state.sync)) [
          | inl same ↦ rw (left_by, there, e, same) h
          | inr new ↦
              rw (left_by, there, e, new)
                (resync-IsLinked c.surfaces h surface_id s r there e state.sync)
        ]
      ]
    ];
  }

  -- The tree below a surface is drawn.
  commit_sync_children_impl-IsLinked :
      (fuel surface_id : ℕ) (parent_is_sync : Bool)
      → Takes IsLinked IsLinked
          (commit_sync_children_impl compositor fuel surface_id parent_is_sync)
  unfolding commit_sync_children_impl
  commit_sync_children_impl-IsLinked zero surface_id b = lift-Takes IsLinked none
  commit_sync_children_impl-IsLinked (suc fuel) surface_id b =
      let keep : (m : Surfaces) → IsLinked m → IsLinked m = λ m l. l in
      >>=-Takes IsLinked IsLinked IsLinked (get surface_id) _ (get-Takes IsLinked surface_id) keep
        (λ s.
          >>=-Takes IsLinked IsLinked IsLinked (lift (sub_surface_of s)) _ (lift-Takes IsLinked _)
            keep
            (λ role.
              >>=-Takes IsLinked IsLinked IsLinked
                (if b || role.sync then draw_buffer compositor surface_id else pure tt) _
                (draw-if (b || role.sync) surface_id) keep
                (λ u.
                  >>=-Takes IsLinked IsLinked IsLinked (get surface_id) _
                    (get-Takes IsLinked surface_id) keep
                    (λ s'. for_each-Takes IsLinked (children_of surface_id s') _ (λ child.
                      commit_sync_children_impl-IsLinked fuel child.id (b || role.sync))))))
    where
      draw-if :
          (b : Bool) (k : ℕ)
          → Takes IsLinked IsLinked (if b then draw_buffer compositor k else pure tt)
      draw-if true k = draw_buffer-IsLinked compositor k
      draw-if false k = pure-Takes IsLinked tt

  pub commit_sync_children-IsLinked :
      (fuel surface_id : ℕ)
      → Takes IsLinked IsLinked (commit_sync_children compositor fuel surface_id)
  unfolding commit_sync_children
  commit_sync_children-IsLinked fuel surface_id = record {
    run = λ c h. elim (Option-cases (c.surfaces surface_id)) [
      | inl missing ↦ rw (left_by, missing) h
      | inr (s, there) ↦ elim (Option-cases (sub_surface_of s)) [
        | inl root ↦ rw (left_by, there, root) (below s c h)
        | inr (r, e) ↦ elim (Bool-cases r.sync) [
          | inl synced ↦ rw (left_by, there, e, synced) h
          | inr apart ↦ rw (left_by, there, e, apart) (below s c h)
        ]
      ]
    ];
  }
    where
      below :
          (s : RemoteSurface) (c : ClientState B)
          → IsLinked c.surfaces
          → IsLinked
              (left_by (
                for_each
                  (children_of surface_id s)
                  (λ child. commit_sync_children_impl compositor fuel child.id false)
                  c)).surfaces
      below s c h =
          (for_each-Takes IsLinked (children_of surface_id s)
              (λ child. commit_sync_children_impl compositor fuel child.id false)
              (λ child. commit_sync_children_impl-IsLinked fuel child.id false)).run
            c h

  pub apply-IsLinked :
      (client_id surface_id : ℕ) (state : SurfaceState)
      → Takes IsLinked IsLinked (apply compositor client_id state surface_id)
  unfolding apply
  apply-IsLinked client_id surface_id state =
      let keep : (m : Surfaces) → IsLinked m → IsLinked m = λ m l. l in
      >>=-Takes IsLinked IsLinked IsLinked (lift state.role) _ (lift-Takes IsLinked _) keep (λ role.
        >>=-Takes IsLinked IsLinked IsLinked (lift (Wayland.as_sub_surface role)) _
          (lift-Takes IsLinked _) keep
          (λ sub.
            >>=-Takes IsLinked IsLinked IsLinked
              (set_role compositor client_id sub.parent surface_id) _
              (record { run = set_role-IsLinked compositor client_id sub.parent surface_id }) keep
              (λ u. update-IsLinked surface_id sub)))
