-- ===== src/Client/Subsurface/Roles.antt =====
-- src/client/subsurface.rs: surfaces that become subsurfaces.
use wprs.Base.{ℕ, some, [], ◌∷◌, ◌++◌, ◌≡◌, ◌⊎◌, inl, inr, refl, Option-cases}
use wprs.Client
use wprs.Client.{
  RemoteSubSurface, RemoteRole, RemoteSurface, Asked, Compositor, ClientState, Outcome, left_by,
  Action, ◌>>=◌, ◌>>◌, pure, lift, for_each, get, put, ask, Surfaces, insert, remove, wl_surface,
  fresh_surface, as_sub_surface, or_insert_new,
}
use wprs.Client.Subsurface.{take_role, set_role}
use wprs.Client.Subsurface.Linked.{IsLinked, insert-same}
use wprs.Client.Subsurface.Linking.{
  Extends, push_child-wl_surface, free_surface, fresh-IsLinked, insert-Extends, at_k-with_parent,
  linked_map-IsLinked, with_parent, linked_map,
}

module _ {B : Type 0} (compositor : Compositor B) where
  -- An entry that is looked up or made: on an error nothing has changed.
  pub or_insert_new-cases :
      (client_id k : ℕ) (c : ClientState B)
      → IsLinked c.surfaces
      → (or_insert_new compositor k client_id k c ≡ Outcome.err c)
        ⊎ ((c' : ClientState B) × (t : RemoteSurface) × (or_insert_new compositor k client_id k c
              ≡ Outcome.ok c' t)
            × IsLinked c'.surfaces
            × (c'.surfaces k ≡ some t)
            × Extends c.surfaces c'.surfaces)
  unfolding or_insert_new Client.new put
  or_insert_new-cases client_id k c h = elim (Option-cases (c.surfaces k)) [
    | inr (t, there) ↦ inr (c, t, rw (or_insert_new, there) refl, h, there, λ j s e. e)
    | inl missing ↦ elim (Option-cases (compositor.new_surface c.asked)) [
      | inl failed ↦ inl (rw (or_insert_new, missing, ◌>>=◌, Client.new, failed) refl)
      | inr (l, made) ↦
          let t = fresh_surface client_id k l in
          inr (
            record c {
              surfaces = insert k t c.surfaces;
              object_bimap =
                  compositor.bimap_insert (client_id, Client.ObjectId.wl_surface_object k) l
                    c.object_bimap;
              asked = c.asked ++ Asked.create_surface ∷ [];
            },
            t,
            rw (or_insert_new, missing, ◌>>=◌, Client.new, made) refl,
            fresh-IsLinked c.surfaces client_id k l h missing,
            insert-same k t c.surfaces,
            insert-Extends c.surfaces k t missing,
          )
    ]
  ]

  -- Looked up or made, what is there refers to each other.
  pub or_insert_new-IsLinked :
      (client_id k : ℕ) (c : ClientState B)
      → IsLinked c.surfaces
      → IsLinked (left_by ((or_insert_new compositor k client_id k >>= λ s. pure tt) c)).surfaces
  or_insert_new-IsLinked client_id k c h = elim (or_insert_new-cases client_id k c h) [
    | inl failed ↦ rw (left_by, ◌>>=◌, failed) h
    | inr (c', t, made, h', there, more) ↦ rw (left_by, ◌>>=◌, made) h'
  ]

  -- A surface that becomes a subsurface, also when that fails.
  pub set_role-IsLinked :
      (client_id parent_id surface_id : ℕ) (c : ClientState B)
      → IsLinked c.surfaces
      → IsLinked (left_by (set_role compositor client_id parent_id surface_id c)).surfaces
  unfolding set_role get put ask take_role with_parent linked_map
  set_role-IsLinked client_id parent_id surface_id c h =
      elim (Option-cases (c.surfaces surface_id)) [
        | inl missing ↦ rw (left_by, missing) h
        | inr (s, there) ↦ elim (Option-cases s.role) [
          | inr (r, taken) ↦ rw (left_by, there, taken) h
          | inl free ↦ elim (or_insert_new-cases client_id parent_id c h) [
            | inl failed ↦ rw (left_by, there, free, failed) h
            | inr (c', t, made, h', at_p, more) ↦
                let at_k = more surface_id s there in
                let wl = (h' parent_id t at_p).shown in
                let own = (h surface_id s there).shown in
                rw
                  (
                    left_by,
                    there,
                    free,
                    made,
                    push_child-wl_surface surface_id t,
                    wl.1,
                    at_k-with_parent c'.surfaces h' parent_id surface_id t s at_p at_k free,
                    free,
                    free_surface s own.0 free own.1,
                  )
                  (linked_map-IsLinked c'.surfaces h' parent_id surface_id t s at_p at_k free
                    (compositor.new_subsurface c'.asked) own.0)
          ]
        ]
      ]
