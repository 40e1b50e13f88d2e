-- ===== src/Client/Subsurface.antt =====
-- src/client/subsurface.rs: the subsurfaces of a client's surfaces.
pub mod Linked
pub mod Linking
pub mod Roles
pub mod Unlinking
pub mod Outcomes
pub mod Lookup
pub mod Reordered
pub mod Commits
pub mod Drawing
use wprs.Base.{
  ℕ, zero, suc, Bool, true, false, not, Option, none, some, List, [], ◌∷◌, ◌++◌, ◌==◌, ◌||◌, map,
  if◌then◌else◌, filter, any,
}
use wprs.Geometry.{pos}
use wprs.Wayland
use wprs.Wayland.{SubsurfacePosition, SubSurfaceState, SurfaceState}
use wprs.Client.{
  RemoteSubSurface, RemoteRole, RemoteSurface, Asked, Compositor, ClientState, Outcome, Action,
  ◌>>=◌, ◌>>◌, pure, lift, for_each, get, put, ask, as_sub_surface, wl_surface, Surfaces, insert,
  remove, or_insert_new, draw_buffer,
}
use wprs.Client.Stacking.{reorder_children}

abbrev pub is_some : {A : Type 0} → Option A → Bool
is_some none = false
is_some (some a) = true

abbrev pub same_sync : Bool → Bool → Bool
same_sync true b = b
same_sync false b = not b

-- The role of a surface as a subsurface, with an error otherwise.
unfoldable pub sub_surface_of : RemoteSurface → Option RemoteSubSurface
sub_surface_of s = find s.role
  where
    find : Option RemoteRole → Option RemoteSubSurface
    find none = none
    find (some r) = as_sub_surface r

-- The children but the surface itself.
abbrev pub children_of : ℕ → RemoteSurface → List SubsurfacePosition
children_of surface_id s = filter (λ c. not (c.id == surface_id)) s.z_ordered_children

-- The parent, with the child at the end of its list if it was not in it.
unfoldable pub push_child : ℕ → RemoteSurface → RemoteSurface
push_child surface_id s =
    if any (λ child. child.id == surface_id) s.z_ordered_children then s else record s {
      z_ordered_children =
          s.z_ordered_children
          ++ record { id = surface_id; position = record { x = pos 0; y = pos 0 } } ∷ [];
    }

module _ {B : Type 0} (compositor : Compositor B) where
  -- The end of set_role: the local surface moves into the role.
  unfoldable pub take_role : ℕ → ℕ → ℕ → RemoteSurface → Action B (Unit {0})
  take_role parent_id surface_id parent s c = take s.local_surface
    where
      take : Option ℕ → Outcome B (Unit {0})
      take none = Outcome.ok c tt
      take (some l) =
          (do
            ask (Asked.get_subsurface l parent)
            put surface_id (record s {
              local_surface = none;
              role = some (
                  RemoteRole.sub_surface (record {
                    parent = parent_id;
                    sync = true;
                    local_subsurface = compositor.new_subsurface c.asked;
                    local_surface = l;
                  }));
            }))
            c

  -- RemoteSubSurface::set_role
  unfoldable pub set_role : ℕ → ℕ → ℕ → Action B (Unit {0})
  set_role client_id parent_id surface_id = do
    surface ← get surface_id
    if is_some surface.role then pure tt else (do
      remote_parent_surface ← or_insert_new compositor parent_id client_id parent_id
      put parent_id (push_child surface_id remote_parent_surface)
      parent ← lift (wl_surface (push_child surface_id remote_parent_surface))
      surface' ← get surface_id
      if is_some surface'.role then pure tt else take_role parent_id surface_id parent surface')

  -- The surface that is missing is made with the id of its parent.
  unfoldable pub populate_subsurfaces : ℕ → ℕ → Action B (Unit {0})
  populate_subsurfaces client_id surface_id = do
    s ← get surface_id
    for_each (children_of surface_id s) (λ child. do
      t ← or_insert_new compositor child.id client_id surface_id
      set_role client_id surface_id child.id)

  -- The objects that a move is about.
  unfoldable pub resolve_move : ℕ × ℕ → Action B (ℕ × ℕ)
  resolve_move (surf_to_move, surf_to_move_to) = do
    s ← get surf_to_move
    sub ← lift (sub_surface_of s)
    t ← get surf_to_move_to
    wl ← lift (wl_surface t)
    pure (sub.local_subsurface, wl)

  unfoldable pub resolve_moves : List (ℕ × ℕ) → Action B (List (ℕ × ℕ))
  resolve_moves [] = pure []
  resolve_moves (m ∷ ms) = do r ← resolve_move m; rs ← resolve_moves ms; pure (r ∷ rs)

  -- The end of reorder_subsurfaces: the moves, and the positions of the children.
  unfoldable pub place_children : ℕ → List (ℕ × ℕ) → Action B (Unit {0})
  place_children surface_id ms = do
    moves ← resolve_moves ms
    for_each moves (λ m. ask (Asked.place_above m.0 m.1))
    s ← get surface_id
    for_each (children_of surface_id s) (λ child. do
      t ← get child.id
      sub ← lift (sub_surface_of t)
      ask (Asked.set_position sub.local_subsurface child.position))

  unfoldable pub reorder_subsurfaces : ℕ → SurfaceState → Action B (Unit {0})
  reorder_subsurfaces surface_id surface_state = do
    s ← get surface_id
    reordered ← lift (reorder_children surface_state.z_ordered_children s.z_ordered_children)
    put surface_id (record s { z_ordered_children = reordered.0 })
    place_children surface_id reordered.1

  -- RemoteSubSurface::update
  unfoldable pub update : ℕ → SubSurfaceState → Action B (Unit {0})
  update surface_id subsurface_state = do
    s ← get surface_id
    role ← lift (sub_surface_of s)
    ask (Asked.set_position role.local_subsurface subsurface_state.location)
    if same_sync role.sync subsurface_state.sync then pure tt else (do
      put surface_id (record s {
        role = some (RemoteRole.sub_surface (record role { sync = subsurface_state.sync }));
      })
      ask (
          if subsurface_state.sync
          then Asked.set_sync role.local_subsurface
          else Asked.set_desync role.local_subsurface))

  -- RemoteSubSurface::apply
  unfoldable pub apply : ℕ → SurfaceState → ℕ → Action B (Unit {0})
  apply client_id surface_state surface_id = do
    role ← lift surface_state.role
    subsurface_state ← lift (Wayland.as_sub_surface role)
    set_role client_id subsurface_state.parent surface_id
    update surface_id subsurface_state

  -- commit_sync_children_impl, for trees of at most `fuel` levels.
  unfoldable pub commit_sync_children_impl : ℕ → ℕ → Bool → Action B (Unit {0})
  commit_sync_children_impl zero surface_id parent_is_sync = lift none
  commit_sync_children_impl (suc fuel) surface_id parent_is_sync = (do
    s ← get surface_id
    role ← lift (sub_surface_of s)
    if parent_is_sync || role.sync then draw_buffer compositor surface_id else pure tt
    s' ← get surface_id
    for_each (children_of surface_id s')
        (λ child. commit_sync_children_impl fuel child.id (parent_is_sync || role.sync)))

  unfoldable pub commit_sync_children : ℕ → ℕ → Action B (Unit {0})
  commit_sync_children fuel surface_id c = found (c.surfaces surface_id)
    where
      below : RemoteSurface → Bool → Outcome B (Unit {0})
      below s true = Outcome.ok c tt
      below s false =
          for_each (children_of surface_id s)
            (λ child. commit_sync_children_impl fuel child.id false) c

      is_sync : Option RemoteSubSurface → Bool
      is_sync none = false
      is_sync (some r) = r.sync

      found : Option RemoteSurface → Outcome B (Unit {0})
      found none = Outcome.ok c tt
      found (some s) = below s (is_sync (sub_surface_of s))

-- `retain` on the parent's children.
unfoldable pub drop_child : ℕ → RemoteSurface → RemoteSurface
drop_child id parent = record parent {
  z_ordered_children = filter (λ child. not (child.id == id)) parent.z_ordered_children;
}

-- The surfaces once a surface is removed, and is no longer among the children of its parent.
unfoldable pub unlink : Option RemoteSubSurface → ℕ → Surfaces → Surfaces
unlink none id m = m
unlink (some r) id m = retain (m r.parent)
  where
    retain : Option RemoteSurface → Surfaces
    retain none = m
    retain (some parent) = insert r.parent (drop_child id parent) m

-- What the destructors of a surface and of its role ask for.
unfoldable pub dropped : RemoteSurface → List Asked
dropped s = viewport_gone s.viewport ++ subsurface_gone (sub_surface_of s)
  where
    viewport_gone : Option ℕ → List Asked
    viewport_gone none = []
    viewport_gone (some v) = Asked.destroy_viewport v ∷ []

    subsurface_gone : Option RemoteSubSurface → List Asked
    subsurface_gone none = []
    subsurface_gone (some r) = Asked.destroy_subsurface r.local_subsurface ∷ []

module _ {B : Type 0} where
  -- WprsClientState::handle_surface_destroy
  unfoldable pub handle_surface_destroy : ℕ → Action B (Unit {0})
  handle_surface_destroy surface_id c = gone (c.surfaces surface_id)
    where
      gone : Option RemoteSurface → Outcome B (Unit {0})
      gone none = Outcome.ok c tt
      gone (some s) =
          Outcome.ok
            (record c {
              surfaces = unlink (sub_surface_of s) s.id (remove surface_id c.surfaces);
              asked = c.asked ++ dropped s;
            })
            tt
