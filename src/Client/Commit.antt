-- ===== src/Client/Commit.antt =====
-- src/client/server_handlers.rs: handle_commit, with apply_buffer and its pool.
pub mod Requests
pub mod Roles
pub mod Windows
pub mod Popups
pub mod Branches
pub mod Hidden
pub mod Reachable
use wprs.Base.{ℕ, Bool, true, false, Option, none, some, List}
use wprs.Vec4u8s.{Vec4u8s}
use wprs.Wayland.{Role, BufferAssignment, SurfaceState}
use wprs.Client.{
  RemoteBuffer, RemoteRole, RemoteSurface, Asked, Compositor, ClientState, Outcome, Action, ◌>>=◌,
  ◌>>◌, pure, lift, get, put, ask, wl_surface, or_insert_new, draw_buffer_send_frame,
}
use wprs.Client.Buffers.{Pool, Applied, apply_buffer}
use wprs.Client.Attributes.{
  set_transformation, set_viewport_state, set_input_region, set_opaque_region, add_damage,
}
use wprs.Client.Subsurface
use wprs.Client.Subsurface.{populate_subsurfaces, reorder_subsurfaces, commit_sync_children}
use wprs.Client.XdgToplevel
use wprs.Client.XdgPopup

module _ {B : Type 0} (compositor : Compositor B) where
  -- What apply_buffer does to the surface: a buffer that is removed is detached.
  unfoldable pub buffer_applied :
      ℕ → RemoteSurface → Option BufferAssignment → Option RemoteBuffer → Action B (Unit {0})
  buffer_applied key s (some BufferAssignment.removed) b = do
    wl ← lift (wl_surface s)
    put key (record s { buffer = b })
    ask (Asked.detach wl)
  buffer_applied key s _ b = put key (record s { buffer = b })

  unfoldable pub apply_role : ℕ → SurfaceState → ℕ → List ℕ → Option Role → Action B (Unit {0})
  apply_role client_id state surface_id title_prefix none = pure tt
  apply_role client_id state surface_id title_prefix (some (Role.cursor hotspot)) = pure tt
  apply_role client_id state surface_id title_prefix (some (Role.sub_surface sub)) =
      Subsurface.apply compositor client_id state surface_id
  apply_role client_id state surface_id title_prefix (some (Role.xdg_toplevel t)) =
      XdgToplevel.apply compositor client_id state surface_id title_prefix
  apply_role client_id state surface_id title_prefix (some (Role.xdg_popup p)) =
      XdgPopup.apply compositor client_id state surface_id

  -- How the surface itself is drawn, for its role.
  unfoldable pub draw_committed : ℕ → Option RemoteRole → Action B (Unit {0})
  draw_committed key (some (RemoteRole.sub_surface r)) = elim r.sync [
    | true ↦ pure tt
    | false ↦ draw_buffer_send_frame compositor key
  ]
  draw_committed key (some (RemoteRole.xdg_toplevel t)) = elim t.configured [
    | true ↦ draw_buffer_send_frame compositor key
    | false ↦ ask (Asked.commit t.local_window)
  ]
  draw_committed key (some (RemoteRole.xdg_popup p)) = elim p.configured [
    | true ↦ draw_buffer_send_frame compositor key
    | false ↦ ask (Asked.commit p.local_popup)
  ]
  draw_committed key (some (RemoteRole.cursor c)) = draw_buffer_send_frame compositor key
  draw_committed key none = draw_buffer_send_frame compositor key

  -- The end of handle_commit, if the last frame was shown.
  unfoldable pub draw_tree : ℕ → ℕ → Bool → Action B (Unit {0})
  draw_tree fuel surface_id false = pure tt
  draw_tree fuel surface_id true = do
    commit_sync_children compositor fuel surface_id
    s ← get surface_id
    draw_committed surface_id s.role

  -- handle_commit from the buffer on.
  unfoldable pub commit_state :
      ℕ → ℕ → ℕ → List ℕ → SurfaceState → RemoteSurface → Option RemoteBuffer → Action B (Unit {0})
  commit_state fuel client_id surface_id title_prefix state s b = do
    buffer_applied surface_id s state.buffer b
    set_transformation surface_id state.buffer_scale state.buffer_transform
    set_viewport_state compositor surface_id state.viewport_state
    set_input_region compositor surface_id state.input_region
    set_opaque_region compositor surface_id state.opaque_region
    add_damage surface_id state.damage
    s' ← get surface_id
    populate_subsurfaces compositor client_id surface_id
    reorder_subsurfaces compositor surface_id state
    apply_role client_id state surface_id title_prefix state.role
    draw_tree fuel surface_id s'.frame_callback_completed

  -- The rest of handle_commit for what apply_buffer leaves: after its error the surface has the
  -- buffer that is left.
  unfoldable pub commit_applied :
      {P : Type 0}
      → ℕ
      → ℕ
      → ℕ
      → List ℕ
      → SurfaceState
      → RemoteSurface
      → Applied P
      → ClientState B
      → Outcome B (Unit {0}) × Option Vec4u8s × P
  commit_applied fuel client_id surface_id title_prefix state s (Applied.err b cache p) c =
      ((put surface_id (record s { buffer = b }) >> lift none) c, cache, p)
  commit_applied fuel client_id surface_id title_prefix state s (Applied.ok b cache p) c =
      (commit_state fuel client_id surface_id title_prefix state s b c, cache, p)

  -- WprsClientState::handle_commit, with the cache and the pool that it leaves. `none` is a panic
  -- in apply_buffer. The children are drawn down to `fuel` levels.
  unfoldable pub handle_commit :
      {P : Type 0}
      → Pool P
      → ℕ
      → ℕ
      → ℕ
      → List ℕ
      → SurfaceState
      → Option Vec4u8s
      → P
      → ClientState B
      → Option (Outcome B (Unit {0}) × Option Vec4u8s × P)
  handle_commit pool fuel client_id surface_id title_prefix state cache p c =
      elim (or_insert_new compositor surface_id client_id surface_id c) [
        | Outcome.err c' ↦ some (Outcome.err c', cache, p)
        | Outcome.ok c' s ↦ elim (apply_buffer pool state.buffer s.buffer cache p) [
          | none ↦ none
          | some applied ↦
              some (commit_applied fuel client_id surface_id title_prefix state s applied c')
        ]
      ]
