-- ===== src/SurfaceCommit.antt =====
-- src/server/smithay_handlers.rs: the end of commit_impl, from the state that the surface's attributes
-- have been written to: what is kept, and what is sent. What the libraries give is a parameter: the
-- buffer of the commit with the metadata and the shards that are made of it, the damage, and the
-- client of the surface, which may be gone.
pub mod Replayed
pub mod Seen
use wprs.Base.{
  ℕ, Bool, true, false, not, Option, none, some, List, [], ◌∷◌, ◌++◌, ◌&&◌, ◌||◌, if◌then◌else◌,
}
use wprs.Geometry.{ℤ, Rectangle}
use wprs.Messages.{SendType}
use wprs.Shards.{CompressedShards}
use wprs.Wayland.{
  BufferMetadata, BufferAssignment, SurfaceState, clone_without_buffer, with_buffer, set_buffer,
  update_with_external_buffer,
}
use wprs.Wayland.Equality.{SurfaceState-discrete, is_eq}
use wprs.Client.Display.{SurfaceRequestPayload, Request}

-- What the attributes say of the buffer: a new one, with what set_buffer makes of it or none on an
-- error, or that it is removed.
pub data NewBuffer : Type 0 where
  new_buffer : Option BufferMetadata → Option CompressedShards → NewBuffer
  removed : NewBuffer

-- An error, `Ok(false)`, and `Ok(true)`, each with the state that is kept and what was sent.
pub data Committed : Type 0 where
  failed : SurfaceState → List (SendType Request) → Committed
  unchanged : SurfaceState → Committed
  sent : SurfaceState → List (SendType Request) → Committed

abbrev pub kept : Committed → SurfaceState
kept (Committed.failed s ms) = s
kept (Committed.unchanged s) = s
kept (Committed.sent s ms) = s

unfoldable pub with_damage : List (Rectangle ℤ) → SurfaceState → SurfaceState
with_damage damage s = record s { damage = some damage }

-- The last part: the state with the damage, behind what was sent before it. SurfaceRequest::new
-- fails without a client.
unfoldable pub send_state :
    Option ℕ
    → List (Rectangle ℤ)
    → SurfaceState
    → SurfaceState
    → List (SendType Request)
    → Committed
send_state client damage s to_send before = elim client [
  | none ↦ Committed.failed s before
  | some id ↦ Committed.sent s (
      before
      ++ SendType.object (
          Request.surface (record {
            client = id;
            surface = s.id;
            payload = SurfaceRequestPayload.commit (with_damage damage to_send);
          }))
        ∷ [])
]

-- A state that is as before is not sent.
unfoldable pub is_unchanged : SurfaceState → SurfaceState → Bool → Bool → Bool
is_unchanged to_send prev_without_buffer children_dirty sync =
    (is_eq SurfaceState-discrete to_send prev_without_buffer && not children_dirty)
    || (children_dirty && sync)

-- The branch of a new buffer.
unfoldable pub commit_new_buffer :
    Option ℕ
    → List (Rectangle ℤ)
    → Option BufferMetadata
    → Option CompressedShards
    → SurfaceState
    → Committed
commit_new_buffer client damage metadata shards s = elim (set_buffer metadata shards s) [
  | none ↦ Committed.failed s []
  | some s' ↦ elim (update_with_external_buffer s'.buffer (clone_without_buffer s)) [
    | none ↦ Committed.failed s' []
    | some (to_send, raw_buffer_to_send) ↦
        send_state client damage s' to_send (SendType.raw_buffer raw_buffer_to_send ∷ [])
  ]
]

-- The branch without one.
unfoldable pub commit_old_buffer :
    Option ℕ → List (Rectangle ℤ) → SurfaceState → SurfaceState → Bool → Bool → Committed
commit_old_buffer client damage prev_without_buffer s children_dirty sync =
    if is_unchanged (clone_without_buffer s) prev_without_buffer children_dirty sync
    then Committed.unchanged s
    else send_state client damage s (clone_without_buffer s) []

unfoldable pub commit_removed : Option ℕ → List (Rectangle ℤ) → SurfaceState → Committed
commit_removed client damage s =
    send_state client damage (with_buffer none s)
      (with_buffer (some BufferAssignment.removed) (clone_without_buffer s)) []

-- commit_impl from `surface_state_to_send` on.
unfoldable pub commit_buffer :
    Option ℕ
    → List (Rectangle ℤ)
    → SurfaceState
    → SurfaceState
    → Bool
    → Bool
    → Bool
    → Option NewBuffer
    → Committed
commit_buffer client damage prev_without_buffer s children_dirty sync skip_buffer none =
    commit_old_buffer client damage prev_without_buffer s children_dirty sync
commit_buffer client damage prev_without_buffer s children_dirty sync skip_buffer
      (some NewBuffer.removed) =
    commit_removed client damage s
commit_buffer client damage prev_without_buffer s children_dirty sync true
      (some (NewBuffer.new_buffer metadata shards)) =
    commit_old_buffer client damage prev_without_buffer s children_dirty sync
commit_buffer client damage prev_without_buffer s children_dirty sync false
      (some (NewBuffer.new_buffer metadata shards)) =
    commit_new_buffer client damage metadata shards s
