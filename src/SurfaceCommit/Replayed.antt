-- ===== src/SurfaceCommit/Replayed.antt =====
-- src/server/smithay_handlers.rs and client_handlers.rs: what commits keep for clients that connect
-- later.
use wprs.Base.{
  ℕ, Bool, true, false, Option, none, some, List, [], ◌≡◌, ◌⊎◌, inl, inr, refl, if◌then◌else◌,
}
use wprs.Geometry.{ℤ, Rectangle}
use wprs.Messages.{SendType}
use wprs.Shards.{CompressedShards}
use wprs.Wayland.{
  BufferMetadata, BufferData, BufferAssignment, SurfaceState, clone_without_buffer, with_buffer,
  set_buffer, update_with_external_buffer, as_new, as_compressed,
}
use wprs.Client.Display.{Request}
use wprs.SurfaceCommit.{
  NewBuffer, Committed, kept, send_state, is_unchanged, commit_new_buffer, commit_old_buffer,
  commit_removed, commit_buffer,
}

-- A state that has no buffer, or one with shards.
abbrev pub IsReplayable : SurfaceState → Type 0
IsReplayable s =
    (s.buffer ≡ none)
    ⊎ ((m : BufferMetadata) × (c : CompressedShards) × (s.buffer
          ≡ some
              (BufferAssignment.new (record { metadata = m; contents = BufferData.compressed c }))))

module _ (client : Option ℕ) (damage : List (Rectangle ℤ)) where
  send_state-kept :
      (c : Option ℕ) (s to_send : SurfaceState) (before : List (SendType Request))
      → kept (send_state c damage s to_send before) ≡ s
  unfolding send_state
  send_state-kept none s to_send before = refl
  send_state-kept (some id) s to_send before = refl

  new_buffer-IsReplayable :
      (metadata : Option BufferMetadata) (shards : Option CompressedShards) (s : SurfaceState)
      → IsReplayable s
      → IsReplayable (kept (commit_new_buffer client damage metadata shards s))
  unfolding commit_new_buffer set_buffer update_with_external_buffer as_new as_compressed
      with_buffer
  new_buffer-IsReplayable none shards s h = h
  new_buffer-IsReplayable (some m) none s h = h
  new_buffer-IsReplayable (some m) (some c) s h =
      rw (send_state-kept client _ _ _) (inr (m, c, refl))

  old_buffer-IsReplayable :
      (prev s : SurfaceState) (children_dirty sync : Bool)
      → IsReplayable s
      → IsReplayable (kept (commit_old_buffer client damage prev s children_dirty sync))
  unfolding commit_old_buffer
  old_buffer-IsReplayable prev s children_dirty sync h =
      either (is_unchanged (clone_without_buffer s) prev children_dirty sync)
    where
      either :
          (b : Bool)
          → IsReplayable (
              kept (
                if b
                then Committed.unchanged s
                else send_state client damage s (clone_without_buffer s) []))
      either true = h
      either false = rw (send_state-kept client s (clone_without_buffer s) []) h

  -- Whatever a commit says, also when it fails, what is kept has no buffer or one with shards if
  -- that held before.
  pub commit_buffer-IsReplayable :
      (prev s : SurfaceState) (children_dirty sync skip_buffer : Bool) (b : Option NewBuffer)
      → IsReplayable s
      → IsReplayable (kept (commit_buffer client damage prev s children_dirty sync skip_buffer b))
  unfolding commit_buffer commit_removed with_buffer
  commit_buffer-IsReplayable prev s children_dirty sync skip none h =
      old_buffer-IsReplayable prev s children_dirty sync h
  commit_buffer-IsReplayable prev s children_dirty sync skip (some NewBuffer.removed) h =
      rw (send_state-kept client _ _ _) (inl refl)
  commit_buffer-IsReplayable prev s children_dirty sync true (some (NewBuffer.new_buffer m c)) h =
      old_buffer-IsReplayable prev s children_dirty sync h
  commit_buffer-IsReplayable prev s children_dirty sync false (some (NewBuffer.new_buffer m c)) h =
      new_buffer-IsReplayable m c s h
