-- ===== src/Tests/Replays.antt =====
-- The theorems on what commits keep, at a concrete state.
use wprs.Base.{false, ◌≡◌, refl, none, some, List, [], ◌∷◌, inl}
use wprs.Geometry.{pos}
use wprs.Messages.{SendType}
use wprs.Shards.{CompressedShards}
use wprs.Wayland.{
  BufferFormat, BufferMetadata, BufferData, BufferAssignment, SurfaceState, new_state,
  clone_without_buffer, with_buffer, set_buffer, update_with_external_buffer, as_new, as_compressed,
}
use wprs.Client.Display.{Request}
use wprs.Replay.{commit_of, surface_messages}
use wprs.SurfaceCommit.{NewBuffer, Committed, kept, send_state, commit_new_buffer, commit_buffer}
use wprs.SurfaceCommit.Replayed.{IsReplayable, commit_buffer-IsReplayable}
use wprs.SurfaceCommit.Seen.{nothing_seen, see_all, messages_of, Commits, Commits-surface_messages}

abbrev metadata : BufferMetadata
metadata = record { width = pos 1; height = pos 1; stride = pos 4; format = BufferFormat.argb8888 }

abbrev shards : CompressedShards
shards = record { shards = [] }

abbrev state : SurfaceState
state = new_state 7 2 none

-- The state that is kept when it is committed with a new buffer.
abbrev done : Committed
done =
    commit_buffer (some 7) [] state state false false false
      (some (NewBuffer.new_buffer (some metadata) (some shards)))

abbrev replayed : List (SendType Request)
replayed =
    SendType.raw_buffer shards
    ∷ SendType.object (
        commit_of state (
          with_buffer
            (some (
              BufferAssignment.new
                (record { metadata = metadata; contents = BufferData.external })))
            state))
    ∷ []

done-replayed : surface_messages (kept done) ≡ some replayed
unfolding new_state commit_buffer commit_new_buffer set_buffer update_with_external_buffer as_new
    as_compressed with_buffer clone_without_buffer send_state surface_messages commit_of
done-replayed = refl

Commits-surface_messages_example :
    (see_all 2 replayed nothing_seen).shown ≡ (see_all 2 (messages_of done) nothing_seen).shown
unfolding new_state
Commits-surface_messages_example =
    Commits-surface_messages 7 2 (kept done) (messages_of done) replayed nothing_seen
      (Commits.committed state state [] false false false
        (some (NewBuffer.new_buffer (some metadata) (some shards)))
        (Commits.started state refl refl) refl refl done refl)
      done-replayed

commit_buffer-IsReplayable_example : IsReplayable (
    kept (
      commit_buffer
        (some 7)
        []
        state
        state
        false
        false
        false
        (some (NewBuffer.new_buffer (some metadata) (some shards)))))
unfolding new_state
commit_buffer-IsReplayable_example =
    commit_buffer-IsReplayable (some 7) [] state state false false false
      (some (NewBuffer.new_buffer (some metadata) (some shards))) (inl refl)
