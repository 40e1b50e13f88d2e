-- ===== src/Replay/Sent.antt =====
-- src/server/client_handlers.rs: what a client that has connected is sent.
use wprs.Base.{Bool, true, none, some, List, [], ◌∷◌, ◌++◌, ◌≡◌, refl, inl, inr, Option-cases}
use wprs.Messages.{SendType}
use wprs.Shards.{CompressedShards}
use wprs.Wayland.{
  BufferMetadata, BufferData, BufferAssignment, SurfaceState, clone_without_buffer, with_buffer,
  update_with_external_buffer, as_new, as_compressed,
}
use wprs.Client.Display.{Request}
use wprs.Connection.{
  Server, enqueue, send_as_sender, writer_send, send_all, set_other_end_connected,
}
use wprs.Connection.Delivery.{send_all-channel}
use wprs.Replay.{commit_of, surface_messages, all_messages, handle_connect}

-- A surface with the buffer that it shows.
pub record Shown : Type 0 where
  pub state : SurfaceState
  pub metadata : BufferMetadata
  pub shards : CompressedShards

unfoldable pub state_of : Shown → SurfaceState
state_of x =
    with_buffer
      (some (
        BufferAssignment.new
          (record { metadata = x.metadata; contents = BufferData.compressed x.shards })))
      x.state

-- The state whose buffer comes in a message of its own.
unfoldable pub external_of : Shown → SurfaceState
external_of x =
    with_buffer
      (some
        (BufferAssignment.new (record { metadata = x.metadata; contents = BufferData.external })))
      x.state

unfoldable pub replayed : List Shown → List (SendType Request)
replayed [] = []
replayed (x ∷ xs) =
    SendType.raw_buffer x.shards ∷ SendType.object (commit_of x.state (external_of x)) ∷ replayed xs

unfoldable pub states_of : List Shown → List SurfaceState
states_of [] = []
states_of (x ∷ xs) = state_of x ∷ states_of xs

all_messages-shown : (xs : List Shown) → all_messages (states_of xs) ≡ some (replayed xs)
unfolding all_messages states_of replayed surface_messages state_of external_of with_buffer
    clone_without_buffer update_with_external_buffer as_new as_compressed commit_of
all_messages-shown [] = refl
all_messages-shown (x ∷ xs) = rw (all_messages-shown xs) refl

send_all-connected :
    (ms : List (SendType Request)) (s : Server Request)
    → (send_all ms s).other_end_connected ≡ s.other_end_connected
unfolding send_all writer_send send_as_sender enqueue
send_all-connected [] s = refl
send_all-connected (m ∷ ms) s = send_all-connected ms (writer_send m s)

-- When each surface shows a compressed buffer, `handle_connect` succeeds: the other end then
-- counts as connected, and the channel has, behind what was in it, the capabilities and for each
-- surface, in order, its shards and then its state, whose buffer says that its data came before.
pub handle_connect-shown :
    (xwayland_enabled : Bool) (xs : List Shown) (s : Server Request)
    → let first = SendType.object (Request.capabilities (record { xwayland = xwayland_enabled })) in
      (s' : Server Request) × (handle_connect xwayland_enabled (states_of xs) s ≡ some s')
      × (s'.other_end_connected ≡ true)
      × (s'.channel ≡ s.channel ++ first ∷ replayed xs)
unfolding handle_connect set_other_end_connected
handle_connect-shown xwayland_enabled xs s =
    let first = SendType.object (Request.capabilities (record { xwayland = xwayland_enabled })) in
    let connected = set_other_end_connected true s in
    (
      send_all (first ∷ replayed xs) connected,
      rw (handle_connect, all_messages-shown xs) refl,
      send_all-connected (first ∷ replayed xs) connected,
      send_all-channel (first ∷ replayed xs) connected,
    )

all_messages-panics :
    (before : List SurfaceState) (s : SurfaceState) (later : List SurfaceState)
    → s.buffer ≡ none
    → all_messages (before ++ s ∷ later) ≡ none
unfolding all_messages surface_messages update_with_external_buffer
all_messages-panics [] s later e =
    rw (all_messages, surface_messages, update_with_external_buffer, e) refl
all_messages-panics (x ∷ xs) s later e = elim (Option-cases (surface_messages x)) [
  | inl failed ↦ rw (all_messages, failed) refl
  | inr (ms, sent) ↦ rw (all_messages, sent, all_messages-panics xs s later e) refl
]

-- When any surface has no buffer, as a window before it shows its first or a surface whose buffer
-- was removed, `handle_connect` panics.
pub handle_connect-panics :
    (xwayland_enabled : Bool) (before : List SurfaceState) (s : SurfaceState)
    (later : List SurfaceState) (server : Server Request)
    → s.buffer ≡ none
    → handle_connect xwayland_enabled (before ++ s ∷ later) server ≡ none
unfolding handle_connect
handle_connect-panics xwayland_enabled before s later server e =
    rw (handle_connect, all_messages-panics before s later e) refl
