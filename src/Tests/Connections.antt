-- ===== src/Tests/Connections.antt =====
-- The theorems on connections and on what a new client is sent, at concrete servers.
use wprs.Base.{ℕ, true, false, ◌≡◌, ◌≢◌, refl, none, some, List, [], ◌∷◌, ◌++◌}
use wprs.Geometry.{pos}
use wprs.Messages.{SendType}
use wprs.Wayland.{BufferFormat, BufferMetadata, new_state}
use wprs.Client.Display.{Request}
use wprs.Connection.{
  Phase, with_writer, Server, enqueue, send, send_as_sender, writer_send, new_server, Step, Steps,
}
use wprs.Connection.Delivery.{Steps-channel}
use wprs.Connection.Closing.{Steps-accepts, Step-blocked}
use wprs.Replay.{handle_connect}
use wprs.Replay.Sent.{Shown, states_of, replayed, handle_connect-shown, handle_connect-panics}

abbrev message : ℕ → SendType ℕ
message n = SendType.object n

-- A message that is sent while no one is connected goes to the next connection.
abbrev after_message : Server ℕ
after_message = record {
  other_end_connected = false;
  channel = [];
  phase = Phase.serving true;
  connects = 0;
}

late_message : Steps new_server (message 4 ∷ []) (message 4 ∷ []) after_message
unfolding new_server writer_send send_as_sender enqueue with_writer send
late_message = Steps.then (Step.discard new_server (message 3) refl) (
    Steps.then (Step.send_by_writer new_server (message 4)) (
      Steps.then (Step.accept (writer_send (message 4) new_server) true refl) (
        Steps.then
          (Step.write (record (writer_send (message 4) new_server) { phase = Phase.serving true })
            true true (message 4) [] refl refl)
          Steps.done)))

Steps-channel_example : message 4 ∷ [] ≡ message 4 ∷ []
unfolding new_server
Steps-channel_example = Steps-channel late_message

-- A connection whose reader has ended.
abbrev ended : Server ℕ
ended = record {
  other_end_connected = false;
  channel = message 1 ∷ message 2 ∷ [];
  phase = Phase.closing true;
  connects = 0;
}

Steps-accepts_example :
    Steps ended []
      (message 1 ∷ message 2 ∷ [])
      (record ended { channel = []; phase = Phase.waiting })
Steps-accepts_example = Steps-accepts (message 1 ∷ message 2 ∷ []) ended refl refl refl

abbrev raised : Server ℕ
raised = record {
  other_end_connected = true;
  channel = [];
  phase = Phase.closing true;
  connects = 0;
}

Step-blocked_example : message 5 ∷ [] ≢ []
Step-blocked_example =
    Step-blocked (record { phase = refl; connected = refl; empty = refl })
      (Step.send_by_writer raised (message 5))

abbrev metadata : BufferMetadata
metadata = record { width = pos 1; height = pos 1; stride = pos 4; format = BufferFormat.argb8888 }

abbrev shown : List Shown
shown =
    record { state = new_state 7 2 none; metadata = metadata; shards = record { shards = [] } } ∷ []

abbrev fresh : Server Request
fresh = record {
  other_end_connected = false;
  channel = [];
  phase = Phase.serving true;
  connects = 0;
}

handle_connect-shown_example :
    (s' : Server Request) × (handle_connect true (states_of shown) fresh ≡ some s')
    × (s'.other_end_connected ≡ true)
    × (s'.channel
        ≡ SendType.object (Request.capabilities (record { xwayland = true })) ∷ replayed shown)
handle_connect-shown_example = handle_connect-shown true shown fresh

handle_connect-panics_example :
    handle_connect true (states_of shown ++ new_state 7 3 none ∷ []) fresh ≡ none
unfolding new_state
handle_connect-panics_example =
    handle_connect-panics true (states_of shown) (new_state 7 3 none) [] fresh refl
