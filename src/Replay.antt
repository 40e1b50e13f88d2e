-- ===== src/Replay.antt =====
-- src/server/client_handlers.rs: handle_connect, which sends a client that has connected the state of
-- every surface. The surfaces are those that for_each_surface goes through, in its order. `none` is
-- the panic at a surface whose buffer cannot be sent.
pub mod Sent
use wprs.Base.{Bool, true, Option, none, some, List, [], ◌∷◌, ◌++◌, map, ◌>>=◌, ◌>>◌}
use wprs.Messages.{SendType}
use wprs.Shards.{CompressedShards}
use wprs.Wayland.{SurfaceState, clone_without_buffer, update_with_external_buffer}
use wprs.Client.Display.{SurfaceRequestPayload, SurfaceRequest, Capabilities, Request}
use wprs.Connection.{Server, send_all, set_other_end_connected}

-- The commit of a state in the name of its client.
unfoldable pub commit_of : SurfaceState → SurfaceState → Request
commit_of surface_state to_send = Request.surface (record {
  client = surface_state.client;
  surface = surface_state.id;
  payload = SurfaceRequestPayload.commit to_send;
})

-- The two messages for a surface: its buffer, and its state.
unfoldable pub surface_messages : SurfaceState → Option (List (SendType Request))
surface_messages surface_state = do
  (to_send, raw_buffer_to_send) ←
      update_with_external_buffer surface_state.buffer (clone_without_buffer surface_state)
  some (
      SendType.raw_buffer raw_buffer_to_send
      ∷ SendType.object (commit_of surface_state to_send)
      ∷ [])

unfoldable pub all_messages : List SurfaceState → Option (List (SendType Request))
all_messages [] = some []
all_messages (s ∷ ss) = do ms ← surface_messages s; later ← all_messages ss; some (ms ++ later)

-- WprsServerState::handle_connect
unfoldable pub handle_connect : Bool → List SurfaceState → Server Request → Option (Server Request)
handle_connect xwayland_enabled surfaces server = do
  ms ← all_messages surfaces
  some (
      send_all
        (SendType.object (Request.capabilities (record { xwayland = xwayland_enabled })) ∷ ms)
        (set_other_end_connected true server))
