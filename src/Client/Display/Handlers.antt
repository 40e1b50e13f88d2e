-- ===== src/Client/Display/Handlers.antt =====
-- src/client/server_handlers.rs: the handlers of the server's requests. `none` is a panic in
-- apply_buffer or handle_buffer, which ends the program.
use wprs.Base.{
  ℕ, Bool, true, false, not, Option, none, some, List, [], ◌∷◌, ◌++◌, ◌&&◌, if◌then◌else◌,
}
use wprs.Wayland.{SurfaceState}
use wprs.Messages.{RecvType}
use wprs.Client.{Asked, Compositor}
use wprs.Client.Buffers.{Pool, handle_buffer}
use wprs.Client.Commit
use wprs.Client.Subsurface
use wprs.Client.Subsurface.{is_some}
use wprs.Client.Display.Requests.{toplevel_request, popup_request, cursor_request}
use wprs.Client.Display.{
  RemoteClient, client_at, remove, SurfaceRequestPayload, SurfaceRequest, ToplevelRequestPayload,
  ToplevelRequest, PopupRequest, CursorImageStatus, CursorImage, Capabilities, Request, Display,
  Seats, Handled, after, last, drop_all, state_of, returned, on_client, ask_for,
}

-- `matches!(request.payload, ToplevelRequestPayload::Destroyed)`
unfoldable pub ends_window : ToplevelRequestPayload → Bool
ends_window ToplevelRequestPayload.destroyed = true
ends_window _ = false

module _ {P B : Type 0} (compositor : Compositor B) (pool : Pool P) (seats : Seats) (fuel : ℕ) where
  -- The call of handle_commit, with the cache and the pool that it leaves.
  unfoldable pub commit_surface :
      ℕ → ℕ → SurfaceState → RemoteClient → Display P B → Option (Handled P B)
  commit_surface client_id surface_id state client d =
      elim (Commit.handle_commit compositor pool fuel client.id surface_id d.title_prefix state
        d.buffer_cache d.slots (state_of client d)) [
          | none ↦ none
          | some (o, cache, p) ↦
              some (returned client_id client (record d { buffer_cache = cache; slots = p }) o)
        ]

  -- WprsClientState::handle_surface
  unfoldable pub handle_surface : SurfaceRequest → Display P B → Option (Handled P B)
  handle_surface request d = handle request.payload
    where
      handle : SurfaceRequestPayload → Option (Handled P B)
      handle (SurfaceRequestPayload.commit state) =
          commit_surface request.client request.surface state (client_at request.client d.clients) d
      handle SurfaceRequestPayload.destroyed =
          if not (is_some (d.clients request.client))
          then some (Handled.ok d)
          else some (on_client request.client (Subsurface.handle_surface_destroy request.surface) d)

  -- WprsClientState::handle_toplevel
  unfoldable pub handle_toplevel : ToplevelRequest → Display P B → Handled P B
  handle_toplevel request d =
      if ends_window request.payload && not (is_some (d.clients request.client))
      then Handled.ok d
      else on_client request.client (toplevel_request seats request) d

  -- WprsClientState::handle_popup
  unfoldable pub handle_popup : PopupRequest → Display P B → Handled P B
  handle_popup request d =
      if not (is_some (d.clients request.client))
      then Handled.ok d
      else on_client request.client (popup_request request) d

  unfoldable pub cursor_changed : CursorImageStatus → Display P B → Handled P B
  cursor_changed CursorImageStatus.hidden d =
      ask_for (seats.hides_cursor d.asked) Asked.hide_cursor d
  cursor_changed (CursorImageStatus.named name) d =
      ask_for (seats.is_cursor_name name && seats.sets_cursor d.asked) (Asked.set_named_cursor name)
        d
  cursor_changed (CursorImageStatus.surface client_id surface_id hotspot) d =
      elim (d.clients client_id) [
        | none ↦ Handled.err d
        | some client ↦ returned client_id client d (
            cursor_request compositor d.last_enter_serial client.id surface_id hotspot
              (state_of client d))
      ]

  -- WprsClientState::handle_cursor_image
  unfoldable pub handle_cursor_image : CursorImage → Display P B → Handled P B
  handle_cursor_image image d = elim (last d.has_pointer) [
    | none ↦ Handled.err d
    | some b ↦ if b then cursor_changed image.status d else Handled.ok d
  ]

  -- WprsClientState::handle_client_disconnected
  unfoldable pub handle_client_disconnected : ℕ → Display P B → Handled P B
  handle_client_disconnected id d = gone (d.clients id)
    where
      gone : Option RemoteClient → Handled P B
      gone none = Handled.ok d
      gone (some client) = Handled.ok (record d {
        clients = remove id d.clients;
        asked = d.asked ++ drop_all client.surfaces (seats.drop_order client.surfaces);
      })

  -- WprsClientState::handle_capabilities
  unfoldable pub handle_capabilities : Capabilities → Display P B → Handled P B
  handle_capabilities caps d =
      if is_some d.capabilities
      then Handled.err d
      else Handled.ok (record d { capabilities = some caps })

  -- handle_request, with its result.
  unfoldable pub handle : RecvType Request → Display P B → Option (Handled P B)
  handle (RecvType.object (Request.surface r)) d = handle_surface r d
  handle (RecvType.object (Request.toplevel r)) d = some (handle_toplevel r d)
  handle (RecvType.object (Request.popup r)) d = some (handle_popup r d)
  handle (RecvType.object (Request.cursor_image i)) d = some (handle_cursor_image i d)
  handle (RecvType.object (Request.client_disconnected id)) d =
      some (handle_client_disconnected id d)
  handle (RecvType.object (Request.capabilities caps)) d = some (handle_capabilities caps d)
  handle (RecvType.raw_buffer bytes) d = elim (handle_buffer pool bytes) [
    | none ↦ none
    | some v ↦ some (Handled.ok (record d { buffer_cache = some v }))
  ]

  -- WprsClientState::handle_request: an error is logged.
  unfoldable pub handle_request : RecvType Request → Display P B → Option (Display P B)
  handle_request r d = elim (handle r d) [ none ↦ none | some h ↦ some (after h) ]

  -- The requests that come in, one after the other.
  unfoldable pub handle_requests : List (RecvType Request) → Display P B → Option (Display P B)
  handle_requests [] d = some d
  handle_requests (r ∷ rs) d = elim (handle_request r d) [
    | none ↦ none
    | some d' ↦ handle_requests rs d'
  ]
