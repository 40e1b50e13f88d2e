-- ===== src/Client/Display/Requests.antt =====
-- src/client/server_handlers.rs and mod.rs: what requests do to the surfaces of a client.
use wprs.Base.{ℕ, Option, none, some, guard}
use wprs.Geometry.{ℤ, pos, Point}
use wprs.Client.{
  RemoteRole, RemoteSurface, RemoteXdgToplevel, Asked, Compositor, Outcome, Action, ◌>>=◌, ◌>>◌,
  pure, lift, get, put, ask, wl_surface, or_insert_new,
}
use wprs.Client.Subsurface
use wprs.Client.Subsurface.{sub_surface_of}
use wprs.Client.XdgToplevel.{xdg_toplevel}
use wprs.Client.Display.{ToplevelRequestPayload, ToplevelRequest, PopupRequest, Seats}

-- A surface whose role is the cursor's.
unfoldable pub cursor_surface : ℕ → RemoteSurface → RemoteSurface
cursor_surface client_id s = record s {
  role = some (
      RemoteRole.cursor (record { client = client_id; hotspot = record { x = pos 0; y = pos 0 } }));
}

module _ {B : Type 0} where
  -- `surface.role = None`, or another role, drops the old one.
  unfoldable pub drop_role : RemoteSurface → Action B (Unit {0})
  drop_role s = elim (sub_surface_of s) [
    | none ↦ pure tt
    | some r ↦ ask (Asked.destroy_subsurface r.local_subsurface)
  ]

  -- The end of a window or a popup.
  unfoldable pub role_destroyed : ℕ → RemoteSurface → Action B (Unit {0})
  role_destroyed surface_id s = do
    drop_role s
    put surface_id (record s { role = none })
    Subsurface.handle_surface_destroy surface_id

  -- RemoteCursor::set_role
  unfoldable pub set_role : ℕ → ℕ → RemoteSurface → Action B RemoteSurface
  set_role client_id surface_id s = do
    drop_role s
    put surface_id (cursor_surface client_id s)
    pure (cursor_surface client_id s)

  -- A request about a surface that is a window.
  unfoldable pub window_request :
      Seats → ℕ → RemoteSurface → ToplevelRequestPayload → RemoteXdgToplevel → Action B (Unit {0})
  window_request seats surface_id s ToplevelRequestPayload.destroyed t = role_destroyed surface_id s
  window_request seats surface_id s ToplevelRequestPayload.set_maximized t =
      ask (Asked.set_maximized t.local_window)
  window_request seats surface_id s ToplevelRequestPayload.unset_maximized t =
      ask (Asked.unset_maximized t.local_window)
  window_request seats surface_id s ToplevelRequestPayload.set_fullscreen t =
      ask (Asked.set_fullscreen t.local_window)
  window_request seats surface_id s ToplevelRequestPayload.unset_fullscreen t =
      ask (Asked.unset_fullscreen t.local_window)
  window_request seats surface_id s ToplevelRequestPayload.set_minimized t =
      ask (Asked.set_minimized t.local_window)
  window_request seats surface_id s (ToplevelRequestPayload.move_by serial) t = do
    seat ← lift seats.seat
    ask (Asked.move_window t.local_window seat serial)
  window_request seats surface_id s (ToplevelRequestPayload.resize serial edge) t = do
    seat ← lift seats.seat
    lift (guard (seats.is_edge edge))
    ask (Asked.resize_window t.local_window seat serial edge)

  -- handle_toplevel for the surfaces of a client: one that is missing, or no window, is ignored.
  unfoldable pub toplevel_request : Seats → ToplevelRequest → Action B (Unit {0})
  toplevel_request seats request c = found (c.surfaces request.surface)
    where
      window : RemoteSurface → Option RemoteXdgToplevel → Outcome B (Unit {0})
      window s none = Outcome.ok c tt
      window s (some t) = window_request seats request.surface s request.payload t c

      found : Option RemoteSurface → Outcome B (Unit {0})
      found none = Outcome.ok c tt
      found (some s) = window s (xdg_toplevel s)

  -- handle_popup for the surfaces of a client.
  unfoldable pub popup_request : PopupRequest → Action B (Unit {0})
  popup_request request = do s ← get request.surface; role_destroyed request.surface s

  -- A surface that becomes the cursor, and its local surface.
  unfoldable pub cursor_request : Compositor B → ℕ → ℕ → ℕ → Point ℤ → Action B (Unit {0})
  cursor_request compositor serial client_id surface_id hotspot = do
    s ← or_insert_new compositor surface_id client_id surface_id
    s' ← set_role client_id surface_id s
    wl ← lift (wl_surface s')
    ask (Asked.set_cursor serial (some wl) hotspot)
