-- ===== src/Tests/Displays.antt =====
-- The theorems on requests at concrete displays.
use mathlib.Core.Path.{subst}
use wprs.Geometry.{pos}
use wprs.Base.{ℕ, true, sym, ◌≡◌, ◌==◌, refl, none, some, List, [], ◌∷◌}
use wprs.Messages.{RecvType}
use wprs.Wayland.{Buffer, BufferAssignment, BufferData, is_external, new_state, with_buffer}
use wprs.Client
use wprs.Client.{RemoteRole, fresh_surface, wl_surface, or_insert_new}
use wprs.Client.Buffers.{apply_buffer, take_cached}
use wprs.Client.Commit
use wprs.Client.Subsurface
use wprs.Client.Subsurface.Linked.{IsLinked, some-inj}
use wprs.Client.XdgToplevel
use wprs.Client.XdgToplevel.{new_toplevel}
use wprs.Client.Display as Remotes
use wprs.Client.Display.{
  RemoteClient, SurfaceRequestPayload, ToplevelRequestPayload, CursorImageStatus, Request, Display,
  Seats, Handled, after,
}
use wprs.Client.Display.Requests.{window_request, role_destroyed, drop_role, toplevel_request}
use wprs.Client.Display.Handlers.{
  handle, handle_request, handle_requests, handle_surface, handle_toplevel,
  handle_client_disconnected, commit_surface, ends_window,
}
use wprs.Client.Display.Separate.{handle_requests-spared}
use wprs.Client.Display.Departed.{handle_requests-disconnected}
use wprs.Client.Display.Served.{Serves, AfterError, HandledAs}
use wprs.Client.Display.Kept.{handle-HandledAs}
use wprs.Client.Display.Reachable.{Reaches, Reaches-Serves}
use wprs.Tests.Buffers.{pool, metadata}
use wprs.Tests.Surfaces.{numbering}

abbrev seats : Seats
seats = record {
  seat = some 0;
  is_edge = λ n. n == 8;
  is_cursor_name = λ name. true;
  sets_cursor = λ asked. true;
  hides_cursor = λ asked. true;
  drop_order = λ m. 2 ∷ [];
}

-- A display without clients.
abbrev empty : Display ℕ (Unit {0})
empty = record {
  clients = λ j. none;
  object_bimap = tt;
  asked = [];
  buffer_cache = none;
  slots = 0;
  capabilities = none;
  has_pointer = true ∷ [];
  last_enter_serial = 5;
  title_prefix = [];
}

-- The clients 7, whose surface 2 is a window, and 8.
abbrev window_client : RemoteClient
window_client = record {
  id = 7;
  surfaces =
      Client.insert 2
        (record (fresh_surface 7 2 0) {
          local_surface = none;
          role = some (RemoteRole.xdg_toplevel (new_toplevel 7 4 0 []));
        })
        (λ j. none);
}

abbrev other_client : RemoteClient
other_client = record { id = 8; surfaces = Client.insert 1 (fresh_surface 8 1 3) (λ j. none) }

abbrev shown : Display ℕ (Unit {0})
shown = record empty {
  clients = Remotes.insert 8 other_client (Remotes.insert 7 window_client (λ j. none));
}

abbrev about_window : ToplevelRequestPayload → RecvType Request
about_window payload =
    RecvType.object (Request.toplevel (record { client = 7; surface = 2; payload = payload }))

abbrev requests : List (RecvType Request)
requests =
    about_window ToplevelRequestPayload.set_maximized
    ∷ about_window ToplevelRequestPayload.destroyed
    ∷ RecvType.object (Request.client_disconnected 7)
    ∷ []

abbrev left : Display ℕ (Unit {0})
left = elim (handle_requests numbering pool seats 3 requests shown) [ none ↦ shown | some d ↦ d ]

handle_requests-spared_example : left.clients 8 ≡ shown.clients 8
unfolding handle_requests handle_request handle handle_toplevel handle_client_disconnected
    Remotes.on_client Remotes.returned Remotes.write_back Remotes.client_at toplevel_request
    window_request role_destroyed drop_role Subsurface.handle_surface_destroy Subsurface.unlink
    Subsurface.sub_surface_of Client.as_sub_surface Client.put Client.ask Client.get
    XdgToplevel.xdg_toplevel XdgToplevel.as_xdg_toplevel fresh_surface Subsurface.dropped
    Remotes.drop_all ends_window
handle_requests-spared_example =
    handle_requests-spared 8 numbering pool seats 3 requests shown left (refl, (refl, (refl, tt)))
      refl

handle_requests-disconnected_example :
    let gone = RecvType.object (Request.client_disconnected 7) in
    let late = about_window ToplevelRequestPayload.destroyed in
    handle_requests numbering pool seats 3 (gone ∷ late ∷ gone ∷ []) shown
    ≡ handle_requests numbering pool seats 3 (gone ∷ []) shown
unfolding ends_window
handle_requests-disconnected_example =
    let gone = RecvType.object (Request.client_disconnected 7) in
    handle_requests-disconnected numbering pool seats 3 7
      (about_window ToplevelRequestPayload.destroyed ∷ gone ∷ []) shown ((refl, refl), (refl, tt))

-- A commit of a buffer whose data did not come before it, so that apply_buffer fails.
abbrev early : Buffer
early = record { metadata = metadata; contents = BufferData.external }

abbrev committed : RecvType Request
committed = RecvType.object (
    Request.surface (record {
      client = 7;
      surface = 2;
      payload =
          SurfaceRequestPayload.commit
            (with_buffer (some (BufferAssignment.new early)) (new_state 7 2 none));
    }))

abbrev outcome : Handled ℕ (Unit {0})
outcome = elim (handle numbering pool seats 3 committed empty) [
  | none ↦ Handled.err empty
  | some h ↦ h
]

outcome-fails : outcome ≡ Handled.err (after outcome)
unfolding handle handle_surface commit_surface Commit.handle_commit Commit.commit_applied
    or_insert_new Client.new Client.put apply_buffer take_cached new_state with_buffer is_external
    Remotes.client_at Remotes.new Remotes.returned Remotes.write_back
outcome-fails = refl

empty-Serves : Serves IsLinked empty.clients
empty-Serves id client e = absurd (none-some e)
  where
    none-some : none ≡ some client → ⊥
    none-some e = cc

handle-HandledAs_example : HandledAs (AfterError committed) outcome
unfolding handle handle_surface commit_surface Commit.handle_commit Commit.commit_applied
    or_insert_new Client.new Client.put apply_buffer take_cached new_state with_buffer is_external
    Remotes.client_at Remotes.new
handle-HandledAs_example =
    handle-HandledAs numbering pool seats 3 committed empty outcome empty-Serves tt refl

-- Client 7 comes with a request about a surface that is not known; its surface 2 is then the cursor.
abbrev first : Display ℕ (Unit {0})
first = record empty { clients = Remotes.insert 7 (Remotes.new 7) (λ j. none) }

abbrev cursor_of_7 : RecvType Request
cursor_of_7 = RecvType.object (
    Request.cursor_image (record {
      serial = 5;
      status = CursorImageStatus.surface 7 2 (record { x = pos 0; y = pos 0 });
    }))

abbrev pointed : Handled ℕ (Unit {0})
pointed = elim (handle numbering pool seats 3 cursor_of_7 first) [
  | none ↦ Handled.err empty
  | some h ↦ h
]

Reaches-Serves_example : Serves IsLinked (after pointed).clients
unfolding handle handle_toplevel toplevel_request Remotes.on_client Remotes.returned
    Remotes.write_back Remotes.client_at Remotes.new ends_window
Reaches-Serves_example = Reaches-Serves numbering pool seats 3 (after pointed) (
    Reaches.handled cursor_of_7 pointed
      (Reaches.handled (about_window ToplevelRequestPayload.set_maximized) (Handled.ok first)
        (Reaches.started empty (λ id. refl)) tt refl tt)
      (λ client s e there.
        absurd (none-some (subst (λ c. c.surfaces 2 ≡ some s) (sym (some-inj e)) there)))
      refl tt)
  where
    none-some : {A : Type 0} {a : A} → none ≡ some a → ⊥
    none-some e = cc
