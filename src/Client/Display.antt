-- ===== src/Client/Display.antt =====
-- src/client/mod.rs and server_handlers.rs: the remote clients, and what each request of the server
-- does. The order in which a map drops its surfaces, the seats and the pointer of the local side are
-- parameters. A panic in an action on the surfaces counts as its error, which is only logged; a panic
-- over a buffer ends a run. Requests about selections and drags are left out.
pub mod Requests
pub mod Handlers
pub mod Separate
pub mod Departed
pub mod Linked
pub mod Served
pub mod Kept
pub mod Reachable
use wprs.Base.{
  ℕ, Bool, true, false, Option, none, some, List, [], ◌∷◌, ◌++◌, ◌==◌, guard, if◌then◌else◌,
}
use wprs.Geometry.{ℤ, pos, Point}
use wprs.Vec4u8s.{Vec4u8s}
use wprs.Wayland.{SurfaceState}
use wprs.Client.{
  RemoteRole, RemoteSurface, RemoteXdgToplevel, Asked, Compositor, ClientState, Outcome, Action,
  ◌>>=◌, ◌>>◌, pure, lift, get, put, ask, wl_surface, or_insert_new, Surfaces,
}
use wprs.Client.Buffers.{Pool, handle_buffer}
use wprs.Client.Commit
use wprs.Client.Subsurface
use wprs.Client.Subsurface.{sub_surface_of, dropped, is_some}
use wprs.Client.XdgToplevel.{xdg_toplevel}
use wprs.Client.XdgPopup.{try_ask}

pub record RemoteClient : Type 0 where
  pub id : ℕ
  pub surfaces : Surfaces

-- RemoteClient::new
unfoldable pub new : ℕ → RemoteClient
new id = record { id = id; surfaces = λ j. none }

-- HashMap<ClientId, RemoteClient>
abbrev pub Clients : Type 0
Clients = ℕ → Option RemoteClient

abbrev pub insert : ℕ → RemoteClient → Clients → Clients
insert k client m = λ j. if j == k then some client else m j

abbrev pub remove : ℕ → Clients → Clients
remove k m = λ j. if j == k then none else m j

-- RemoteDisplay::client makes the client that is missing; the map then has what this gives.
unfoldable pub client_at : ℕ → Clients → RemoteClient
client_at id m = elim (m id) [ none ↦ new id | some client ↦ client ]

pub data SurfaceRequestPayload : Type 0 where
  commit : SurfaceState → SurfaceRequestPayload
  destroyed : SurfaceRequestPayload

pub record SurfaceRequest : Type 0 where
  pub client : ℕ
  pub surface : ℕ
  pub payload : SurfaceRequestPayload

pub data ToplevelRequestPayload : Type 0 where
  destroyed : ToplevelRequestPayload
  set_maximized : ToplevelRequestPayload
  unset_maximized : ToplevelRequestPayload
  set_fullscreen : ToplevelRequestPayload
  unset_fullscreen : ToplevelRequestPayload
  set_minimized : ToplevelRequestPayload
  -- The serial, and for `resize` the edge.
  move_by : ℕ → ToplevelRequestPayload
  resize : ℕ → ℕ → ToplevelRequestPayload

pub record ToplevelRequest : Type 0 where
  pub client : ℕ
  pub surface : ℕ
  pub payload : ToplevelRequestPayload

pub data PopupRequestPayload : Type 0 where
  destroyed : PopupRequestPayload

pub record PopupRequest : Type 0 where
  pub client : ℕ
  pub surface : ℕ
  pub payload : PopupRequestPayload

pub data CursorImageStatus : Type 0 where
  hidden : CursorImageStatus
  named : List ℕ → CursorImageStatus
  -- The client, its surface and the hotspot.
  surface : ℕ → ℕ → Point ℤ → CursorImageStatus

pub record CursorImage : Type 0 where
  pub serial : ℕ
  pub status : CursorImageStatus

pub record Capabilities : Type 0 where
  pub xwayland : Bool

pub data Request : Type 0 where
  surface : SurfaceRequest → Request
  cursor_image : CursorImage → Request
  toplevel : ToplevelRequest → Request
  popup : PopupRequest → Request
  client_disconnected : ℕ → Request
  capabilities : Capabilities → Request

-- What the handlers use of WprsClientState. A seat has a pointer or none.
pub record Display (P B : Type 0) : Type 0 where
  pub clients : Clients
  pub object_bimap : B
  pub asked : List Asked
  pub buffer_cache : Option Vec4u8s
  pub slots : P
  pub capabilities : Option Capabilities
  pub has_pointer : List Bool
  pub last_enter_serial : ℕ
  pub title_prefix : List ℕ

pub record Seats : Type 0 where
  -- The first seat of SeatState.
  pub seat : Option ℕ
  pub is_edge : ℕ → Bool
  pub is_cursor_name : List ℕ → Bool
  pub sets_cursor : List Asked → Bool
  pub hides_cursor : List Asked → Bool
  -- The surfaces that a map has, in the order in which they are dropped.
  pub drop_order : Surfaces → List ℕ

pub data Handled (P B : Type 0) : Type 0 where
  err : Display P B → Handled P B
  ok : Display P B → Handled P B

abbrev pub after : {P B : Type 0} → Handled P B → Display P B
after (Handled.err d) = d
after (Handled.ok d) = d

unfoldable pub last : List Bool → Option Bool
last [] = none
last (b ∷ []) = some b
last (b ∷ c ∷ bs) = last (c ∷ bs)

-- Destructors of all surfaces of a client.
unfoldable pub drop_all : Surfaces → List ℕ → List Asked
drop_all m [] = []
drop_all m (k ∷ ks) = elim (m k) [ none ↦ [] | some s ↦ dropped s ] ++ drop_all m ks

module _ {P B : Type 0} where
  abbrev pub state_of : RemoteClient → Display P B → ClientState B
  state_of client d = record {
    surfaces = client.surfaces;
    object_bimap = d.object_bimap;
    asked = d.asked;
  }

  -- The display with the client as an action left it.
  unfoldable pub write_back : ℕ → RemoteClient → Display P B → ClientState B → Display P B
  write_back id client d c = record d {
    clients = insert id (record client { surfaces = c.surfaces }) d.clients;
    object_bimap = c.object_bimap;
    asked = c.asked;
  }

  unfoldable pub returned : ℕ → RemoteClient → Display P B → Outcome B (Unit {0}) → Handled P B
  returned id client d (Outcome.err c) = Handled.err (write_back id client d c)
  returned id client d (Outcome.ok c u) = Handled.ok (write_back id client d c)

  -- An action on the surfaces of `self.remote_display.client(&id)`.
  unfoldable pub on_client : ℕ → Action B (Unit {0}) → Display P B → Handled P B
  on_client id act d =
      let client = client_at id d.clients in returned id client d (act (state_of client d))

  unfoldable pub ask_for : Bool → Asked → Display P B → Handled P B
  ask_for succeeds a d =
      if succeeds then Handled.ok (record d { asked = d.asked ++ a ∷ [] }) else Handled.err d
