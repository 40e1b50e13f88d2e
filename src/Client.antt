-- ===== src/Client.antt =====
-- src/client/mod.rs: the surfaces that the client shows for the remote clients, and what it asks of the
-- compositor on its own side. That compositor is a parameter: its answers, which may depend on all
-- that was asked of it before. An action changes the state and gives a value, or none on an error or
-- a panic; what it changed until then stays.
pub mod Stacking
pub mod Subsurface
pub mod Buffers
pub mod Told
pub mod Settled
pub mod Attributes
pub mod XdgToplevel
pub mod XdgPopup
pub mod Commit
pub mod Display
use wprs.Base.{
  ℕ, Bool, true, false, not, Option, none, some, List, [], ◌∷◌, ◌++◌, ◌==◌, if◌then◌else◌, filter,
  any, length, ltb,
}
use wprs.Geometry.{ℤ, pos, Point, Size, Rectangle}
use wprs.Vec4u8s.{Vec4u8s}
use wprs.Wayland.{SubsurfacePosition}
pub use wprs.Remote.{
  RemoteBuffer, RemoteCursor, RemoteSubSurface, RemoteXdgToplevel, RemoteXdgPopup, RemoteRole,
  RemoteSurface, Asked, ObjectId,
}

pub record Compositor (B : Type 0) : Type 0 where
  pub new_surface : List Asked → Option ℕ
  pub new_subsurface : List Asked → ℕ
  pub attaches : List Asked → ℕ → ℕ → Bool
  -- Whether there is a viewporter, and the viewport that it makes.
  pub has_viewporter : Bool
  pub new_viewport : List Asked → ℕ
  -- Whether a region, a positioner and a popup can be made, and which numbers stand for anchors
  -- and gravities.
  pub makes_region : List Asked → Bool
  pub makes_positioner : List Asked → Bool
  pub makes_popup : List Asked → Bool
  pub is_anchor : ℕ → Bool
  pub is_gravity : ℕ → Bool
  -- BiMap::insert
  pub bimap_insert : ℕ × ObjectId → ℕ → B → B

-- HashMap<WlSurfaceId, RemoteSurface>
abbrev pub Surfaces : Type 0
Surfaces = ℕ → Option RemoteSurface

-- The surfaces of a client with what is shared between the clients.
pub record ClientState (B : Type 0) : Type 0 where
  pub surfaces : Surfaces
  pub object_bimap : B
  pub asked : List Asked

-- The state that an action leaves, with its value unless it failed.
pub data Outcome (B A : Type 0) : Type 0 where
  err : ClientState B → Outcome B A
  ok : ClientState B → A → Outcome B A

abbrev pub left_by : {A B : Type 0} → Outcome B A → ClientState B
left_by (Outcome.err c) = c
left_by (Outcome.ok c a) = c

abbrev pub Action : Type 0 → Type 0 → Type 0
Action B A = ClientState B → Outcome B A

infixl 5 ◌>>=◌ ◌>>◌
abbrev pub ◌>>=◌ : {A C B : Type 0} → Action B A → (A → Action B C) → Action B C
◌>>=◌ m f c = elim (m c) [ Outcome.err c' ↦ Outcome.err c' | Outcome.ok c' a ↦ f a c' ]

abbrev pub ◌>>◌ : {C B : Type 0} → Action B (Unit {0}) → Action B C → Action B C
m >> k = m >>= λ _. k

abbrev pub pure : {A B : Type 0} → A → Action B A
pure a c = Outcome.ok c a

-- `?`, or an unwrap, on what was computed.
abbrev pub lift : {A B : Type 0} → Option A → Action B A
lift o c = elim o [ none ↦ Outcome.err c | some a ↦ Outcome.ok c a ]

abbrev pub when : {B : Type 0} → Bool → Action B (Unit {0}) → Action B (Unit {0})
when b m = if b then m else pure tt

-- The loop over a list, up to the first error.
abbrev pub for_each : {A B : Type 0} → List A → (A → Action B (Unit {0})) → Action B (Unit {0})
for_each [] f = pure tt
for_each (x ∷ xs) f = do f x; for_each xs f

abbrev pub insert : ℕ → RemoteSurface → Surfaces → Surfaces
insert k t m = λ j. if j == k then some t else m j

abbrev pub remove : ℕ → Surfaces → Surfaces
remove k m = λ j. if j == k then none else m j

module _ {B : Type 0} where
  -- `surfaces.get(&id)` and `surfaces.get_mut(&id)`, missing as an error.
  unfoldable pub get : ℕ → Action B RemoteSurface
  get k c = lift (c.surfaces k) c

  unfoldable pub put : ℕ → RemoteSurface → Action B (Unit {0})
  put k t c = Outcome.ok (record c { surfaces = insert k t c.surfaces }) tt

  unfoldable pub ask : Asked → Action B (Unit {0})
  ask a c = Outcome.ok (record c { asked = c.asked ++ a ∷ [] }) tt

  -- ObjectBimap::insert
  unfoldable pub register : Compositor B → ℕ × ObjectId → ℕ → Action B (Unit {0})
  register compositor key l c =
      Outcome.ok (record c { object_bimap = compositor.bimap_insert key l c.object_bimap }) tt

-- EnumAsInner's as_sub_surface.
unfoldable pub as_sub_surface : RemoteRole → Option RemoteSubSurface
as_sub_surface (RemoteRole.sub_surface s) = some s
as_sub_surface _ = none

-- WaylandSurface::wl_surface: a surface that has neither lent its local surface nor has a role that
-- holds it is a panic.
unfoldable pub wl_surface : RemoteSurface → Option ℕ
wl_surface s = held s.role s.local_surface
  where
    held : Option RemoteRole → Option ℕ → Option ℕ
    held none l = l
    held (some (RemoteRole.cursor c)) l = l
    held (some (RemoteRole.sub_surface r)) l = some r.local_surface
    held (some (RemoteRole.xdg_toplevel r)) l = some r.local_window
    held (some (RemoteRole.xdg_popup r)) l = some r.local_popup

-- A surface with its local surface.
unfoldable pub fresh_surface : ℕ → ℕ → ℕ → RemoteSurface
fresh_surface client_id surface_id l = record {
  client = client_id;
  id = surface_id;
  buffer = none;
  local_surface = some l;
  role = none;
  opaque_region = none;
  input_region = none;
  z_ordered_children = record { id = surface_id; position = record { x = pos 0; y = pos 0 } } ∷ [];
  frame_callback_completed = true;
  frame_damage = none;
  viewport = none;
  current_viewport_state = none;
}

-- `0, 0, i32::MAX, i32::MAX`
abbrev pub everything : Rectangle ℤ
everything = record {
  loc = record { x = pos 0; y = pos 0 };
  size = record { w = pos 2147483647; h = pos 2147483647 };
}

abbrev sent_damage_limit : ℕ
sent_damage_limit = 256

module _ {B : Type 0} (compositor : Compositor B) where
  -- RemoteSurface::new
  unfoldable pub new : ℕ → ℕ → Action B RemoteSurface
  new client_id surface_id c = created (compositor.new_surface c.asked)
    where
      created : Option ℕ → Outcome B RemoteSurface
      created none = Outcome.err c
      created (some l) =
          Outcome.ok
            (record c {
              object_bimap =
                  compositor.bimap_insert (client_id, ObjectId.wl_surface_object surface_id) l
                    c.object_bimap;
              asked = c.asked ++ Asked.create_surface ∷ [];
            })
            (fresh_surface client_id surface_id l)

  -- `surfaces.entry(key).or_insert_with_result(|| RemoteSurface::new(client_id, surface_id, ...))`
  unfoldable pub or_insert_new : ℕ → ℕ → ℕ → Action B RemoteSurface
  or_insert_new key client_id surface_id c = elim (c.surfaces key) [
    | some t ↦ Outcome.ok c t
    | none ↦ (do t ← new client_id surface_id; put key t; pure t) c
  ]

  -- `attach_to`, which may fail, and the damage that follows it.
  unfoldable pub attach_to : RemoteBuffer → ℕ → Action B (Unit {0})
  attach_to buffer wl c =
      if compositor.attaches c.asked buffer.active_buffer wl
      then ask (Asked.attach wl buffer.active_buffer) c
      else Outcome.err c

  -- The surface of the loop's damage in draw_buffer: all of it when there is too much, or none
  -- was told.
  unfoldable pub limited_damage : ℕ → Option (List (Rectangle ℤ)) → Action B (Unit {0})
  limited_damage wl none = ask (Asked.damage_buffer wl everything)
  limited_damage wl (some rects) =
      if ltb (length rects) sent_damage_limit
      then for_each rects (λ r. ask (Asked.damage_buffer wl r))
      else ask (Asked.damage_buffer wl everything)

  unfoldable pub all_damage : ℕ → Option (List (Rectangle ℤ)) → Action B (Unit {0})
  all_damage wl none = ask (Asked.damage_buffer wl everything)
  all_damage wl (some rects) = for_each rects (λ r. ask (Asked.damage_buffer wl r))

  -- The part of draw_buffer for a buffer.
  unfoldable pub draw_dirty : ℕ → RemoteSurface → ℕ → Option RemoteBuffer → Action B (Unit {0})
  draw_dirty key s wl none = pure tt
  draw_dirty key s wl (some b) =
      if b.dirty
      then (do
        attach_to b wl
        limited_damage wl s.frame_damage
        put key (record s { buffer = some (record b { dirty = false }); frame_damage = none }))
      else pure tt

  -- RemoteSurface::draw_buffer
  unfoldable pub draw_buffer : ℕ → Action B (Unit {0})
  draw_buffer key = do
    s ← get key
    wl ← lift (wl_surface s)
    draw_dirty key s wl s.buffer
    ask (Asked.commit wl)

  -- The part of draw_buffer_send_frame for a buffer.
  unfoldable pub draw_dirty_send_frame :
      ℕ → RemoteSurface → ℕ → Option RemoteBuffer → Action B (Unit {0})
  draw_dirty_send_frame key s wl none = pure tt
  draw_dirty_send_frame key s wl (some b) =
      if b.dirty
      then (do
        attach_to b wl
        all_damage wl s.frame_damage
        ask (Asked.frame wl)
        put key (record s {
          buffer = some (record b { dirty = false });
          frame_damage = none;
          frame_callback_completed = false;
        }))
      else pure tt

  -- RemoteSurface::draw_buffer_send_frame
  unfoldable pub draw_buffer_send_frame : ℕ → Action B (Unit {0})
  draw_buffer_send_frame key = do
    s ← get key
    wl ← lift (wl_surface s)
    draw_dirty_send_frame key s wl s.buffer
    ask (Asked.commit wl)
