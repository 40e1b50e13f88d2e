-- ===== src/Client/Attributes.antt =====
-- src/client/mod.rs and handle_commit of src/client/server_handlers.rs: what a commit sets on a surface
-- besides its buffer, its children and its role. Attributes are only sent when they have changed.
pub mod Told
pub mod Kept
use wprs.Base.{Bool, ℕ, not, Option, none, some, List, [], ◌∷◌, ◌++◌, if◌then◌else◌}
use wprs.Geometry.{ℤ, Size, Rectangle}
use wprs.Wayland.{Region, Transform, ViewportState}
use wprs.Wayland.Equality.{Region_option-discrete, ViewportState_option-discrete, is_eq}
use wprs.Client.{
  RemoteSurface, Asked, Compositor, ClientState, Outcome, Action, ◌>>=◌, ◌>>◌, pure, lift, when,
  get, put, ask, wl_surface,
}

-- The damage of a commit, behind what was not drawn yet.
unfoldable pub append_damage :
    Option (List (Rectangle ℤ)) → Option (List (Rectangle ℤ)) → Option (List (Rectangle ℤ))
append_damage none frame_damage = frame_damage
append_damage (some damage) none = some damage
append_damage (some damage) (some frame_damage) = some (frame_damage ++ damage)

module _ {B : Type 0} where
  abbrev pub transform_asked : ℕ → Option Transform → Action B (Unit {0})
  transform_asked wl none = pure tt
  transform_asked wl (some transform) = ask (Asked.set_buffer_transform wl transform)

  -- RemoteSurface::set_transformation
  unfoldable pub set_transformation : ℕ → ℤ → Option Transform → Action B (Unit {0})
  set_transformation key scale transform = do
    s ← get key
    wl ← lift (wl_surface s)
    ask (Asked.set_buffer_scale wl scale)
    transform_asked wl transform

  abbrev pub source_asked : ℕ → Option (Rectangle ℕ) → Action B (Unit {0})
  source_asked viewport none = pure tt
  source_asked viewport (some src) = ask (Asked.set_source viewport src)

  abbrev pub destination_asked : ℕ → Option (Size ℤ) → Action B (Unit {0})
  destination_asked viewport none = pure tt
  destination_asked viewport (some dst) = ask (Asked.set_destination viewport dst)

  -- The damage of the state is added to the surface's.
  unfoldable pub add_damage : ℕ → Option (List (Rectangle ℤ)) → Action B (Unit {0})
  add_damage key damage = do
    s ← get key
    put key (record s { frame_damage = append_damage damage s.frame_damage })

module _ {B : Type 0} (compositor : Compositor B) where
  -- `get_or_insert_with` on the surface's viewport.
  unfoldable pub viewport_for : ℕ → RemoteSurface → ℕ → Action B ℕ
  viewport_for key s wl c = found s.viewport
    where
      found : Option ℕ → Outcome B ℕ
      found (some v) = Outcome.ok c v
      found none =
          (do
            ask (Asked.get_viewport wl)
            put key (record s { viewport = some (compositor.new_viewport c.asked) })
            pure (compositor.new_viewport c.asked))
            c

  -- RemoteSurface::set_viewport_state
  unfoldable pub set_viewport_state : ℕ → Option ViewportState → Action B (Unit {0})
  set_viewport_state key none = pure tt
  set_viewport_state key (some viewport_state) = when compositor.has_viewporter (do
    s ← get key
    wl ← lift (wl_surface s)
    viewport ← viewport_for key s wl
    s' ← get key
    when (not (is_eq ViewportState_option-discrete s'.current_viewport_state (some viewport_state)))
        (do
          source_asked viewport viewport_state.src
          destination_asked viewport viewport_state.dst
          put key (record s' { current_viewport_state = some viewport_state })))

  -- Region::create_compositor_region: what is asked for then names the region's rectangles.
  unfoldable pub create_compositor_region : Option Region → Action B (Unit {0})
  create_compositor_region none c = Outcome.ok c tt
  create_compositor_region (some region) c =
      if compositor.makes_region c.asked then Outcome.ok c tt else Outcome.err c

  -- RemoteSurface::set_input_region
  unfoldable pub set_input_region : ℕ → Option Region → Action B (Unit {0})
  set_input_region key region = do
    s ← get key
    when (not (is_eq Region_option-discrete s.input_region region)) (do
      put key (record s { input_region = region })
      wl ← lift (wl_surface s)
      create_compositor_region region
      ask (Asked.set_input_region wl region))

  -- RemoteSurface::set_opaque_region
  unfoldable pub set_opaque_region : ℕ → Option Region → Action B (Unit {0})
  set_opaque_region key region = do
    s ← get key
    when (not (is_eq Region_option-discrete s.opaque_region region)) (do
      put key (record s { opaque_region = region })
      wl ← lift (wl_surface s)
      create_compositor_region region
      ask (Asked.set_opaque_region wl region))
