-- ===== src/Tests/Commits.antt =====
-- The theorems on commits at concrete states.
use wprs.Base.{ℕ, false, true, ◌≡◌, refl, Option, none, some, [], ◌∷◌}
use wprs.Geometry.{pos}
use wprs.Vec4u8s.{Vec4u8s}
use wprs.Wayland
use wprs.Wayland.{
  Role, Region, RectangleKind, SurfaceState, XdgSurfaceState, XdgToplevelState, new_state,
}
use wprs.Wayland.Equality.{text_option-discrete, DecorationMode_option-discrete, is_eq-true}
use wprs.Client.{
  RemoteRole, RemoteSurface, Asked, ClientState, Outcome, left_by, fresh_surface, insert,
  wl_surface, or_insert_new,
}
use wprs.Client
use wprs.Client.{◌>>=◌}
use wprs.Client.Attributes.{set_input_region}
use wprs.Client.Attributes.Told.{
  input_region_of, set_input_region-last_told, set_input_region-set_input_region,
}
use wprs.Client.Buffers.{apply_buffer}
use wprs.Client.Commit.{apply_role, commit_state, commit_applied, handle_commit}
use wprs.Client.Commit.Branches.{handle_commit-IsLinked}
use wprs.Client.Commit.Hidden.{Commits, apply-handle_commit}
use wprs.Client.Commit.Reachable.{Call, perform, Reaches, Reaches-IsLinked}
use wprs.Client.Settled.{Settled}
use wprs.Client.Settled.Lent.{IsLinkedBut}
use wprs.Client.Subsurface.Linked.{IsLinked}
use wprs.Client.Told.{last_told}
use wprs.Client.XdgToplevel
use wprs.Client.XdgToplevel.{new_toplevel, toplevel_state_of, xdg_toplevel}
use wprs.Client.XdgToplevel.Told.{Agrees}
use wprs.Client.XdgToplevel.Updated.{updated, update-Agrees}
use wprs.Tests.Buffers.{pool}
use wprs.Tests.Surfaces.{numbering, nothing}

-- A client with surface 2, whose local surface is 0.
abbrev alone : ClientState (Unit {0})
alone = record {
  surfaces = insert 2 (fresh_surface 7 2 0) (λ j. none);
  object_bimap = tt;
  asked = [];
}

abbrev window_state : Option ℕ → XdgToplevelState
window_state parent = record {
  id = 4;
  parent = parent;
  title = some (104 ∷ 105 ∷ []);
  app_id = none;
  decoration_mode = none;
  maximized = none;
  fullscreen = none;
}

abbrev state : Option ℕ → SurfaceState
state parent = record (new_state 7 2 none) { role = some (Role.xdg_toplevel (window_state parent)) }

nothing-IsLinked : IsLinked nothing.surfaces
nothing-IsLinked i s e = absurd (none-some e)
  where
    none-some : none ≡ some s → ⊥
    none-some e = cc

-- Surface 2, made for the commit of a window whose parent is missing.
abbrev made : ClientState (Unit {0})
made = record alone { asked = Asked.create_surface ∷ [] }

handle_commit-IsLinked_example :
    Settled
      (λ u. IsLinked)
      (IsLinkedBut 2)
      (commit_state numbering 3 7 2 [] (state (some 9)) (fresh_surface 7 2 0) none made)
unfolding handle_commit commit_applied or_insert_new Client.new Client.put apply_buffer new_state
    fresh_surface
handle_commit-IsLinked_example =
    handle_commit-IsLinked numbering 2 pool 3 7 [] (state (some 9)) none none 0 0 nothing
      (commit_state numbering 3 7 2 [] (state (some 9)) (fresh_surface 7 2 0) none made)
      nothing-IsLinked tt refl

-- Surface 2 becomes a window, and surface 3 a subsurface of it.
abbrev entered : ClientState (Unit {0})
entered = left_by (perform numbering (Call.enter 7 2) nothing)

abbrev untitled : XdgToplevelState
untitled = record (window_state none) { title = none }

abbrev plain : SurfaceState
plain = record (new_state 7 2 none) { role = some (Role.xdg_toplevel untitled) }

abbrev shown_window : ClientState (Unit {0})
shown_window =
    left_by (apply_role numbering 7 plain 2 [] (some (Role.xdg_toplevel untitled)) entered)

shown_window-made :
    apply_role numbering 7 plain 2 [] (some (Role.xdg_toplevel untitled)) entered
    ≡ Outcome.ok shown_window tt
unfolding apply_role XdgToplevel.apply XdgToplevel.set_role Client.get perform or_insert_new
    Client.new Client.put fresh_surface toplevel_state_of Wayland.as_xdg_toplevel Client.ask
    XdgToplevel.set_parent XdgToplevel.set_maximized XdgToplevel.set_fullscreen Client.register
    XdgToplevel.update xdg_toplevel XdgToplevel.as_xdg_toplevel XdgToplevel.set_geometry
    XdgToplevel.set_title XdgToplevel.set_app_id XdgToplevel.set_decoration_mode new_state
shown_window-made =
    let same = is_eq-true text_option-discrete none none refl in
    let same_mode = is_eq-true DecorationMode_option-discrete none none refl in
    rw (same, ◌>>=◌, same, ◌>>=◌, same_mode) refl

abbrev state_3 : SurfaceState
state_3 = record (new_state 7 3 none) {
  role = some (
      Role.sub_surface
        (record { parent = 2; location = record { x = pos 0; y = pos 0 }; sync = true }));
}

abbrev tree : ClientState (Unit {0})
tree = left_by (
    perform numbering (Call.become_subsurface 7 state_3 3)
      (left_by (perform numbering (Call.enter 7 3) shown_window)))

Reaches-IsLinked_example : IsLinked tree.surfaces
Reaches-IsLinked_example = Reaches-IsLinked numbering tree (
    Reaches.performed (Call.become_subsurface 7 state_3 3) tt (
      Reaches.performed (Call.enter 7 3) tt (
        Reaches.became 7 plain 2 [] (some (Role.xdg_toplevel untitled)) shown_window
          (Reaches.performed (Call.enter 7 2) tt (Reaches.started tt [])) shown_window-made)))

apply-handle_commit_example :
    (c' : ClientState (Unit {0})) × (XdgToplevel.apply numbering 7 (state (some 9)) 2 [] alone
      ≡ Outcome.err c')
    × ((c2 : ClientState (Unit {0})) (fuel : ℕ) (later : SurfaceState)
          (cache cache' : Option Vec4u8s) (p p' : ℕ) (o : Outcome (Unit {0}) (Unit {0}))
        → Commits numbering pool 2 c' c2
        → handle_commit numbering pool fuel 7 2 [] later cache p c2 ≡ some (o, cache', p')
        → (c3 : ClientState (Unit {0})) × (o ≡ Outcome.err c3))
unfolding fresh_surface new_state
apply-handle_commit_example =
    apply-handle_commit numbering pool 2 7 (state (some 9)) [] alone (fresh_surface 7 2 0) 0 9
      (window_state (some 9)) refl refl refl refl refl refl

abbrev region : Region
region = record { rects = [] }

set_input_region-last_told_example :
    (c' : ClientState (Unit {0})) × (s' : RemoteSurface) × (set_input_region numbering 2
        (some region)
        alone
      ≡ Outcome.ok c' tt)
    × (c'.surfaces 2 ≡ some s')
    × (s'.input_region ≡ some region)
    × (last_told (input_region_of 0) none c'.asked ≡ some region)
unfolding fresh_surface wl_surface
set_input_region-last_told_example =
    set_input_region-last_told numbering 2 0 (fresh_surface 7 2 0) (some region) alone refl refl
      refl refl

-- The compositor of the tests, when it makes no regions.
abbrev without_regions : Client.Compositor (Unit {0})
without_regions = record numbering { makes_region = λ asked. false }

set_input_region-set_input_region_example :
    (c' : ClientState (Unit {0})) × (set_input_region without_regions 2 (some region) alone
      ≡ Outcome.err c')
    × (set_input_region without_regions 2 (some region) c' ≡ Outcome.ok c' tt)
    × (c'.asked ≡ [])
unfolding fresh_surface wl_surface
set_input_region-set_input_region_example =
    set_input_region-set_input_region without_regions 2 0 (fresh_surface 7 2 0) region alone refl
      refl none-some refl
  where
    none-some : none ≡ some region → ⊥
    none-some e = cc

-- Surface 2 is a new window.
abbrev window : RemoteSurface
window = record (fresh_surface 7 2 0) {
  local_surface = none;
  role = some (RemoteRole.xdg_toplevel (new_toplevel 7 4 0 (91 ∷ [])));
}

abbrev windowed : ClientState (Unit {0})
windowed = record { surfaces = insert 2 window (λ j. none); object_bimap = tt; asked = [] }

abbrev renamed : Client.RemoteXdgToplevel
renamed = updated none (window_state none) (new_toplevel 7 4 0 (91 ∷ []))

new-Agrees : Agrees (new_toplevel 7 4 0 (91 ∷ [])) []
new-Agrees = record {
  title = λ x e. absurd (cc e);
  app_id = λ x e. absurd (cc e);
  decoration = refl;
  max_size = refl;
  min_size = refl;
}

update-Agrees_example :
    (c' : ClientState (Unit {0})) × (XdgToplevel.update (state none) 2 windowed ≡ Outcome.ok c' tt)
    × (c'.surfaces 2 ≡ some (record window { role = some (RemoteRole.xdg_toplevel renamed) }))
    × Agrees renamed c'.asked
unfolding new_state fresh_surface xdg_toplevel XdgToplevel.as_xdg_toplevel toplevel_state_of
    Wayland.as_xdg_toplevel
update-Agrees_example =
    update-Agrees (state none) (window_state none) 2 window (new_toplevel 7 4 0 (91 ∷ [])) windowed
      refl refl refl new-Agrees
