-- ===== src/Client/Commit/Reachable.antt =====
-- src/client: all that the calls of a client's surfaces can come to, also when they fail. A call is one
-- of those that a commit or a request makes on the map of surfaces.
use mathlib.Core.Path.{subst}
use wprs.Base.{ℕ, Option, none, some, List, ◌≡◌, inl, inr, Option-cases}
use wprs.Geometry.{ℤ, Point, Rectangle}
use wprs.Wayland.{Region, Role, Transform, ViewportState, BufferAssignment, SurfaceState}
use wprs.Client.{
  RemoteBuffer, RemoteSurface, Asked, Compositor, ClientState, Outcome, left_by, Action, ◌>>=◌,
  pure, or_insert_new, draw_buffer, draw_buffer_send_frame, Surfaces,
}
use wprs.Client.Attributes.{
  set_transformation, set_viewport_state, set_input_region, set_opaque_region, add_damage,
}
use wprs.Client.Attributes.Kept.{
  set_transformation-IsLinked, set_viewport_state-IsLinked, set_input_region-IsLinked,
  set_opaque_region-IsLinked, add_damage-IsLinked,
}
use wprs.Client.Commit.{buffer_applied, apply_role}
use wprs.Client.Commit.Branches.{buffer_applied-IsLinked, apply_role-IsLinked}
use wprs.Client.Commit.Popups.{popup_update}
use wprs.Client.Commit.Windows.{toplevel_update}
use wprs.Client.Display.{ToplevelRequest, PopupRequest, Seats}
use wprs.Client.Display.Linked.{
  CanBeCursor, toplevel_request-IsLinked, popup_request-IsLinked, cursor_request-IsLinked,
}
use wprs.Client.Display.Requests.{toplevel_request, popup_request, cursor_request}
use wprs.Client.Settled.{Settled, Leaves}
use wprs.Client.Settled.Lent.{IsLinkedBut}
use wprs.Client.Stacking.Ids.{IsDistinct}
use wprs.Client.Subsurface
use wprs.Client.Subsurface.{
  populate_subsurfaces, reorder_subsurfaces, commit_sync_children, handle_surface_destroy,
  sub_surface_of,
}
use wprs.Client.Subsurface.Linked.{IsLinked}
use wprs.Client.Subsurface.Roles.{or_insert_new-IsLinked}
use wprs.Client.Subsurface.Unlinking.{handle_surface_destroy-IsLinked}
use wprs.Client.Subsurface.Outcomes.{draw_buffer-IsLinked, draw_buffer_send_frame-IsLinked}
use wprs.Client.Subsurface.Reordered.{reorder_subsurfaces-IsLinked}
use wprs.Client.Subsurface.Commits.{
  populate_subsurfaces-missing, populate_subsurfaces-idle, apply-IsLinked,
  commit_sync_children-IsLinked,
}
use wprs.Client.XdgPopup
use wprs.Client.XdgToplevel

-- The calls that may fail: of a commit, from the entry that it makes when it is missing to the
-- drawing of the tree, and of the requests about windows, popups, the cursor and the end of a
-- surface. The role of a window or a popup is not among them, since its failure may leave a surface
-- without its local surface; it is a step of its own below, when it is made.
pub data Call : Type 0 where
  enter : ℕ → ℕ → Call
  set_buffer : ℕ → RemoteSurface → Option BufferAssignment → Option RemoteBuffer → Call
  transform : ℕ → ℤ → Option Transform → Call
  scale_to : ℕ → Option ViewportState → Call
  take_input : ℕ → Option Region → Call
  be_opaque : ℕ → Option Region → Call
  damage : ℕ → Option (List (Rectangle ℤ)) → Call
  populate : ℕ → ℕ → Call
  reorder : ℕ → SurfaceState → Call
  become_subsurface : ℕ → SurfaceState → ℕ → Call
  update_window : SurfaceState → ℕ → Call
  update_popup : SurfaceState → ℕ → Call
  commit_children : ℕ → ℕ → Call
  draw : ℕ → Call
  draw_send_frame : ℕ → Call
  destroy : ℕ → Call
  about_window : Seats → ToplevelRequest → Call
  about_popup : PopupRequest → Call
  about_cursor : ℕ → ℕ → ℕ → Point ℤ → Call

-- The server lists no child twice, and says of no subsurface that it was a popup. A surface with
-- another role does not become the cursor. The buffer is set on the surface as it is there.
abbrev pub IsFromServer : Call → Surfaces → Type 0
IsFromServer (Call.set_buffer k s a b) m = m k ≡ some s
IsFromServer (Call.reorder surface_id state) m = IsDistinct state.z_ordered_children
IsFromServer (Call.about_popup r) m =
    (s : RemoteSurface) → m r.surface ≡ some s → sub_surface_of s ≡ none
IsFromServer (Call.about_cursor serial client_id k hotspot) m =
    (s : RemoteSurface) → m k ≡ some s → CanBeCursor s.role
IsFromServer _ m = Unit

module _ {B : Type 0} (compositor : Compositor B) where
  unfoldable pub perform : Call → Action B (Unit {0})
  perform (Call.enter client_id k) = do s ← or_insert_new compositor k client_id k; pure tt
  perform (Call.set_buffer k s a b) = buffer_applied compositor k s a b
  perform (Call.transform k scale t) = set_transformation k scale t
  perform (Call.scale_to k v) = set_viewport_state compositor k v
  perform (Call.take_input k r) = set_input_region compositor k r
  perform (Call.be_opaque k r) = set_opaque_region compositor k r
  perform (Call.damage k rectangles) = add_damage k rectangles
  perform (Call.populate client_id k) = populate_subsurfaces compositor client_id k
  perform (Call.reorder k state) = reorder_subsurfaces compositor k state
  perform (Call.become_subsurface client_id state k) = Subsurface.apply compositor client_id state k
  perform (Call.update_window state k) = XdgToplevel.update state k
  perform (Call.update_popup state k) = XdgPopup.update compositor state k
  perform (Call.commit_children fuel k) = commit_sync_children compositor fuel k
  perform (Call.draw k) = draw_buffer compositor k
  perform (Call.draw_send_frame k) = draw_buffer_send_frame compositor k
  perform (Call.destroy k) = handle_surface_destroy k
  perform (Call.about_window seats r) = toplevel_request seats r
  perform (Call.about_popup r) = popup_request r
  perform (Call.about_cursor serial client_id k hotspot) =
      cursor_request compositor serial client_id k hotspot

  -- The states that calls lead to from a client without surfaces, whether or not they fail, and
  -- roles of windows and popups that are made.
  pub data Reaches : ClientState B → Type 0 where
    started :
        (bimap : B) (asked : List Asked)
        → Reaches (record { surfaces = λ j. none; object_bimap = bimap; asked = asked })
    performed :
        {c : ClientState B} (call : Call)
        → IsFromServer call c.surfaces
        → Reaches c
        → Reaches (left_by (perform call c))
    became :
        {c : ClientState B} (client_id : ℕ) (state : SurfaceState) (k : ℕ) (title_prefix : List ℕ)
        (role : Option Role) (c' : ClientState B)
        → Reaches c
        → apply_role compositor client_id state k title_prefix role c ≡ Outcome.ok c' tt
        → Reaches c'

  -- An action that keeps the surfaces linked when it succeeds and when it fails.
  abbrev Keeps : Action B (Unit {0}) → Type 0
  Keeps act = Leaves IsLinked (λ u. IsLinked) IsLinked act

  settled :
      (o : Outcome B (Unit {0}))
      → Settled (λ u. IsLinked) IsLinked o
      → IsLinked (left_by o).surfaces
  settled (Outcome.err c) h = h
  settled (Outcome.ok c u) h = h

  left :
      (act : Action B (Unit {0})) (c : ClientState B)
      → Keeps act
      → IsLinked c.surfaces
      → IsLinked (left_by (act c)).surfaces
  left act c keeps h = settled (act c) (keeps.run c h)

  abbrev same : (m : Surfaces) → IsLinked m → IsLinked m
  same m h = h

  perform-IsLinked :
      (call : Call) (c : ClientState B)
      → IsFromServer call c.surfaces
      → IsLinked c.surfaces
      → IsLinked (left_by (perform call c)).surfaces
  unfolding perform
  perform-IsLinked (Call.enter client_id k) c a h =
      or_insert_new-IsLinked compositor client_id k c h
  perform-IsLinked (Call.set_buffer k s b new) c a h =
      settled (buffer_applied compositor k s b new c)
        ((buffer_applied-IsLinked compositor k IsLinked same s b new).run c (h, a))
  perform-IsLinked (Call.transform k scale t) c a h =
      left _ c (set_transformation-IsLinked IsLinked same k scale t) h
  perform-IsLinked (Call.scale_to k v) c a h =
      left _ c (set_viewport_state-IsLinked IsLinked same compositor k v) h
  perform-IsLinked (Call.take_input k r) c a h =
      left _ c (set_input_region-IsLinked IsLinked same compositor k r) h
  perform-IsLinked (Call.be_opaque k r) c a h =
      left _ c (set_opaque_region-IsLinked IsLinked same compositor k r) h
  perform-IsLinked (Call.damage k rectangles) c a h =
      left _ c (add_damage-IsLinked IsLinked same k rectangles) h
  perform-IsLinked (Call.populate client_id k) c a h = elim (Option-cases (c.surfaces k)) [
    | inl missing ↦ rw (populate_subsurfaces-missing compositor client_id k c missing) h
    | inr (s, there) ↦ rw (populate_subsurfaces-idle compositor client_id k s c h there) h
  ]
  perform-IsLinked (Call.reorder k state) c a h =
      (reorder_subsurfaces-IsLinked compositor k state a).run c h
  perform-IsLinked (Call.become_subsurface client_id state k) c a h =
      (apply-IsLinked compositor client_id k state).run c h
  perform-IsLinked (Call.update_window state k) c a h =
      left _ c (toplevel_update k IsLinked same state) h
  perform-IsLinked (Call.update_popup state k) c a h =
      left _ c (popup_update compositor k IsLinked same state) h
  perform-IsLinked (Call.commit_children fuel k) c a h =
      (commit_sync_children-IsLinked compositor fuel k).run c h
  perform-IsLinked (Call.draw k) c a h = (draw_buffer-IsLinked compositor k).run c h
  perform-IsLinked (Call.draw_send_frame k) c a h =
      (draw_buffer_send_frame-IsLinked compositor k).run c h
  perform-IsLinked (Call.destroy k) c a h = handle_surface_destroy-IsLinked k c h
  perform-IsLinked (Call.about_window seats r) c a h =
      left _ c (toplevel_request-IsLinked seats r) h
  perform-IsLinked (Call.about_popup r) c a h =
      settled (popup_request r c) ((popup_request-IsLinked r).run c (h, a))
  perform-IsLinked (Call.about_cursor serial client_id k hotspot) c a h =
      settled (cursor_request compositor serial client_id k hotspot c)
        ((cursor_request-IsLinked k compositor serial client_id hotspot).run c (h, a))

  no_surface : (s : RemoteSurface) → none ≡ some s → ⊥
  no_surface s e = cc

  made :
      (k : ℕ) (c' : ClientState B) {o : Outcome B (Unit {0})}
      → o ≡ Outcome.ok c' tt
      → Settled (λ u. IsLinked) (IsLinkedBut k) o
      → IsLinked c'.surfaces
  made k c' e h = subst (Settled (λ u. IsLinked) (IsLinkedBut k)) e h

  -- In every state that can be reached from a client without surfaces by the calls listed in
  -- `Call`, whether or not these fail, and by roles that a commit makes or updates without an
  -- error, each surface has its own id and a local surface, lists itself and no id twice, and
  -- each other child that it lists is there as a subsurface of it; this is when no order from the
  -- server has an id twice, a buffer is set on the surface as it is there, and what is said to be
  -- a cursor has no other role, nor a popup that ends that of a subsurface.
  pub Reaches-IsLinked : (c : ClientState B) → Reaches c → IsLinked c.surfaces
  Reaches-IsLinked _ (Reaches.started bimap asked) = λ i s e. absurd (no_surface s e)
  Reaches-IsLinked _ (Reaches.performed {c = c} call a r) =
      perform-IsLinked call c a (Reaches-IsLinked c r)
  Reaches-IsLinked _ (Reaches.became {c = c} client_id state k title_prefix role c' r e) =
      made k c' e (
        (apply_role-IsLinked compositor k client_id state title_prefix role).run c
          (Reaches-IsLinked c r))
