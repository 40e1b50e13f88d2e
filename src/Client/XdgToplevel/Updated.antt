-- ===== src/Client/XdgToplevel/Updated.antt =====
-- src/client/xdg_shell.rs: what the compositor knows of a window after update.
use wprs.Base.{ℕ, Option, none, some, [], ◌∷◌, ◌++◌, ◌≡◌, refl, ◌∙◌, inl, inr, Option-cases}
use wprs.Wayland.{SurfaceState, XdgSurfaceState, XdgToplevelState}
use wprs.Client.{
  RemoteXdgToplevel, RemoteRole, RemoteSurface, Asked, ClientState, Outcome, ◌>>=◌, get, put, ask,
  insert,
}
use wprs.Client.Subsurface.Linked.{insert-same}
use wprs.Client.Told.{last_told-append}
use wprs.Client.XdgToplevel
use wprs.Client.XdgToplevel.{
  size_as_u32, as_xdg_toplevel, xdg_toplevel, toplevel_state_of, set_title, set_app_id,
  set_decoration_mode, set_max_size, set_min_size, set_geometry,
}
use wprs.Client.XdgToplevel.Told.{
  Agrees, Sets, title_of, app_id_of, decoration_of, max_size_of, min_size_of, no_size,
}
use wprs.Client.XdgToplevel.Texts.{set_title-Sets, set_app_id-Sets}
use wprs.Client.XdgToplevel.Sizes.{set_decoration_mode-Sets, set_max_size-Sets, set_min_size-Sets}

-- The window with the sizes of a state that has a window geometry.
abbrev pub sized : Option XdgSurfaceState → RemoteXdgToplevel → RemoteXdgToplevel
sized none t = t
sized (some x) t = elim x.window_geometry [
  | none ↦ t
  | some g ↦ record t { max_size = x.max_size; min_size = x.min_size }
]

-- The window with the attributes of a state.
abbrev pub updated :
    Option XdgSurfaceState → XdgToplevelState → RemoteXdgToplevel → RemoteXdgToplevel
updated x q t = record (sized x t) {
  title = q.title;
  app_id = q.app_id;
  decoration_mode = q.decoration_mode;
}

set_geometry-Sets :
    {B : Type 0} (x : Option XdgSurfaceState) (t : RemoteXdgToplevel) (c : ClientState B)
    → Agrees t c.asked
    → Sets (sized x t) (set_geometry x t) c
unfolding set_geometry ask
set_geometry-Sets none t c h = (c, refl, refl, h)
set_geometry-Sets (some x) t c h = elim (Option-cases x.window_geometry) [
  | inl e ↦ rw e (c, refl, refl, h)
  | inr (g, e) ↦
      let a = Asked.set_window_geometry t.local_window (XdgToplevel.rectangle_as_u32 g) in
      let h1 : Agrees t (c.asked ++ a ∷ []) = record {
        title = λ y q. last_told-append (title_of t.local_window) none c.asked a ∙ h.title y q;
        app_id = λ y q. last_told-append (app_id_of t.local_window) none c.asked a ∙ h.app_id y q;
        decoration = last_told-append (decoration_of t.local_window) none c.asked a ∙ h.decoration;
        max_size = last_told-append (max_size_of t.local_window) no_size c.asked a ∙ h.max_size;
        min_size = last_told-append (min_size_of t.local_window) no_size c.asked a ∙ h.min_size;
      } in
      let m = set_max_size-Sets t (record c { asked = c.asked ++ a ∷ [] }) h1 x.max_size in
      let n = set_min_size-Sets (record t { max_size = x.max_size }) m.0 m.3 x.min_size in
      rw e (n.0, rw (set_geometry, ◌>>=◌, m.1, n.1) refl, n.2 ∙ m.2, n.3)
]

-- When what the client keeps of a window is what the compositor was last told, other than a title
-- or an application that was taken back, `update` of the window with a state for a window
-- returns; the window then has the title, the application and the decoration mode of the state,
-- and its sizes if the state has a window geometry, and what is kept is again what the compositor
-- was last told, with the same exception.
pub update-Agrees :
    {B : Type 0} (state : SurfaceState) (q : XdgToplevelState) (key : ℕ) (s : RemoteSurface)
    (t : RemoteXdgToplevel) (c : ClientState B)
    → c.surfaces key ≡ some s
    → xdg_toplevel s ≡ some t
    → toplevel_state_of state ≡ some q
    → Agrees t c.asked
    → (c' : ClientState B) × (XdgToplevel.update state key c ≡ Outcome.ok c' tt)
      × (c'.surfaces key
          ≡ some (record s {
            role = some (RemoteRole.xdg_toplevel (updated state.xdg_surface_state q t));
          }))
      × Agrees (updated state.xdg_surface_state q t) c'.asked
unfolding XdgToplevel.update get put
update-Agrees state q key s t c there is_window has_state h =
    let x = state.xdg_surface_state in
    let g = set_geometry-Sets x t c h in
    let s1 : RemoteSurface = record s { role = some (RemoteRole.xdg_toplevel (sized x t)) } in
    let c1 : ClientState _ = record g.0 { surfaces = insert key s1 g.0.surfaces } in
    let a = set_title-Sets (sized x t) c1 g.3 q.title in
    let b = set_app_id-Sets (record (sized x t) { title = q.title }) a.0 a.3 q.app_id in
    let d =
      set_decoration_mode-Sets (record (sized x t) { title = q.title; app_id = q.app_id }) b.0 b.3
        q.decoration_mode in
    let s2 : RemoteSurface = record s { role = some (RemoteRole.xdg_toplevel (updated x q t)) } in
    (
      record d.0 { surfaces = insert key s2 d.0.surfaces },
      rw (XdgToplevel.update, ◌>>=◌, there, is_window, g.1, has_state, a.1, b.1, d.1) refl,
      insert-same key s2 d.0.surfaces,
      d.3,
    )
