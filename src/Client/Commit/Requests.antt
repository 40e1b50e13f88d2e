-- ===== src/Client/Commit/Requests.antt =====
-- src/client/xdg_shell.rs: requests that only read the surfaces.
use wprs.Base.{
  ℕ, Bool, true, false, Option, none, some, List, inl, inr, guard, Option-cases, if◌then◌else◌,
}
use wprs.Geometry.{ℤ, Size}
use wprs.Wayland.{DecorationMode, XdgSurfaceState, XdgPositioner}
use wprs.Wayland.Equality.{
  Size-discrete, text_option-discrete, DecorationMode_option-discrete, is_eq,
}
use wprs.Client.{
  RemoteXdgToplevel, Asked, Compositor, ClientState, Outcome, Action, pure, ask, Surfaces,
}
use wprs.Client.Settled.{
  Settled, Leaves, >>=-Leaves, get_any-Leaves, lift_any-Leaves, ask-Leaves, pure-Leaves,
}
use wprs.Client.XdgToplevel
use wprs.Client.XdgToplevel.{
  as_xdg_toplevel, xdg_toplevel, toplevel_state_of, new_toplevel, set_parent, set_maximized,
  set_fullscreen, set_title, set_app_id, set_decoration_mode, set_max_size, set_min_size,
}
use wprs.Client.XdgPopup
use wprs.Client.XdgPopup.{xdg_popup, popup_state_of, try_ask, new_positioner}

-- Requests that only read the surfaces.
module _ {B : Type 0} (R P : Surfaces → Type 0) (weaker : (m : Surfaces) → P m → R m) where
  pub set_parent-Leaves :
      (l : ℕ) (parent : Option ℕ) → Leaves P (λ u. P) R (set_parent {B = B} l parent)
  unfolding set_parent
  set_parent-Leaves l none = pure-Leaves R tt
  set_parent-Leaves l (some id) =
      >>=-Leaves R (λ s. P) (get_any-Leaves R P weaker id)
        (λ s.
          >>=-Leaves R (λ t. P) (lift_any-Leaves R P weaker (xdg_toplevel s))
            (λ t. ask-Leaves R P weaker _))

  pub set_maximized-Leaves :
      (l : ℕ) (b : Option Bool) → Leaves P (λ u. P) R (set_maximized {B = B} l b)
  unfolding set_maximized
  set_maximized-Leaves l none = pure-Leaves R tt
  set_maximized-Leaves l (some b) = ask-Leaves R P weaker _

  pub set_fullscreen-Leaves :
      (l : ℕ) (b : Option Bool) → Leaves P (λ u. P) R (set_fullscreen {B = B} l b)
  unfolding set_fullscreen
  set_fullscreen-Leaves l none = pure-Leaves R tt
  set_fullscreen-Leaves l (some b) = ask-Leaves R P weaker _

  -- An attribute that is sent only if it has changed.
  pub unless-Leaves :
      {A : Type 0} (b : Bool) (a : A) {act : Action B A}
      → Leaves P (λ u. P) R act
      → Leaves P (λ u. P) R (if b then pure a else act)
  unless-Leaves true a h = pure-Leaves R a
  unless-Leaves false a h = h

  pub set_title-Leaves :
      (title : Option (List ℕ)) (t : RemoteXdgToplevel)
      → Leaves P (λ u. P) R (set_title {B = B} title t)
  unfolding set_title
  set_title-Leaves none t =
      unless-Leaves (is_eq text_option-discrete t.title none) t
        (>>=-Leaves R (λ u. P) (pure-Leaves R tt) (λ u. pure-Leaves R (record t { title = none })))
  set_title-Leaves (some text) t =
      unless-Leaves (is_eq text_option-discrete t.title (some text)) t
        (>>=-Leaves R (λ u. P) (ask-Leaves R P weaker _) (λ u. pure-Leaves R _))

  pub set_app_id-Leaves :
      (app_id : Option (List ℕ)) (t : RemoteXdgToplevel)
      → Leaves P (λ u. P) R (set_app_id {B = B} app_id t)
  unfolding set_app_id
  set_app_id-Leaves none t =
      unless-Leaves (is_eq text_option-discrete t.app_id none) t
        (>>=-Leaves R (λ u. P) (pure-Leaves R tt) (λ u. pure-Leaves R (record t { app_id = none })))
  set_app_id-Leaves (some text) t =
      unless-Leaves (is_eq text_option-discrete t.app_id (some text)) t
        (>>=-Leaves R (λ u. P) (ask-Leaves R P weaker _) (λ u. pure-Leaves R _))

  pub set_decoration_mode-Leaves :
      (mode : Option DecorationMode) (t : RemoteXdgToplevel)
      → Leaves P (λ u. P) R (set_decoration_mode {B = B} mode t)
  unfolding set_decoration_mode
  set_decoration_mode-Leaves mode t =
      unless-Leaves (is_eq DecorationMode_option-discrete t.decoration_mode mode) t
        (>>=-Leaves R (λ u. P) (ask-Leaves R P weaker _) (λ u. pure-Leaves R _))

  pub set_max_size-Leaves :
      (size : Size ℤ) (t : RemoteXdgToplevel) → Leaves P (λ u. P) R (set_max_size {B = B} size t)
  unfolding set_max_size
  set_max_size-Leaves size t =
      unless-Leaves (is_eq Size-discrete t.max_size size) t
        (>>=-Leaves R (λ u. P) (ask-Leaves R P weaker _) (λ u. pure-Leaves R _))

  pub set_min_size-Leaves :
      (size : Size ℤ) (t : RemoteXdgToplevel) → Leaves P (λ u. P) R (set_min_size {B = B} size t)
  unfolding set_min_size
  set_min_size-Leaves size t =
      unless-Leaves (is_eq Size-discrete t.min_size size) t
        (>>=-Leaves R (λ u. P) (ask-Leaves R P weaker _) (λ u. pure-Leaves R _))

  pub window_geometry-Leaves :
      (x : Option XdgSurfaceState) (t : RemoteXdgToplevel)
      → Leaves P (λ u. P) R (XdgToplevel.set_geometry {B = B} x t)
  unfolding XdgToplevel.set_geometry
  window_geometry-Leaves none t = pure-Leaves R t
  window_geometry-Leaves (some x) t = elim (Option-cases x.window_geometry) [
    | inl e ↦ rw e (pure-Leaves R t)
    | inr (g, e) ↦ rw e (
        >>=-Leaves R (λ u. P) (ask-Leaves R P weaker _)
          (λ u.
            >>=-Leaves R (λ u. P) (set_max_size-Leaves x.max_size t)
              (λ t'. set_min_size-Leaves x.min_size t')))
  ]

  pub popup_geometry-Leaves :
      (l : ℕ) (x : Option XdgSurfaceState) → Leaves P (λ u. P) R (XdgPopup.set_geometry {B = B} l x)
  unfolding XdgPopup.set_geometry
  popup_geometry-Leaves l none = pure-Leaves R tt
  popup_geometry-Leaves l (some x) = elim (Option-cases x.window_geometry) [
    | inl e ↦ rw e (pure-Leaves R tt)
    | inr (g, e) ↦ rw e (ask-Leaves R P weaker _)
  ]

  pub try_ask-Leaves :
      (compositor : Compositor B) (succeeds : List Asked → Bool) (a : Asked)
      → Leaves P (λ u. P) R (try_ask compositor succeeds a)
  unfolding try_ask
  try_ask-Leaves compositor succeeds a = record { run = λ c p. tried (succeeds c.asked) c p }
    where
      tried :
          (b : Bool) (c : ClientState B)
          → P c.surfaces
          → Settled (λ (u : Unit {0}). P) R (if b then ask a c else Outcome.err c)
      tried true c p = (ask-Leaves R P weaker a).run c p
      tried false c p = weaker c.surfaces p

  pub new_positioner-Leaves :
      (compositor : Compositor B) (p : XdgPositioner)
      → Leaves P (λ u. P) R (new_positioner compositor p)
  unfolding new_positioner
  new_positioner-Leaves compositor p =
      >>=-Leaves R (λ u. P) (try_ask-Leaves compositor _ _)
        (λ u.
          >>=-Leaves R (λ u. P)
            (lift_any-Leaves R P weaker (guard (compositor.is_anchor p.anchor_edges)))
            (λ u.
              >>=-Leaves R (λ u. P)
                (lift_any-Leaves R P weaker (guard (compositor.is_gravity p.gravity)))
                (λ u. pure-Leaves R p)))
