-- ===== src/Client/XdgToplevel/Told.antt =====
-- src/client/xdg_shell.rs: a window's attributes are sent only when they have changed, and the compositor
-- still has those of the last state.
use wprs.Base.{ℕ, Option, none, some, List, ◌++◌, ◌==◌, ◌≡◌, if◌then◌else◌}
use wprs.Geometry.{Size}
use wprs.Wayland.{DecorationMode}
use wprs.Client.{RemoteXdgToplevel, Asked, ClientState, Outcome, Action}
use wprs.Client.Told.{last_told}
use wprs.Client.XdgToplevel.{size_as_u32}

-- What is said of a window, by its number.
abbrev pub title_of : ℕ → Asked → Option (Option (List ℕ))
title_of w (Asked.set_title v x) = if v == w then some (some x) else none
title_of w _ = none

abbrev pub app_id_of : ℕ → Asked → Option (Option (List ℕ))
app_id_of w (Asked.set_app_id v x) = if v == w then some (some x) else none
app_id_of w _ = none

abbrev pub decoration_of : ℕ → Asked → Option (Option DecorationMode)
decoration_of w (Asked.request_decoration_mode v x) = if v == w then some x else none
decoration_of w _ = none

abbrev pub max_size_of : ℕ → Asked → Option (Size ℕ)
max_size_of w (Asked.set_max_size v x) = if v == w then some x else none
max_size_of w _ = none

abbrev pub min_size_of : ℕ → Asked → Option (Size ℕ)
min_size_of w (Asked.set_min_size v x) = if v == w then some x else none
min_size_of w _ = none

abbrev pub no_size : Size ℕ
no_size = record { w = 0; h = 0 }

-- What the client keeps of a window is what the compositor was last told of it; a title or an
-- application that was taken back is not told.
pub record Agrees (t : RemoteXdgToplevel) (asked : List Asked) : Type 0 where
  pub title :
      (x : List ℕ)
      → t.title ≡ some x
      → last_told (title_of t.local_window) none asked ≡ some (t.title_prefix ++ x)
  pub app_id :
      (x : List ℕ) → t.app_id ≡ some x → last_told (app_id_of t.local_window) none asked ≡ some x
  pub decoration : last_told (decoration_of t.local_window) none asked ≡ t.decoration_mode
  pub max_size : last_told (max_size_of t.local_window) no_size asked ≡ size_as_u32 t.max_size
  pub min_size : last_told (min_size_of t.local_window) no_size asked ≡ size_as_u32 t.min_size

-- An action that gives a window another attribute, and tells it unless it was told.
abbrev pub Sets :
    {B : Type 0} → RemoteXdgToplevel → Action B RemoteXdgToplevel → ClientState B → Type 0
Sets {B} t act c =
    (c' : ClientState B) × (act c ≡ Outcome.ok c' t)
    × (c'.surfaces ≡ c.surfaces)
    × Agrees t c'.asked
