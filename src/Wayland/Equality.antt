-- ===== src/Wayland/Equality.antt =====
-- The derived PartialEq of the types of src/serialization/geometry.rs, wayland.rs and xdg_shell.rs.
use wprs.Base.{ℕ, ℕ_discrete, Bool, true, false, Option, List, ◌≡◌, refl}
use wprs.Geometry.{ℤ, Size}
use wprs.Wayland.{DecorationMode, XdgPositioner, Region, ViewportState, SurfaceState}

pub Int-discrete : Discrete ℤ
Int-discrete = hlevel (ℕ_discrete)

pub Size-discrete : Discrete (Size ℤ)
Size-discrete = hlevel (Int-discrete)

pub Region-discrete : Discrete Region
Region-discrete = hlevel (Int-discrete)

pub Region_option-discrete : Discrete (Option Region)
Region_option-discrete = hlevel (Region-discrete)

pub ViewportState_option-discrete : Discrete (Option ViewportState)
ViewportState_option-discrete = hlevel (ℕ_discrete, Int-discrete)

pub text_option-discrete : Discrete (Option (List ℕ))
text_option-discrete = hlevel (ℕ_discrete)

pub DecorationMode_option-discrete : Discrete (Option DecorationMode)
DecorationMode_option-discrete = hlevel

pub XdgPositioner-discrete : Discrete XdgPositioner
XdgPositioner-discrete = hlevel (ℕ_discrete, Int-discrete)

pub SurfaceState-discrete : Discrete SurfaceState
SurfaceState-discrete = hlevel (ℕ_discrete, Int-discrete)

-- `==` on a type whose equality is derived.
abbrev pub is_eq : {A : Type 0} → Discrete A → A → A → Bool
is_eq d a b = elim (d a b) [ yes e ↦ true | no n ↦ false ]

pub is_eq-true : {A : Type 0} (d : Discrete A) (a b : A) → a ≡ b → is_eq d a b ≡ true
is_eq-true d a b e = decided (d a b)
  where
    decided : (x : Dec (a ≡ b)) → (elim x [ yes e ↦ true | no n ↦ false ]) ≡ true
    decided (yes h) = refl
    decided (no n) = absurd (n e)

pub is_eq-false : {A : Type 0} (d : Discrete A) (a b : A) → ¬ (a ≡ b) → is_eq d a b ≡ false
is_eq-false d a b n = decided (d a b)
  where
    decided : (x : Dec (a ≡ b)) → (elim x [ yes e ↦ true | no n ↦ false ]) ≡ false
    decided (yes h) = absurd (n h)
    decided (no m) = refl
