-- ===== src/Geometry.antt =====
-- src/serialization/geometry.rs: points, sizes and rectangles, and the signed numbers in them.
use wprs.Base.{ℕ, ◌-◌, ◌%◌, Bool, false, ◌==◌}

-- The numbers of an i32.
pub data ℤ : Type 0 where
  pos : ℕ → ℤ
  negsuc : ℕ → ℤ

unfoldable pub eq_int : ℤ → ℤ → Bool
eq_int (pos m) (pos n) = m == n
eq_int (negsuc m) (negsuc n) = m == n
eq_int _ _ = false

-- `as u32`: the bits of the number.
abbrev pub to_u32 : ℤ → ℕ
to_u32 (pos n) = n % 4294967296
to_u32 (negsuc n) = 4294967295 - n % 4294967296

pub record Point {ℓ} (N : Type ℓ) : Type ℓ where
  pub x : N
  pub y : N

pub record Size {ℓ} (N : Type ℓ) : Type ℓ where
  pub w : N
  pub h : N

pub record Rectangle {ℓ} (N : Type ℓ) : Type ℓ where
  pub loc : Point N
  pub size : Size N
