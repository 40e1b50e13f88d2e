-- ===== src/Pixels.antt =====
-- The pixel type of src/vec4u8.rs, and memory as the code reads it through raw pointers.
use wprs.Base.{ℕ, ◌+◌}

-- Vec4u8, a packed tuple of four bytes.
pub record Vec4u8 : Type 0 where
  pub c0 : ℕ
  pub c1 : ℕ
  pub c2 : ℕ
  pub c3 : ℕ

abbrev pub vec4u8 : ℕ → ℕ → ℕ → ℕ → Vec4u8
vec4u8 a b c d = record { c0 = a; c1 = b; c2 = c; c3 = d }

-- The byte at each address. It is the same throughout a call: what another process writes into
-- shared memory meanwhile is left out.
abbrev pub Memory : Type 0
Memory = ℕ → ℕ

-- Vec4u8 is `repr(C, packed)`: its bytes lie in the order of its fields.
abbrev pub read_vec4u8 : Memory → ℕ → Vec4u8
read_vec4u8 m a = vec4u8 (m a) (m (a + 1)) (m (a + 2)) (m (a + 3))
