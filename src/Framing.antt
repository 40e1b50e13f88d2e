-- ===== src/Framing.antt =====
-- src/serialization/framing.rs: how values are written to a byte stream and read back. A write is
-- the bytes that it appends to the stream. A read takes the bytes that have arrived and leaves the
-- rest; `none` is an `Err`, of `read_exact` at the end of the stream or of a bad value.
pub mod Laws
use wprs.Base.{
  ℕ, suc, ◌+◌, ◌*◌, ◌/◌, ◌%◌, ◌^◌, Bool, true, false, not, Option, none, some, List, [], ◌∷◌, ◌++◌,
  take, drop, length, ltb, ◌==◌, if◌then◌else◌, guard, ◌>>=◌, ◌>>◌,
}

-- The trait.
pub record Framed {ℓ} (A : Type ℓ) : Type ℓ where
  pub framed_write : A → List ℕ
  pub framed_read : List ℕ → Option (A × List ℕ)

-- Read::read_exact for a buffer of `n` bytes.
unfoldable pub read_exact : ℕ → List ℕ → Option (List ℕ × List ℕ)
read_exact n stream = if ltb (length stream) n then none else some (take n stream, drop n stream)

-- u32::to_be_bytes and u32::from_be_bytes
unfoldable pub to_be_bytes : ℕ → List ℕ
to_be_bytes x = x / 16777216 % 256 ∷ x / 65536 % 256 ∷ x / 256 % 256 ∷ x % 256 ∷ []

unfoldable pub from_be_bytes : List ℕ → ℕ
from_be_bytes (a ∷ b ∷ c ∷ d ∷ []) = 16777216 * a + 65536 * b + 256 * c + d
from_be_bytes _ = 0

-- u8::from_be_bytes
unfoldable pub byte_of : List ℕ → ℕ
byte_of (a ∷ []) = a
byte_of _ = 0

unfoldable pub framed_u8 : Framed ℕ
framed_u8 = record {
  framed_write = λ x. x ∷ [];
  framed_read = λ stream. do
    (buf, rest) ← read_exact 1 stream
    some (byte_of buf, rest);
}

unfoldable pub framed_bool : Framed Bool
unfolding framed_u8
framed_bool = record {
  framed_write = λ b. Framed.framed_write framed_u8 (if b then 1 else 0);
  framed_read = λ stream. do
    (x, rest) ← Framed.framed_read framed_u8 stream
    some (not (x == 0), rest);
}

unfoldable pub framed_u32 : Framed ℕ
framed_u32 = record {
  framed_write = λ x. to_be_bytes x;
  framed_read = λ stream. do
    (buf, rest) ← read_exact 4 stream
    some (from_be_bytes buf, rest);
}

-- A 64-bit usize, of which `as u32` keeps the low half.
unfoldable pub framed_usize : Framed ℕ
framed_usize = record {
  framed_write = λ x. Framed.framed_write framed_u32 (x % 4294967296);
  framed_read = Framed.framed_read framed_u32;
}

unfoldable pub framed_non_zero : Framed ℕ
framed_non_zero = record {
  framed_write = Framed.framed_write framed_usize;
  framed_read = λ stream. do
    (x, rest) ← Framed.framed_read framed_u32 stream
    guard (not (x == 0))
    some (x, rest);
}

-- Vec<u8> and AlignedVec
unfoldable pub framed_vec : Framed (List ℕ)
framed_vec = record {
  framed_write = λ xs. Framed.framed_write framed_usize (length xs) ++ xs;
  framed_read = λ stream. do
    (len, rest) ← Framed.framed_read framed_u32 stream
    read_exact len rest;
}

-- String, for the text that UTF-8 encodes.
unfoldable pub framed_string {ℓ} : {S : Type ℓ} → (S → List ℕ) → (List ℕ → Option S) → Framed S
framed_string as_bytes from_utf8 = record {
  framed_write = λ s. Framed.framed_write framed_usize (length (as_bytes s)) ++ as_bytes s;
  framed_read = λ stream. do
    (bytes, rest) ← Framed.framed_read framed_vec stream
    s ← from_utf8 bytes
    some (s, rest);
}
