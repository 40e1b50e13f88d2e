-- ===== src/BufferPointer/Copies.antt =====
-- src/buffer_pointer.rs: copy_to_nonoverlapping and copy_to_array, into memory that is written.
-- The memory after a call is a result; `none` is a panic.
pub mod Copied
use wprs.Base.{
  ℕ, ◌+◌, ◌-◌, ◌*◌, Bool, Option, some, List, not, ◌&&◌, ltb, leb, if◌then◌else◌, tabulate, guard,
  ◌>>=◌, ◌>>◌,
}
use wprs.Pixels.{Memory}
use wprs.BufferPointer.{Pod, BufferPointer, KnownSizeBufferPointer}

-- A `&mut [T]`.
pub record MutSlice : Type 0 where
  pub ptr : ℕ
  pub len : ℕ

-- The standard library's copy_to_nonoverlapping, for a number of bytes.
abbrev pub copy_bytes : ℕ → ℕ → ℕ → Memory → Memory
copy_bytes src dst n m a = if leb dst a && ltb a (dst + n) then m (src + (a - dst)) else m a

-- Range::contains
abbrev pub is_within : ℕ → ℕ → ℕ → Bool
is_within start end a = leb start a && ltb a end

module _ {ℓ} {T : Type ℓ} (pod : Pod T) where
  unfoldable pub copy_to_nonoverlapping : BufferPointer → MutSlice → Memory → Option Memory
  copy_to_nonoverlapping b dst m = do
    guard (leb b.len dst.len)
    guard (not (is_within b.ptr (b.ptr + b.len * pod.size) dst.ptr))
    guard (not (is_within dst.ptr (dst.ptr + dst.len * pod.size) b.ptr))
    some (copy_bytes b.ptr dst.ptr (b.len * pod.size) m)

  -- The array, which lies at `out` until it is returned.
  unfoldable pub copy_to_array : (n : ℕ) → Memory → KnownSizeBufferPointer n → ℕ → List T
  copy_to_array n m b out =
      let m' : Memory = copy_bytes b.ptr out (n * pod.size) m in
      tabulate n (λ i. pod.read m' (out + i * pod.size))
