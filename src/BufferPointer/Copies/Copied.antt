-- ===== src/BufferPointer/Copies/Copied.antt =====
-- src/buffer_pointer.rs: what memory holds after a copy, and when a copy panics.
use native.Mathlib.Nat.{mul-le-mul_right}
use wprs.Base.{
  dec_le, Bool-cases, ℕ, ◌+◌, ◌*◌, ◌≤◌, ◌<◌, ◌≡◌, refl, ap, ◌∙◌, arith, true, false, none, some,
  leb, tabulate, tabulate_ext, ◌⊎◌, inl, inr, ltb-false, leb-false, le→leb, lt→ltb,
}
use wprs.Pixels.{Memory}
use wprs.BufferPointer.{Pod, BufferPointer, KnownSizeBufferPointer}
use wprs.BufferPointer.Elements.{elements}
use wprs.BufferPointer.Copies.{
  MutSlice, copy_bytes, is_within, copy_to_nonoverlapping, copy_to_array,
}

copy_bytes-inside :
    (src dst n : ℕ) (m : Memory) (i : ℕ) → i < n → copy_bytes src dst n m (dst + i) ≡ m (src + i)
copy_bytes-inside src dst n m i h =
    rw (le→leb dst (dst + i) (omega arith), lt→ltb (dst + i) (dst + n) (omega arith))
      (ap m (omega arith))

copy_bytes-outside :
    (src dst n : ℕ) (m : Memory) (a : ℕ)
    → (a < dst) ⊎ (dst + n ≤ a)
    → copy_bytes src dst n m a ≡ m a
copy_bytes-outside src dst n m a (inl h) = rw (leb-false dst a h) refl
copy_bytes-outside src dst n m a (inr h) =
    rw (le→leb dst a (omega arith), ltb-false a (dst + n) h) refl

in_element : (i j n size : ℕ) → i < n → j < size → i * size + j < n * size
in_element i j n size p q = grind arith

separate :
    (p x q y : ℕ)
    → 0 < x
    → x ≤ y
    → (p + x ≤ q) ⊎ (q + y ≤ p)
    → (is_within p (p + x) q ≡ false) × (is_within q (q + y) p ≡ false)
separate p x q y pos le (inl h) = (ground arith, ground arith)
separate p x q y pos le (inr h) = (ground arith, ground arith)

overlapping :
    (p x q y : ℕ)
    → ¬ ((p + x ≤ q) ⊎ (q + y ≤ p))
    → (is_within p (p + x) q ≡ true) ⊎ (is_within q (q + y) p ≡ true)
overlapping p x q y apart_not = elim (dec_le p q) [
  | Dec.yes le ↦ inl (ground (arith, λ (h : p + x ≤ q). apart_not (inl h)))
  | Dec.no lt ↦ inr (ground (arith, λ (h : q + y ≤ p). apart_not (inr h)))
]

module _ {ℓ} {T : Type ℓ} (pod : Pod T) where
  -- A value is read from the bytes of its size, wherever they lie.
  abbrev pub ReadsBytes : Type ℓ
  ReadsBytes =
      (m m' : Memory) (a a' : ℕ)
      → ((i : ℕ) → i < pod.size → m (a + i) ≡ m' (a' + i))
      → pod.read m a ≡ pod.read m' a'

  -- The bytes of one lie before those of the other.
  abbrev pub AreApart : BufferPointer → MutSlice → Type 0
  AreApart b dst = (b.ptr + b.len * pod.size ≤ dst.ptr) ⊎ (dst.ptr + dst.len * pod.size ≤ b.ptr)

  copied :
      ReadsBytes
      → (src dst n : ℕ) (m : Memory)
      → tabulate n (λ i. pod.read (copy_bytes src dst (n * pod.size) m) (dst + i * pod.size))
        ≡ tabulate n (λ i. pod.read m (src + i * pod.size))
  copied reads src dst n m = tabulate_ext n _ _ (λ i h. reads _ m _ _ (λ j lt.
      ap (copy_bytes src dst (n * pod.size) m)
        (let e : dst + i * pod.size + j ≡ dst + (i * pod.size + j) = omega arith in e)
      ∙ copy_bytes-inside src dst (n * pod.size) m (i * pod.size + j)
          (in_element i j n pod.size h lt)
      ∙ ap m (let e : src + (i * pod.size + j) ≡ src + i * pod.size + j = omega arith in e)))

  pub copy_to_array-eq-elements :
      ReadsBytes
      → (n : ℕ) (m : Memory) (b : KnownSizeBufferPointer n) (out : ℕ)
      → copy_to_array pod n m b out ≡ elements pod m (record { ptr = b.ptr; len = n })
  unfolding copy_to_array
  copy_to_array-eq-elements reads n m b out = copied reads b.ptr out n m

  -- `copy_to_nonoverlapping` of a buffer that is not empty to a slice that is as long and lies
  -- apart from it does not panic: the start of the slice then holds the elements that the buffer
  -- pointed to, and the rest of memory what it held, when a value is read from the bytes of its
  -- size.
  pub copy_to_nonoverlapping_lem :
      ReadsBytes
      → (b : BufferPointer) (dst : MutSlice) (m : Memory) → 0 < b.len * pod.size
      → b.len ≤ dst.len
      → AreApart b dst
      → (m' : Memory) × (copy_to_nonoverlapping pod b dst m ≡ some m')
        × (elements pod m' (record { ptr = dst.ptr; len = b.len }) ≡ elements pod m b)
        × ((a : ℕ) → (a < dst.ptr) ⊎ (dst.ptr + b.len * pod.size ≤ a) → m' a ≡ m a)
  unfolding copy_to_nonoverlapping
  copy_to_nonoverlapping_lem reads b dst m pos fits apart = (
    copy_bytes b.ptr dst.ptr (b.len * pod.size) m,
    (let s =
          separate b.ptr (b.len * pod.size) dst.ptr (dst.len * pod.size) pos
            (mul-le-mul_right pod.size fits) apart in
        rw (le→leb b.len dst.len fits, s.0, s.1) refl),
    copied reads b.ptr dst.ptr b.len m,
    copy_bytes-outside b.ptr dst.ptr (b.len * pod.size) m,
  )

  -- `copy_to_nonoverlapping` panics when the slice is shorter than the buffer or their bytes are
  -- not apart.
  pub copy_to_nonoverlapping-none :
      (b : BufferPointer) (dst : MutSlice) (m : Memory)
      → (dst.len < b.len) ⊎ ¬ AreApart b dst
      → copy_to_nonoverlapping pod b dst m ≡ none
  unfolding copy_to_nonoverlapping
  copy_to_nonoverlapping-none b dst m (inl h) = rw (leb-false b.len dst.len h) refl
  copy_to_nonoverlapping-none b dst m (inr h) = elim (overlapping b.ptr _ dst.ptr _ h) [
    | inl e ↦ elim (Bool-cases (leb b.len dst.len)) [ inl t ↦ rw (t, e) refl | inr n ↦ rw n refl ]
    | inr e ↦ elim (Bool-cases (leb b.len dst.len)) [
      | inl t ↦ elim (Bool-cases (is_within b.ptr (b.ptr + b.len * pod.size) dst.ptr)) [
        | inl w ↦ rw (t, w) refl
        | inr n ↦ rw (t, n, e) refl
      ]
      | inr n ↦ rw n refl
    ]
  ]
