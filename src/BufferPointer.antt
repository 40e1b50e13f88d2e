-- ===== src/BufferPointer.antt =====
-- src/buffer_pointer.rs: a pointer with a length into memory that is only read. `none` is a panic.
-- An address is a number of bytes, 0 the null pointer; lifetimes have no run-time part.
pub mod Elements
pub mod Iteration
pub mod Copies
use wprs.Base.{
  ℕ, zero, suc, ◌+◌, ◌-◌, ◌*◌, ◌/◌, ◌%◌, Bool, Option, none, some, List, [], ◌∷◌, not, ◌&&◌, ltb,
  leb, ◌==◌, if◌then◌else◌, tabulate, min, guard, all_some, ◌>>=◌, ◌>>◌,
}
use wprs.Pixels.{Memory, Vec4u8, read_vec4u8}
use wprs.Utils.{n_chunks, assert_ne_0, assert_n1_x_n2_eq_n3}

-- What the code uses of an element type: its size, its alignment, and how memory holds a value.
pub record Pod {ℓ} (T : Type ℓ) : Type ℓ where
  pub size : ℕ
  pub align : ℕ
  pub read : Memory → ℕ → T

abbrev pub u8_pod : Pod ℕ
u8_pod = record { size = 1; align = 1; read = λ m a. m a }

abbrev pub vec4u8_pod : Pod Vec4u8
vec4u8_pod = record { size = 4; align = 1; read = read_vec4u8 }

pub record BufferPointer : Type 0 where
  pub ptr : ℕ
  pub len : ℕ

-- The pointers of the const-generic type carry their length in the type.
pub record KnownSizeBufferPointer (n : ℕ) : Type 0 where
  pub ptr : ℕ

pub record Chunks : Type 0 where
  pub ptr : BufferPointer
  pub chunk_size : ℕ

pub record ArrayChunks (n : ℕ) : Type 0 where
  pub ptr : BufferPointer
  pub rem : Option BufferPointer

pub record BufferPointerIter : Type 0 where
  pub ptr : BufferPointer
  pub idx : ℕ

unfoldable pub is_empty : BufferPointer → Bool
is_empty b = b.len == 0

module _ {ℓ} {T : Type ℓ} (pod : Pod T) where
  -- the two assertions of both `new_impl`s
  abbrev pub is_usable : ℕ → Bool
  is_usable ptr = not (ptr == 0) && (ptr % pod.align == 0)

  unfoldable pub new : ℕ → ℕ → Option BufferPointer
  new ptr len = do guard (is_usable ptr); some (record { ptr = ptr; len = len })

  unfoldable pub new_known_size : (n : ℕ) → ℕ → Option (KnownSizeBufferPointer n)
  new_known_size n ptr = do
    guard (assert_ne_0 n)
    guard (is_usable ptr)
    some (record { ptr = ptr })

  unfoldable pub split_at : BufferPointer → ℕ → Option (BufferPointer × BufferPointer)
  unfolding new
  split_at b mid = do
    guard (leb mid b.len)
    fst ← new b.ptr mid
    snd ← new (b.ptr + mid * pod.size) (b.len - mid)
    some (fst, snd)

  unfoldable pub as_known_size : (n : ℕ) → BufferPointer → Option (KnownSizeBufferPointer n)
  unfolding new_known_size
  as_known_size n b = do guard (b.len == n); new_known_size n b.ptr

  unfoldable pub chunks : BufferPointer → ℕ → Option Chunks
  chunks b chunk_size = do
    guard (assert_ne_0 chunk_size)
    some (record { ptr = b; chunk_size = chunk_size })

  -- Chunks::next: the item, if any, and the iterator after it.
  unfoldable pub next_chunk : Chunks → Option (Option BufferPointer × Chunks)
  next_chunk c = if c.ptr.len == 0 then some (none, c) else do
    (fst, snd) ← split_at c.ptr (min c.ptr.len c.chunk_size)
    some (some fst, record c { ptr = snd })

  unfoldable pub array_chunks : (n : ℕ) → BufferPointer → Option (ArrayChunks n)
  array_chunks n b = do guard (assert_ne_0 n); some (record { ptr = b; rem = none })

  -- ArrayChunks::next
  unfoldable pub next_array :
      (n : ℕ) → ArrayChunks n → Option (Option (KnownSizeBufferPointer n) × ArrayChunks n)
  next_array n c = if ltb c.ptr.len n then some (none, record c { rem = some c.ptr }) else do
    (fst, snd) ← split_at c.ptr n
    known ← as_known_size n fst
    some (some known, record c { ptr = snd })

  -- The `for` loops over the two iterators; one round of fuel for each call of `next`.
  unfoldable pub collect_chunks : ℕ → Chunks → Option (List BufferPointer)
  collect_chunks zero c = none
  collect_chunks (suc fuel) c = next_chunk c >>= λ (item, c'). elim item [
    | none ↦ some []
    | some b ↦ (collect_chunks fuel c' >>= λ rest. some (b ∷ rest))
  ]

  unfoldable pub collect_arrays :
      (n : ℕ) → ℕ → ArrayChunks n → Option (List (KnownSizeBufferPointer n))
  collect_arrays n zero c = none
  collect_arrays n (suc fuel) c = next_array n c >>= λ (item, c'). elim item [
    | none ↦ some []
    | some b ↦ (collect_arrays n fuel c' >>= λ rest. some (b ∷ rest))
  ]

  -- KnownSizeBufferPointer::as_chunks: part `i` starts at element `i * len / n_parts`.
  unfoldable pub as_chunks :
      (size n_parts n : ℕ) → KnownSizeBufferPointer n → Option (List (KnownSizeBufferPointer size))
  unfolding new_known_size
  as_chunks size n_parts n b = do
    guard (assert_ne_0 size)
    guard (assert_ne_0 n_parts)
    guard (assert_n1_x_n2_eq_n3 size n_parts n)
    all_some (tabulate n_parts (λ i. new_known_size size (b.ptr + i * n / n_parts * pod.size)))

  -- BufferPointerIter::next
  unfoldable pub next_element : Memory → BufferPointerIter → Option T × BufferPointerIter
  next_element m it =
      if leb it.ptr.len it.idx
      then (none, it)
      else (some (pod.read m (it.ptr.ptr + it.idx * pod.size)), record it { idx = it.idx + 1 })

  unfoldable pub collect_elements : Memory → ℕ → BufferPointerIter → Option (List T)
  collect_elements m zero it = none
  collect_elements m (suc fuel) it =
      let (item, it') = next_element m it in
      elim item [
        | none ↦ some []
        | some x ↦ (collect_elements m fuel it' >>= λ rest. some (x ∷ rest))
      ]

  -- IntoIterator, with the fuel that its length asks for.
  unfoldable pub into_list : Memory → BufferPointer → Option (List T)
  into_list m b = collect_elements m (suc b.len) (record { ptr = b; idx = 0 })

-- The three `size_hint`s; the lower and the upper bound are the same number.
unfoldable pub chunks_size_hint : Chunks → Option ℕ
chunks_size_hint c = n_chunks c.ptr.len c.chunk_size

unfoldable pub array_size_hint : (n : ℕ) → ArrayChunks n → Option ℕ
array_size_hint n c = n_chunks c.ptr.len n

unfoldable pub element_size_hint : BufferPointerIter → ℕ
element_size_hint it = it.ptr.len

-- A cast between element types must keep the size in bytes.
unfoldable pub cast {ℓ κ} :
    {T : Type ℓ} {U : Type κ} → Pod T → Pod U → BufferPointer → Option BufferPointer
unfolding new
cast from to b =
    let new_len = b.len * from.size / to.size in
    (do
      guard (b.ptr % to.align == 0)
      guard (from.size * b.len == to.size * new_len)
      new to b.ptr new_len)
