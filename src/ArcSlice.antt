-- ===== src/ArcSlice.antt =====
-- src/arc_slice.rs: a view of part of a shared slice. The shared data is never written, so a clone
-- of the `Arc` is the data itself. `none` is a panic.
pub mod View
use wprs.Base.{
  ℕ, zero, suc, ◌+◌, ◌-◌, min, Bool, not, Option, none, some, List, [], ◌∷◌, take, drop, length,
  leb, ◌==◌, if◌then◌else◌, guard, ◌>>=◌, ◌>>◌,
}
use wprs.Utils.{n_chunks}

pub record ArcSlice {ℓ} (T : Type ℓ) : Type ℓ where
  pub shared : List T
  pub offset : ℕ
  pub len : ℕ

pub record Chunks {ℓ} (T : Type ℓ) : Type ℓ where
  pub arc_slice : ArcSlice T
  pub chunk_size : ℕ

module _ {ℓ} {T : Type ℓ} where
  unfoldable pub new : List T → ArcSlice T
  new xs = record { shared = xs; offset = 0; len = length xs }

  unfoldable pub is_empty : ArcSlice T → Bool
  is_empty s = s.len == 0

  -- The range `start..end`. In a release build `end - start` would wrap below 0; every caller here
  -- has `start ≤ end`, and this stops at 0.
  unfoldable pub index : ArcSlice T → ℕ → ℕ → Option (ArcSlice T)
  index s start end = do
    guard (leb end s.len)
    some (record { shared = s.shared; offset = s.offset + start; len = end - start })

  unfoldable pub split_at : ArcSlice T → ℕ → Option (ArcSlice T × ArcSlice T)
  unfolding index
  split_at s mid = do
    guard (leb mid s.len)
    fst ← index s 0 mid
    snd ← index s mid s.len
    some (fst, snd)

  -- `as_ref`, which panics on a view that leaves the data.
  unfoldable pub as_ref : ArcSlice T → Option (List T)
  as_ref s = do
    guard (leb (s.offset + s.len) (length s.shared))
    some (take s.len (drop s.offset s.shared))

  unfoldable pub chunks : ArcSlice T → ℕ → Option (Chunks T)
  chunks s chunk_size = do
    guard (not (chunk_size == 0))
    some (record { arc_slice = s; chunk_size = chunk_size })

  -- Iterator::next: the item, if any, and the iterator after it.
  unfoldable pub next : Chunks T → Option (Option (ArcSlice T) × Chunks T)
  unfolding is_empty split_at
  next c = if is_empty c.arc_slice then some (none, c) else (do
    (fst, snd) ← split_at c.arc_slice (min c.arc_slice.len c.chunk_size)
    some (some fst, record c { arc_slice = snd }))

  unfoldable pub size_hint : Chunks T → Option ℕ
  size_hint c = n_chunks c.arc_slice.len c.chunk_size

  -- A loop over the iterator; one round of fuel for each call of `next`.
  unfoldable pub collect : ℕ → Chunks T → Option (List (ArcSlice T))
  collect zero c = none
  collect (suc fuel) c = next c >>= λ (item, c'). elim item [
    | none ↦ some []
    | some s ↦ (collect fuel c' >>= λ rest. some (s ∷ rest))
  ]
