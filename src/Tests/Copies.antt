-- ===== src/Tests/Copies.antt =====
-- The theorems on copies out of a buffer at concrete buffers.
use wprs.Base.{ℕ, ◌+◌, ◌*◌, ◌≤◌, ◌<◌, ◌≡◌, ◌⊎◌, inl, inr, refl, ap, ◌∙◌, arith, none, some}
use wprs.Pixels.{Memory}
use wprs.BufferPointer.{BufferPointer, vec4u8_pod}
use wprs.BufferPointer.Elements.{elements}
use wprs.BufferPointer.Copies.{MutSlice, copy_to_nonoverlapping}
use wprs.BufferPointer.Copies.Copied.{
  AreApart, ReadsBytes, copy_to_nonoverlapping_lem, copy_to_nonoverlapping-none,
}

abbrev bytes_at : Memory
bytes_at a = a

abbrev image : BufferPointer
image = record { ptr = 16; len = 33 }

abbrev canvas : MutSlice
canvas = record { ptr = 1000; len = 40 }

abbrev inside : MutSlice
inside = record { ptr = 100; len = 40 }

vec4u8-ReadsBytes : ReadsBytes vec4u8_pod
vec4u8-ReadsBytes m m' a a' same =
    let first : m a ≡ m' a' = ap m (omega arith) ∙ same 0 (omega arith) ∙ ap m' (omega arith) in
    rw (first, same 1 (omega arith), same 2 (omega arith), same 3 (omega arith)) refl

overlaps : AreApart vec4u8_pod image inside → ⊥
overlaps (inl h) = omega arith
overlaps (inr h) = omega arith

copy_to_nonoverlapping_lem_example :
    (m' : Memory) × (copy_to_nonoverlapping vec4u8_pod image canvas bytes_at ≡ some m')
    × (elements vec4u8_pod m' (record { ptr = 1000; len = 33 })
        ≡ elements vec4u8_pod bytes_at image)
    × ((a : ℕ) → (a < 1000) ⊎ (1000 + 33 * 4 ≤ a) → m' a ≡ bytes_at a)
copy_to_nonoverlapping_lem_example =
    copy_to_nonoverlapping_lem vec4u8_pod vec4u8-ReadsBytes image canvas bytes_at (omega arith)
      (omega arith) (inl (omega arith))

copy_to_nonoverlapping-none_example : copy_to_nonoverlapping vec4u8_pod image inside bytes_at ≡ none
copy_to_nonoverlapping-none_example =
    copy_to_nonoverlapping-none vec4u8_pod image inside bytes_at (inr overlaps)
