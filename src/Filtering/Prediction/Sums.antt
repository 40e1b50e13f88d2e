-- ===== src/Filtering/Prediction/Sums.antt =====
-- src/filtering.rs: the vector code of `prefix_sum` and `running_difference_32` against plain recursions over lanes.
use wprs.Base.{
  refl, inl, inr, Bool-cases, tabulate, tabulate-apply, ℕ, zero, suc, ◌+◌, ◌-◌, ◌%◌, ◌<◌, ◌≡◌,
  arith, ltb, ◌==◌, if◌then◌else◌,
}
use Prim.Native.Nat.add
use wprs.Simd.{Lanes, add_epi8, slli_si256, sub_u8}
use wprs.Filtering.Prediction.{
  prefix_sum_32, accumulate_sum_32, prefix_sum, lane_0, lane_16, running_difference_32,
}

-- The sum of the lanes up to lane `i`.
unfoldable pub running_sum : Lanes ℕ → ℕ → ℕ
running_sum f zero = f 0
running_sum f (suc i) = running_sum f i + f (suc i)

-- The sum of the `n` lanes that end at lane `i`, cut off at the start of the half register.
abbrev window : Lanes ℕ → ℕ → ℕ → ℕ
window f zero i = 0
window f (suc n) i = f i + (if i % 16 == 0 then 0 else window f n (i - 1))

window-add :
    (f : Lanes ℕ) (m n i : ℕ)
    → window f (m + n) i ≡ window f m i + (if ltb (i % 16) m then 0 else window f n (i - m))
window-add f zero n i = ground arith
window-add f (suc m) n i = rw add.suc (ground (arith, window-add f m n (i - 1)))

-- One round of the doubling in `prefix_sum_32`.
double_window :
    (f b : Lanes ℕ) (n : ℕ)
    → ((i : ℕ) → b i % 256 ≡ window f n i % 256)
    → (i : ℕ) → add_epi8 b (slli_si256 b n) i % 256 ≡ window f (n + n) i % 256
double_window f b n h i = ground (arith, window-add f n n i, h i, h (i - n))

prefix_sum_32-eq-window : (f : Lanes ℕ) (i : ℕ) → prefix_sum_32 f i % 256 ≡ window f 16 i % 256
unfolding prefix_sum_32
prefix_sum_32-eq-window f =
    double_window f _ 8
      (double_window f _ 4 (double_window f _ 2 (double_window f _ 1 (λ i. ground arith))))

-- From the start of a half on, a window that is long enough completes the sum of what is before.
window_half :
    (f : Lanes ℕ) (n i : ℕ)
    → i < 32
    → i % 16 < n
    → window f n i + (if ltb i 16 then 0 else running_sum f 15) ≡ running_sum f i
unfolding running_sum
window_half f zero i b h = absurd (omega arith)
window_half f (suc n) zero b h = ground arith
window_half f (suc n) (suc i) b h = ground (arith, window_half f n i)

accumulate_sum_32-lane :
    (b prev_block : Lanes ℕ) (i : ℕ)
    → (accumulate_sum_32 b prev_block).0 i
      ≡ (if ltb i 16 then prev_block i + b i else prev_block (i - 16) + b 15 + b i) % 256
unfolding accumulate_sum_32
accumulate_sum_32-lane b prev_block i = ground arith

-- Lane `i` of the 32 of `prefix_sum` is the byte carried in, which fills `prev_block`, plus the
-- sum of the lanes up to `i`, modulo 256.
pub prefix_sum-eq-running_sum :
    (f prev_block : Lanes ℕ) (p i : ℕ)
    → ((k : ℕ) → prev_block k ≡ p)
    → i < 32
    → (prefix_sum f prev_block).0 i ≡ (p + running_sum f i) % 256
unfolding prefix_sum
prefix_sum-eq-running_sum f prev_block p i h b =
    rw accumulate_sum_32-lane (elim (Bool-cases (ltb i 16)) [
      | inl low ↦ rw low (ground (arith, h i, prefix_sum_32-eq-window f i, window_half f 16 i))
      | inr high ↦ rw high (
          ground (
            arith,
            h (i - 16),
            prefix_sum_32-eq-window f i,
            prefix_sum_32-eq-window f 15,
            window_half f 16 i,
            window_half f 16 15,
          ))
    ])

-- Every lane of the register that `prefix_sum` carries on holds the byte carried in, which fills
-- `prev_block`, plus the sum of all 32 lanes, modulo 256.
pub prefix_sum-carry :
    (f prev_block : Lanes ℕ) (p k : ℕ)
    → ((k : ℕ) → prev_block k ≡ p)
    → (prefix_sum f prev_block).1 k ≡ (p + running_sum f 31) % 256
unfolding prefix_sum
prefix_sum-carry f prev_block p k h = ground (
  arith,
  h k,
  prefix_sum_32-eq-window f 15,
  prefix_sum_32-eq-window f 31,
  window_half f 16 15,
  window_half f 16 31,
)

abbrev pub before : Lanes ℕ → ℕ → ℕ → ℕ
before f prev zero = prev
before f prev (suc i) = f i

-- The constant registers of `running_difference_32`, lane by lane.
lane_0-lane : (x i : ℕ) → i < 32 → lane_0 x i ≡ (if i == 0 then x else 0)
unfolding lane_0 tabulate
lane_0-lane x = tabulate-apply 32 (lane_0 x) (λ i. if i == 0 then x else 0) refl

lane_16-lane : (x i : ℕ) → i < 32 → lane_16 x i ≡ (if i == 16 then x else 0)
unfolding lane_16 tabulate
lane_16-lane x = tabulate-apply 32 (lane_16 x) (λ i. if i == 16 then x else 0) refl

-- Lane `i` of the 32 of `running_difference_32` is the lane less the one before it, across the
-- two halves and from the block before, when lane 15 and the byte carried in are bytes.
pub running_difference_32-eq-sub :
    (f : Lanes ℕ) (prev i : ℕ)
    → i < 32
    → f 15 < 256
    → prev < 256
    → (running_difference_32 f prev).0 i ≡ sub_u8 (f i) (before f prev i)
unfolding running_difference_32
running_difference_32-eq-sub f prev zero b h15 hp =
    ground (arith, lane_0-lane prev zero, lane_16-lane (f 15) zero)
running_difference_32-eq-sub f prev (suc i) b h15 hp =
    ground (arith, lane_0-lane prev (suc i), lane_16-lane (f 15) (suc i))
