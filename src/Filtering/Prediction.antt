-- ===== src/Filtering/Prediction.antt =====
-- src/filtering.rs: the colour decorrelation by the green channel and the prediction of a byte by
-- the one before it, on registers.
pub mod Sums
use wprs.Base.{ℕ, [], ◌∷◌, ◌++◌, replicate}
use wprs.Simd.{
  Lanes, add_epi8, sub_epi8, set1_epi8, set_epi8, slli_si256, extracti128_si256, set_m128i,
}

unfoldable pub subtract_green : Lanes ℕ → Lanes ℕ → Lanes ℕ → Lanes ℕ × Lanes ℕ
subtract_green b g r = (sub_epi8 b g, sub_epi8 r g)

unfoldable pub add_green : Lanes ℕ → Lanes ℕ → Lanes ℕ → Lanes ℕ × Lanes ℕ
add_green b g r = (add_epi8 b g, add_epi8 r g)

pub prefix_sum_32 : Lanes ℕ → Lanes ℕ
prefix_sum_32 block =
    let b1 = add_epi8 block (slli_si256 block 1) in
    let b2 = add_epi8 b1 (slli_si256 b1 2) in
    let b4 = add_epi8 b2 (slli_si256 b2 4) in add_epi8 b4 (slli_si256 b4 8)

pub accumulate_sum_16 : Lanes ℕ → Lanes ℕ → Lanes ℕ × Lanes ℕ
accumulate_sum_16 block prev_block =
    let cur_sum = set1_epi8 (block 15) in (add_epi8 prev_block block, add_epi8 prev_block cur_sum)

pub accumulate_sum_32 : Lanes ℕ → Lanes ℕ → Lanes ℕ × Lanes ℕ
unfolding accumulate_sum_16
accumulate_sum_32 block prev_block =
    let (block0, prev0) = accumulate_sum_16 (extracti128_si256 block 0) prev_block in
    let (block1, prev1) = accumulate_sum_16 (extracti128_si256 block 1) prev0 in
    (set_m128i block1 block0, prev1)

unfoldable pub prefix_sum : Lanes ℕ → Lanes ℕ → Lanes ℕ × Lanes ℕ
unfolding prefix_sum_32 accumulate_sum_32
prefix_sum block prev_block = accumulate_sum_32 (prefix_sum_32 block) prev_block

-- The two constant registers of `running_difference_32`, whose arguments are written here by their
-- runs of zeros, lane 31 first.
unfoldable pub lane_0 : ℕ → Lanes ℕ
lane_0 x = set_epi8 (replicate 31 0 ++ x ∷ [])

unfoldable pub lane_16 : ℕ → Lanes ℕ
lane_16 x = set_epi8 (replicate 15 0 ++ x ∷ replicate 16 0)

unfoldable pub running_difference_32 : Lanes ℕ → ℕ → Lanes ℕ × ℕ
running_difference_32 block prev =
    let shifted = sub_epi8 block (slli_si256 block 1) in
    (sub_epi8 (sub_epi8 shifted (lane_16 (block 15))) (lane_0 prev), block 31)
