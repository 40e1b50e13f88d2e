-- ===== src/Filtering/Block.antt =====
-- src/filtering.rs: aos_to_soa_u8_32x4 and soa_to_aos_u8_32x4, one block of 32 pixels.
pub mod Forward
pub mod Backward
use wprs.Base.{ℕ, ◌+◌, Option, some, List, map, get_or, ◌>>=◌}
use wprs.Simd.{Lanes, load_m256i, store_m256i}
use wprs.Pixels.{Memory, Vec4u8}
use wprs.BufferPointer.{KnownSizeBufferPointer, vec4u8_pod, as_chunks}
use wprs.Filtering.Prediction.{subtract_green, add_green, running_difference_32, prefix_sum}
use wprs.Filtering.Transpose.{Registers, to_channels, store_channels}
use wprs.Filtering.Planes.{Quad, quad}

-- A load of the 16 bytes of four pixels.
unfoldable pub load_m128i_vec4u8 : Memory → KnownSizeBufferPointer 4 → Lanes ℕ
load_m128i_vec4u8 m src i = m (src.ptr + i)

-- The channels of a block, each as its differences, and the four bytes that the next one needs.
unfoldable pub filter_registers : Registers → Quad ℕ → Quad (List ℕ) × Quad ℕ
unfolding subtract_green
filter_registers t prev =
    let (t0, t2) = subtract_green t.t0 t.t1 t.t2 in
    let (t0', next0) = running_difference_32 t0 prev.q0 in
    let (t1', next1) = running_difference_32 t.t1 prev.q1 in
    let (t2', next2) = running_difference_32 t2 prev.q2 in
    let (t3', next3) = running_difference_32 t.t3 prev.q3 in
    (
      quad (store_m256i t0') (store_m256i t1') (store_m256i t2') (store_m256i t3'),
      quad next0 next1 next2 next3,
    )

-- The arrays written, `out0` to `out3`, and the tuple returned.
unfoldable pub aos_to_soa_u8_32x4 :
    Lanes ℕ → Memory → KnownSizeBufferPointer 32 → Quad ℕ → Option (Quad (List ℕ) × Quad ℕ)
aos_to_soa_u8_32x4 upper m input prev = do
  parts ← as_chunks vec4u8_pod 4 8 32 input
  let loaded = map (load_m128i_vec4u8 m) parts
  some (filter_registers (to_channels upper (λ k. get_or loaded k upper)) prev)

-- The pixels written into `out`, and the tuple returned.
unfoldable pub soa_to_aos_u8_32x4 : Quad (List ℕ) → Quad (Lanes ℕ) → List Vec4u8 × Quad (Lanes ℕ)
unfolding add_green
soa_to_aos_u8_32x4 input prev =
    let (t0, prev0) = prefix_sum (load_m256i input.q0) prev.q0 in
    let (t1, prev1) = prefix_sum (load_m256i input.q1) prev.q1 in
    let (t2, prev2) = prefix_sum (load_m256i input.q2) prev.q2 in
    let (t3, prev3) = prefix_sum (load_m256i input.q3) prev.q3 in
    let (t0', t2') = add_green t0 t1 t2 in
    (store_channels (record { t0 = t0'; t1 = t1; t2 = t2'; t3 = t3 }), quad prev0 prev1 prev2 prev3)
