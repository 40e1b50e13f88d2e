-- ===== src/Tests/Blocks.antt =====
-- The theorems on buffers and on one block of pixels at concrete inputs.
use wprs.Base.{ℕ, ◌+◌, ◌*◌, ◌%◌, ◌≤◌, ◌<◌, ◌≡◌, refl, arith, some, List, map, replicate, All}
use wprs.Base.Chunks.{slice_chunks}
use wprs.Simd.{Lanes, set1_epi8}
use wprs.Utils.{n_chunks}
use wprs.Utils.Chunks.{n_chunks-least}
use wprs.BufferPointer.{BufferPointer, KnownSizeBufferPointer, vec4u8_pod, collect_chunks}
use wprs.BufferPointer.Elements.{elements, IsValid, IsUsable, block, collect_chunks-elements}
use wprs.Filtering.Planes.{Quad, delta, join, last_or, planes_of, quad, undelta, zip_quad}
use wprs.Filtering.Prediction.{prefix_sum}
use wprs.Filtering.Prediction.Sums.{prefix_sum-eq-running_sum, running_sum}
use wprs.Filtering.Block.{aos_to_soa_u8_32x4, soa_to_aos_u8_32x4}
use wprs.Filtering.Block.Forward.{aos_to_soa_u8_32x4_lem}
use wprs.Filtering.Block.Backward.{soa_to_aos_u8_32x4_out}
use wprs.Tests.{bytes_at, bytes_at-lt, image, image-IsValid}

n_chunks-least_example : (10 ≤ 3 * 4) × (3 * 4 < 10 + 4)
n_chunks-least_example = n_chunks-least 10 4 3 (omega arith) three
  where
    three : n_chunks 10 4 ≡ some 3
    three = unfold n_chunks in refl

collect_chunks-elements_example :
    (bs : List BufferPointer) × (collect_chunks vec4u8_pod 34
        (record { ptr = image; chunk_size = 10 })
      ≡ some bs)
    × (map (elements vec4u8_pod bytes_at) bs ≡ slice_chunks 10 (elements vec4u8_pod bytes_at image))
    × All (IsValid vec4u8_pod) bs
collect_chunks-elements_example =
    collect_chunks-elements vec4u8_pod bytes_at 10 (omega arith) 34 image image-IsValid
      (omega arith)

prefix_sum-eq-running_sum_example :
    (prefix_sum bytes_at (set1_epi8 5)).0 17 ≡ (5 + running_sum bytes_at 17) % 256
prefix_sum-eq-running_sum_example =
    prefix_sum-eq-running_sum bytes_at (set1_epi8 5) 5 17 (λ k. refl) (omega arith)

abbrev array : KnownSizeBufferPointer 32
array = record { ptr = 16 }

array-IsUsable : IsUsable vec4u8_pod array
array-IsUsable = record { not_null = omega arith; aligned = refl; tiles = refl }

aos_to_soa_u8_32x4_lem_example :
    aos_to_soa_u8_32x4 (set1_epi8 7) bytes_at array (quad 1 2 3 4)
    ≡ some (
      zip_quad delta (quad 1 2 3 4) (planes_of (block vec4u8_pod bytes_at array)),
      zip_quad last_or (quad 1 2 3 4) (planes_of (block vec4u8_pod bytes_at array)),
    )
aos_to_soa_u8_32x4_lem_example =
    aos_to_soa_u8_32x4_lem (set1_epi8 7) bytes_at array array-IsUsable bytes_at-lt (quad 1 2 3 4)
      (omega arith) (omega arith) (omega arith) (omega arith)

abbrev ramp : List ℕ
ramp = replicate 32 9

abbrev block_planes : Quad (List ℕ)
block_planes = quad ramp ramp ramp ramp

abbrev carried : Quad (Lanes ℕ)
carried = quad (set1_epi8 1) (set1_epi8 2) (set1_epi8 3) (set1_epi8 4)

soa_to_aos_u8_32x4_out_example :
    (soa_to_aos_u8_32x4 block_planes carried).0
    ≡ join (zip_quad undelta (quad 1 2 3 4) block_planes)
soa_to_aos_u8_32x4_out_example =
    soa_to_aos_u8_32x4_out block_planes carried (quad 1 2 3 4)
      ((λ k. refl), (λ k. refl), (λ k. refl), (λ k. refl)) (refl, refl, refl, refl)
