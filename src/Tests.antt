-- ===== src/Tests.antt =====
-- The theorems at concrete inputs: the whole filter here.
mod Blocks
mod Channels
mod Delivered
mod Surfaces
mod Buffers
mod Outputs
mod Copies
mod Commits
mod Displays
mod Connections
mod Replays
use mathlib.Core.List.{Permᴰ, flatten}
use wprs.Base.{
  ℕ, zero, suc, ◌+◌, ◌-◌, ◌*◌, ◌/◌, ◌%◌, ◌≤◌, ◌<◌, ◌≡◌, refl, arith, Bool, true, false, Option,
  none, some, List, [], ◌∷◌, ◌++◌, map, take, drop, length, replicate, tabulate, length-tabulate,
  if◌then◌else◌, ◌==◌, ◌>>=◌, All,
}
use wprs.Base.Chunks.{slice_chunks, exact_chunks}
use wprs.Simd.{Lanes, set1_epi8, sub_u8}
use wprs.Pixels.{Memory, Vec4u8, vec4u8}
use wprs.Utils.{n_chunks}
use wprs.Utils.Chunks.{n_chunks-least, n_chunks-total}
use wprs.SerialMap
use wprs.SerialMap.{SerialMap}
use wprs.SerialMap.Pruning.{remove-insert, remove-remove}
use wprs.BufferPointer.{
  BufferPointer, KnownSizeBufferPointer, u8_pod, vec4u8_pod, split_at, collect_chunks,
  collect_arrays, into_list,
}
use wprs.BufferPointer.Elements.{
  elements, IsValid, IsUsable, block, front, back, split_at-eq-some, collect_chunks-elements,
  collect_arrays-elements,
}
use wprs.BufferPointer.Iteration.{into_list-eq-elements}
use wprs.ArcSlice
use wprs.ArcSlice.{ArcSlice}
use wprs.ArcSlice.View.{view, IsInside, collect-view}
use wprs.Framing.{Framed, framed_bool, framed_non_zero, framed_string, framed_usize, framed_vec}
use wprs.Framing.Laws.{
  ReadsAs, framed_usize-truncates, framed_non_zero-roundtrip, framed_vec-roundtrip, framed_vec-cut,
  framed_string-roundtrip,
}
use wprs.Shards
use wprs.Shards.{
  CompressedShard, CompressedShards, Rkyv, Submission, framed_shard, framed_shards, indices,
  sort_by_key, streaming_framed_read, uncompressed_size,
}
use wprs.Shards.Laws.{Fits, framed_shard-roundtrip, streaming_framed_read-framed_write}
use wprs.Shards.Order.{sort_by_key-Perm}
use wprs.Compress.{
  Reaches, Session, Zstd, begin, collect_shards, compress, compress_shard, compress_submission,
}
use wprs.Compress.Scheduling.{Reaches-Perm, collect_shards-eq}
use wprs.Decompress.{SplitTo, decompress_shard, decompress_to_owned, decompress_with}
use wprs.Decompress.Windows.{offsets, total}
use wprs.Decompress.Roundtrip.{
  decompress_shard-compress_submission, decompress_with-shards_at, shards_at,
}
use wprs.Decompress.Pipeline.{compress-decompress_to_owned}
use wprs.Filtering.Planes.{Quad, delta, join, last_or, planes_of, quad, undelta, zip_quad}
use wprs.Filtering.Prediction.{prefix_sum, running_difference_32}
use wprs.Filtering.Prediction.Sums.{
  before, prefix_sum-carry, prefix_sum-eq-running_sum, running_difference_32-eq-sub, running_sum,
}
use wprs.Filtering.Transpose.{Registers, store_channels, store_channels_lem}
use wprs.Filtering.Block.{aos_to_soa_u8_32x4, soa_to_aos_u8_32x4}
use wprs.Filtering.Block.Forward.{aos_to_soa_u8_32x4_lem}
use wprs.Filtering.Block.Backward.{Carries, soa_to_aos_u8_32x4_carry, soa_to_aos_u8_32x4_out}
use wprs.Filtering.Encode.{filter_and_compress, vec4u8_aos_to_soa}
use wprs.Filtering.Encode.Blocks.{elements-IsPixel}
use wprs.Filtering.Encode.Total.{rounds_for, vec4u8_aos_to_soa_lem}
use wprs.Filtering.Decode.{vec4u8_soa_to_aos}
use wprs.Filtering.Decode.Whole.{filtered, planes_bytes, vec4u8_soa_to_aos-filtered}
use wprs.Filtering.Roundtrip.{pixels_of, planes_submitted, vec4u8_soa_to_aos-filter_and_compress}

-- Memory in which each address holds its low byte, and an image of 33 pixels in it.
abbrev pub bytes_at : Memory
bytes_at a = a % 256

bytes_at-lt : (a : ℕ) → bytes_at a < 256
bytes_at-lt a = omega arith

abbrev pub image : BufferPointer
image = record { ptr = 16; len = 33 }

image-IsValid : IsValid vec4u8_pod image
image-IsValid = record { not_null = omega arith; aligned = refl; tiles = refl }

abbrev pub image_bytes : BufferPointer
image_bytes = record { ptr = 16; len = 132 }

image_bytes-IsValid : IsValid u8_pod image_bytes
image_bytes-IsValid = record { not_null = omega arith; aligned = refl; tiles = refl }

abbrev pub blank : List Vec4u8
blank = replicate 33 (vec4u8 0 0 0 0)

vec4u8_soa_to_aos-filter_and_compress_example :
    (filter_and_compress (set1_epi8 7) bytes_at image_bytes >>= λ r.
    vec4u8_soa_to_aos (planes_bytes (planes_submitted r)) blank)
    ≡ some (elements vec4u8_pod bytes_at (pixels_of image_bytes))
vec4u8_soa_to_aos-filter_and_compress_example =
    vec4u8_soa_to_aos-filter_and_compress (set1_epi8 7) bytes_at bytes_at-lt image_bytes blank
      image_bytes-IsValid (omega arith) refl refl

vec4u8_aos_to_soa_lem_example :
    vec4u8_aos_to_soa (set1_epi8 7) bytes_at image
    ≡ some (rounds_for 33 (elements vec4u8_pod bytes_at image))
vec4u8_aos_to_soa_lem_example =
    vec4u8_aos_to_soa_lem (set1_epi8 7) bytes_at bytes_at-lt image image-IsValid (omega arith)
