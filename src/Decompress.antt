-- ===== src/Decompress.antt =====
-- src/sharding_compression.rs: ShardingDecompressor. The buffer is cut into windows, one for each
-- shard, which the threads fill; no two threads have the same window, so the order in which they
-- finish does not show. `split_to` stands for the one of the divbuf library: the bytes before the
-- place and those from it on. `none` is an error or a panic.
pub mod Windows
pub mod Roundtrip
pub mod Pipeline
use mathlib.Core.List.{flatten}
use wprs.Base.{
  ℕ, zero, suc, ◌-◌, Option, none, some, List, [], ◌∷◌, ◌++◌, take, drop, replicate, length,
  get_elem?, set_elem, ltb, leb, ◌==◌, if◌then◌else◌, guard, ◌>>=◌, ◌>>◌,
}
use wprs.Shards.{CompressedShard}
use wprs.Compress.{Zstd}

abbrev pub SplitTo : Type 0
SplitTo = ℕ → List ℕ → Option (List ℕ × List ℕ)

-- What a decompressor thread leaves in its window.
unfoldable pub decompress_shard : Zstd → CompressedShard → List ℕ → Option (List ℕ)
decompress_shard zstd shard output =
    if shard.compression
    then (do
      out ← zstd.decompress_to_buffer shard.bytes (length output)
      some (out ++ drop (length out) output))
    else (do
      guard (leb (length shard.bytes) (length output))
      some (shard.bytes ++ drop (length shard.bytes) output))

-- The loop that splits a window off for each index but the first; `mut_buf` is the last window. A
-- difference below 0 wraps to a number that no buffer has room for.
unfoldable pub split_all : SplitTo → ℕ → List ℕ → List ℕ → Option (List (List ℕ))
split_all split_to prev_idx [] mut_buf = some (mut_buf ∷ [])
split_all split_to prev_idx (idx ∷ rest) mut_buf = do
  guard (leb prev_idx idx)
  (buf, mut_buf') ← split_to (idx - prev_idx) mut_buf
  bufs ← split_all split_to idx rest mut_buf'
  some (buf ∷ bufs)

-- HashMap<usize, DivBufMut>, with windows named by their number.
abbrev pub WindowMap : Type 0
WindowMap = ℕ → Option ℕ

abbrev pub map_insert : ℕ → ℕ → WindowMap → WindowMap
map_insert k v m = λ j. if j == k then some v else m j

abbrev pub map_remove : ℕ → WindowMap → WindowMap
map_remove k m = λ j. if j == k then none else m j

-- `indices.iter().cloned().zip(output_divbufs).collect()`
unfoldable pub number_windows : ℕ → List ℕ → WindowMap → WindowMap
number_windows i [] m = m
number_windows i (k ∷ ks) m = number_windows (suc i) ks (map_insert k i m)

-- The loop over the shards, with what the threads do with each.
unfoldable pub fill_windows :
    Zstd → List CompressedShard → WindowMap → List (List ℕ) → Option (List (List ℕ))
fill_windows zstd [] m windows = some windows
fill_windows zstd (shard ∷ shards) m windows = do
  i ← m shard.idx
  output ← get_elem? windows i
  output' ← decompress_shard zstd shard output
  fill_windows zstd shards (map_remove shard.idx m) (set_elem windows i output')

-- decompress_impl, and the wait for the threads: the buffer afterwards.
unfoldable pub decompress_impl :
    Zstd → SplitTo → List ℕ → List ℕ → ℕ → List CompressedShard → Option (List ℕ)
decompress_impl zstd split_to buffer indices uncompressed_size shards =
    let buffer' =
      if ltb (length buffer) uncompressed_size then replicate uncompressed_size 0 else buffer in
    (do
      windows ← split_all split_to 0 (drop 1 indices) buffer'
      windows' ← fill_windows zstd shards (number_windows 0 indices (λ j. none)) windows
      some (flatten windows'))

-- decompress_with and decompress_to_owned, up to what is done with the bytes.
unfoldable pub decompress_with :
    Zstd → SplitTo → List ℕ → List ℕ → ℕ → List CompressedShard → Option (List ℕ)
decompress_with zstd split_to buffer [] uncompressed_size shards = none
decompress_with zstd split_to buffer (i ∷ is) uncompressed_size shards = do
  filled ← decompress_impl zstd split_to buffer (i ∷ is) uncompressed_size shards
  (bytes, rest) ← split_to uncompressed_size filled
  some bytes

unfoldable pub decompress_to_owned :
    Zstd → SplitTo → List ℕ → List ℕ → ℕ → List CompressedShard → Option (List ℕ)
decompress_to_owned zstd split_to buffer [] uncompressed_size shards = some []
decompress_to_owned zstd split_to buffer (i ∷ is) uncompressed_size shards = do
  filled ← decompress_impl zstd split_to buffer (i ∷ is) uncompressed_size shards
  some (take uncompressed_size filled)

-- The buffer that decompress_to_owned leaves: it gives the old one away.
unfoldable pub buffer_after_owned :
    Zstd → SplitTo → List ℕ → List ℕ → ℕ → List CompressedShard → Option (List ℕ)
buffer_after_owned zstd split_to buffer [] uncompressed_size shards = some buffer
buffer_after_owned zstd split_to buffer (i ∷ is) uncompressed_size shards = do
  filled ← decompress_impl zstd split_to buffer (i ∷ is) uncompressed_size shards
  some (replicate (length filled) 0)
