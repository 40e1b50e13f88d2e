-- ===== src/Compress.antt =====
-- src/sharding_compression.rs: the compressor threads and a session with them. The channels are
-- unbounded. A thread takes any submission that waits, so that what it sends out can come in any
-- order. `Zstd` stands for the zstd library.
pub mod Scheduling
use wprs.Base.{
  ℕ, suc, ◌+◌, ◌*◌, ◌/◌, ◌≡◌, Bool, Option, some, List, [], ◌∷◌, ◌++◌, length, take, ltb, leb,
  guard, if◌then◌else◌, ◌>>=◌, ◌>>◌,
}
use wprs.Shards
use wprs.Shards.{Submission, CompressedShard, CompressedShards}
use wprs.ArcSlice.{ArcSlice, chunks, collect, as_ref}

pub record Zstd : Type 0 where
  pub compress : List ℕ → List ℕ
  -- what is written over the start of a buffer of this size
  pub decompress_to_buffer : List ℕ → ℕ → Option (List ℕ)

abbrev pub min_size_to_compress : ℕ
min_size_to_compress = 4096

-- What a compressor thread sends out for a submission.
unfoldable pub compress_submission : Zstd → Submission → CompressedShard
compress_submission zstd s =
    let compression = ltb min_size_to_compress (length s.input) in
    record {
      idx = s.idx;
      uncompressed_size = length s.input;
      compression = compression;
      bytes = if compression then zstd.compress s.input else s.input;
    }

-- The two channels of ShardingCompressor, and the counter of ShardingCompressorSession.
pub record Session : Type 0 where
  pub compressor_input : List Submission
  pub compressor_output : List CompressedShard
  pub pending_shards : ℕ

-- ShardingCompressor::begin
unfoldable pub begin : Session
begin = record { compressor_input = []; compressor_output = []; pending_shards = 0 }

unfoldable pub compress_shard : Submission → Session → Session
compress_shard s c = record {
  compressor_input = c.compressor_input ++ s ∷ [];
  compressor_output = c.compressor_output;
  pending_shards = c.pending_shards + 1;
}

-- A session in which the submissions of the list have been made: the caller submits, or a thread
-- finishes one of those that wait.
pub data Reaches (zstd : Zstd) : List Submission → Session → Type 0 where
  started : Reaches zstd [] begin
  submitted :
      {made : List Submission} {c : Session} (s : Submission)
      → Reaches zstd made c
      → Reaches zstd (s ∷ made) (compress_shard s c)
  finished :
      {made : List Submission} (before : List Submission) (s : Submission) (after : List Submission)
      (out : List CompressedShard) (n : ℕ)
      → Reaches zstd made (record {
        compressor_input = before ++ s ∷ after;
        compressor_output = out;
        pending_shards = n;
      })
      → Reaches zstd made (record {
        compressor_input = before ++ after;
        compressor_output = out ++ compress_submission zstd s ∷ [];
        pending_shards = n;
      })

-- `iter_shards` takes as many shards out of the channel as were counted, and waits for those that
-- are not there yet: `none` is a call that still waits.
unfoldable pub collect_shards : Session → Option CompressedShards
unfolding Shards.new
collect_shards c = do
  guard (leb c.pending_shards (length c.compressor_output))
  some (Shards.new (take c.pending_shards c.compressor_output))

-- The submissions that ShardingCompressor::compress makes, one for each chunk.
unfoldable pub submissions : ℕ → ℕ → List (ArcSlice ℕ) → Option (List Submission)
unfolding as_ref
submissions chunk_size i [] = some []
submissions chunk_size i (chunk ∷ rest) = do
  input ← as_ref chunk
  later ← submissions chunk_size (i + 1) rest
  some (record { idx = i * chunk_size; input = input } ∷ later)

-- For a positive number of shards; `none` when a chunk would be empty.
unfoldable pub compress : ℕ → ArcSlice ℕ → Option (List Submission)
unfolding chunks collect submissions
compress n_shards slice =
    let chunk_size = slice.len / n_shards in
    (do
      c ← chunks slice chunk_size
      parts ← collect (suc slice.len) c
      submissions chunk_size 0 parts)
