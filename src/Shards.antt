-- ===== src/Shards.antt =====
-- src/sharding_compression.rs: the shards, their order, and how they are framed.
pub mod Laws
pub mod Order
use wprs.Base.{
  ℕ, zero, suc, ◌+◌, Bool, Option, none, some, List, [], ◌∷◌, ◌++◌, map, length, leb, ◌==◌,
  if◌then◌else◌, ◌>>=◌,
}
use wprs.Framing.{Framed, framed_bool, framed_usize, framed_vec}

-- What `compress_shard` sends to the compressor threads: an index and the bytes.
pub record Submission : Type 0 where
  pub idx : ℕ
  pub input : List ℕ

pub record CompressedShard : Type 0 where
  pub idx : ℕ
  pub uncompressed_size : ℕ
  pub compression : Bool
  pub bytes : List ℕ

pub record CompressedShards : Type 0 where
  pub shards : List CompressedShard

abbrev pub len : CompressedShard → ℕ
len s = length s.bytes

unfoldable pub framed_shard : Framed CompressedShard
framed_shard = record {
  framed_write = λ s.
      Framed.framed_write framed_usize s.idx
      ++ Framed.framed_write framed_usize s.uncompressed_size
      ++ Framed.framed_write framed_bool s.compression
      ++ Framed.framed_write framed_vec s.bytes;
  framed_read = λ stream. do
    (idx, s1) ← Framed.framed_read framed_usize stream
    (uncompressed_size, s2) ← Framed.framed_read framed_usize s1
    (compression, s3) ← Framed.framed_read framed_bool s2
    (bytes, s4) ← Framed.framed_read framed_vec s3
    some (
      record {
        idx = idx;
        uncompressed_size = uncompressed_size;
        compression = compression;
        bytes = bytes;
      },
      s4,
    );
}

-- slice::sort_by_key is stable: a shard goes before the first one with an index at least its own.
unfoldable pub insert : CompressedShard → List CompressedShard → List CompressedShard
insert s [] = s ∷ []
insert s (t ∷ ts) = let rest = insert s ts in if leb s.idx t.idx then s ∷ t ∷ ts else t ∷ rest

unfoldable pub sort_by_key : List CompressedShard → List CompressedShard
sort_by_key [] = []
sort_by_key (s ∷ ss) = insert s (sort_by_key ss)

unfoldable pub new : List CompressedShard → CompressedShards
new shards = record { shards = sort_by_key shards }

unfoldable pub indices : CompressedShards → List ℕ
indices c = map (λ s. s.idx) c.shards

unfoldable pub sum : List ℕ → ℕ
sum [] = 0
sum (x ∷ xs) = x + sum xs

unfoldable pub uncompressed_size : CompressedShards → ℕ
uncompressed_size c = sum (map (λ s. s.uncompressed_size) c.shards)

unfoldable pub size : CompressedShards → ℕ
size c = sum (map len c.shards)

-- The shards one after the other, each flushed.
unfoldable pub write_shards : List CompressedShard → List ℕ
write_shards [] = []
write_shards (s ∷ ss) = Framed.framed_write framed_shard s ++ write_shards ss

-- `(0..n).map(|_| CompressedShard::framed_read(stream))`, up to the first error.
unfoldable pub read_shards : ℕ → List ℕ → Option (List CompressedShard × List ℕ)
read_shards zero stream = some ([], stream)
read_shards (suc n) stream = do
  (s, s1) ← Framed.framed_read framed_shard stream
  (ss, s2) ← read_shards n s1
  some (s ∷ ss, s2)

-- What rkyv does with a list of indices.
pub record Rkyv : Type 0 where
  pub to_bytes : List ℕ → List ℕ
  pub from_bytes : List ℕ → Option (List ℕ)

module _ (rkyv : Rkyv) where
  -- `impl Framed for CompressedShards`
  unfoldable pub framed_shards : Framed CompressedShards
  framed_shards = record {
    framed_write = λ c.
        Framed.framed_write framed_vec (rkyv.to_bytes (indices c))
        ++ Framed.framed_write framed_usize (uncompressed_size c)
        ++ write_shards c.shards;
    framed_read = λ stream. do
      (serialized_indices, s1) ← Framed.framed_read framed_vec stream
      is ← rkyv.from_bytes serialized_indices
      (shards, s2) ← read_shards (length is) s1
      some (record { shards = shards }, s2);
  }

  -- What streaming_framed_decompress_with and streaming_framed_decompress_to_owned read and hand to
  -- the decompressor: the indices, the whole size, and the shards.
  unfoldable pub streaming_framed_read :
      List ℕ → Option ((List ℕ × ℕ × List CompressedShard) × List ℕ)
  streaming_framed_read stream = do
    (serialized_indices, s1) ← Framed.framed_read framed_vec stream
    is ← rkyv.from_bytes serialized_indices
    (total, s2) ← Framed.framed_read framed_usize s1
    (shards, s3) ← read_shards (length is) s2
    some ((is, total, shards), s3)
