-- ===== src/Shards/Laws.antt =====
-- src/sharding_compression.rs: the framing of the shards.
use wprs.Base.{ℕ, ◌<◌, ◌≡◌, refl, some, List, [], ◌∷◌, ◌++◌, length, append_assoc, All, length-map}
use wprs.Framing.{Framed, framed_bool, framed_usize, framed_vec}
use wprs.Framing.Laws.{ReadsAs, framed_bool-roundtrip, framed_usize-roundtrip, framed_vec-roundtrip}
use wprs.Shards.{
  CompressedShard, CompressedShards, Rkyv, framed_shard, framed_shards, indices, uncompressed_size,
  write_shards, read_shards, streaming_framed_read,
}

-- The sizes that the frame has room for.
abbrev pub Fits : CompressedShard → Type 0
Fits s = (s.idx < 4294967296) × (s.uncompressed_size < 4294967296) × (length s.bytes < 4294967296)

-- A shard whose index, size and length are below 2^32 is read back as it was written, and what
-- follows it is left on the stream.
pub framed_shard-roundtrip : (s : CompressedShard) → Fits s → ReadsAs framed_shard s s
unfolding framed_shard
framed_shard-roundtrip s h rest =
    let w1 = Framed.framed_write framed_usize s.idx in
    let w2 = Framed.framed_write framed_usize s.uncompressed_size in
    let w3 = Framed.framed_write framed_bool s.compression in
    let w4 = Framed.framed_write framed_vec s.bytes in
    rw (
      append_assoc (w1 ++ w2 ++ w3) w4 rest,
      append_assoc (w1 ++ w2) w3 (w4 ++ rest),
      append_assoc w1 w2 (w3 ++ (w4 ++ rest)),
      framed_usize-roundtrip s.idx h.0 (w2 ++ (w3 ++ (w4 ++ rest))),
      framed_usize-roundtrip s.uncompressed_size h.1 (w3 ++ (w4 ++ rest)),
      framed_bool-roundtrip s.compression (w4 ++ rest),
      framed_vec-roundtrip s.bytes h.2 rest,
    )

pub read_shards-write_shards :
    (ss : List CompressedShard) (rest : List ℕ)
    → All Fits ss
    → read_shards (length ss) (write_shards ss ++ rest) ≡ some (ss, rest)
unfolding read_shards write_shards
read_shards-write_shards [] rest h = refl
read_shards-write_shards (s ∷ ss) rest h = rw (
  append_assoc (Framed.framed_write framed_shard s) (write_shards ss) rest,
  framed_shard-roundtrip s h.0 (write_shards ss ++ rest),
  read_shards-write_shards ss rest h.1,
)

length-indices : (c : CompressedShards) → length (indices c) ≡ length c.shards
unfolding indices
length-indices c = length-map (λ s. s.idx) c.shards

module _ (rkyv : Rkyv) (law : (is : List ℕ) → rkyv.from_bytes (rkyv.to_bytes is) ≡ some is) where
  -- The streaming readers see the indices, the whole size and the shards that `framed_write` of
  -- the shards put on the stream, in the same order, and leave what follows, when rkyv reads back
  -- what it wrote and every length, index and size is below 2^32.
  pub streaming_framed_read-framed_write :
      (c : CompressedShards) (rest : List ℕ)
      → All Fits c.shards
      → uncompressed_size c < 4294967296
      → length (rkyv.to_bytes (indices c)) < 4294967296
      → streaming_framed_read rkyv (Framed.framed_write (framed_shards rkyv) c ++ rest)
        ≡ some ((indices c, uncompressed_size c, c.shards), rest)
  unfolding streaming_framed_read framed_shards
  streaming_framed_read-framed_write c rest h u l =
      let w1 = Framed.framed_write framed_vec (rkyv.to_bytes (indices c)) in
      let w2 = Framed.framed_write framed_usize (uncompressed_size c) in
      rw (
        append_assoc (w1 ++ w2) (write_shards c.shards) rest,
        append_assoc w1 w2 (write_shards c.shards ++ rest),
        framed_vec-roundtrip (rkyv.to_bytes (indices c)) l (w2 ++ (write_shards c.shards ++ rest)),
        law (indices c),
        framed_usize-roundtrip (uncompressed_size c) u (write_shards c.shards ++ rest),
        length-indices c,
        read_shards-write_shards c.shards rest h,
      )
