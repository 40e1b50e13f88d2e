-- ===== src/Messages.antt =====
-- src/serialization/mod.rs: the messages on the socket between server and client, and the two loops
-- that write and read them. `none` is an error, which ends a loop.
pub mod Frames
pub mod Delivery
use wprs.Base.{
  ℕ, zero, suc, Bool, true, false, not, Option, none, some, List, [], ◌∷◌, ◌++◌, map, length, ◌==◌,
  if◌then◌else◌, ◌>>=◌,
}
use wprs.Framing.{Framed, framed_u8, framed_string}
use wprs.ArcSlice
use wprs.Shards
use wprs.Shards.{CompressedShard, CompressedShards, Rkyv, framed_shards, streaming_framed_read}
use wprs.Compress.{Zstd, compress, compress_submission}
use wprs.Decompress.{
  SplitTo, buffer_after_owned, decompress_impl, decompress_to_owned, decompress_with,
}

pub data MessageType : Type 0 where
  object : MessageType
  raw_buffer : MessageType

pub data SendType {ℓ} (T : Type ℓ) : Type ℓ where
  object : T → SendType T
  raw_buffer : CompressedShards → SendType T

pub data RecvType {ℓ} (T : Type ℓ) : Type ℓ where
  object : T → RecvType T
  raw_buffer : List ℕ → RecvType T

-- The numbers that num_enum gives the variants, and TryFrom<u8>.
unfoldable pub number_of : MessageType → ℕ
number_of MessageType.object = 0
number_of MessageType.raw_buffer = 1

unfoldable pub try_from : ℕ → Option MessageType
try_from n =
    if n == 0 then some MessageType.object else if n == 1 then some MessageType.raw_buffer else none

unfoldable pub framed_message_type : Framed MessageType
framed_message_type = record {
  framed_write = λ t. Framed.framed_write framed_u8 (number_of t);
  framed_read = λ stream. do
    (n, rest) ← Framed.framed_read framed_u8 stream
    t ← try_from n
    some (t, rest);
}

-- What the libraries do for the loops: the serialized form of the messages, of lists of indices and
-- of the version's text, compression, and the cutting of buffers.
pub record Codec {ℓ} (T : Type ℓ) (S : Type 0) : Type ℓ where
  pub to_bytes : T → List ℕ
  pub from_bytes : List ℕ → Option T
  pub as_bytes : S → List ℕ
  pub from_utf8 : List ℕ → Option S
  pub rkyv : Rkyv
  pub zstd : Zstd
  pub split_to : SplitTo

-- What `recv_timeout` gives: a message, a second without one and whether the other end is still
-- connected then, or the end of the channel.
pub data Received {ℓ} (T : Type ℓ) : Type ℓ where
  message : SendType T → Received T
  timeout : Bool → Received T
  disconnected : Received T

module _ {ℓ} {T : Type ℓ} {S : Type 0} (codec : Codec T S) where
  -- `impl Framed for Version`, a newtype.
  unfoldable pub framed_version : Framed S
  framed_version = framed_string codec.as_bytes codec.from_utf8

  -- The shards that the compressor's session collects for an object, in one piece.
  unfoldable pub object_shards : T → Option CompressedShards
  object_shards obj = do
    subs ← compress 1 (ArcSlice.new (codec.to_bytes obj))
    some (Shards.new (map (compress_submission codec.zstd) subs))

  -- What write_loop puts on the stream for a message.
  unfoldable pub write_message : SendType T → Option (List ℕ)
  unfolding object_shards
  write_message (SendType.object obj) = do
    shards ← object_shards obj
    some (
        Framed.framed_write framed_message_type MessageType.object
        ++ Framed.framed_write (framed_shards codec.rkyv) shards)
  write_message (SendType.raw_buffer shards) = some (
      Framed.framed_write framed_message_type MessageType.raw_buffer
      ++ Framed.framed_write (framed_shards codec.rkyv) shards)

  unfoldable pub write_messages : List (Received T) → Option (List ℕ)
  unfolding write_message
  write_messages [] = some []
  write_messages (Received.message m ∷ rest) = do
    bytes ← write_message m
    later ← write_messages rest
    some (bytes ++ later)
  write_messages (Received.timeout true ∷ rest) = write_messages rest
  write_messages (Received.timeout false ∷ rest) = some []
  write_messages (Received.disconnected ∷ rest) = some []

  -- write_loop, for the sequence of what it receives: all that it has written after that.
  unfoldable pub write_loop : S → List (Received T) → Option (List ℕ)
  write_loop version received = do
    bytes ← write_messages received
    some (Framed.framed_write framed_version version ++ bytes)

  -- The two arms of read_loop, for the shards that were read.
  unfoldable pub receive :
      List ℕ → List ℕ → ℕ → List CompressedShard → MessageType → Option (RecvType T × List ℕ)
  receive buffer indices size shards MessageType.object = do
    bytes ← decompress_with codec.zstd codec.split_to buffer indices size shards
    obj ← codec.from_bytes bytes
    buffer' ← decompress_impl codec.zstd codec.split_to buffer indices size shards
    some (RecvType.object obj, buffer')
  receive buffer indices size shards MessageType.raw_buffer = do
    bytes ← decompress_to_owned codec.zstd codec.split_to buffer indices size shards
    buffer' ← buffer_after_owned codec.zstd codec.split_to buffer indices size shards
    some (RecvType.raw_buffer bytes, buffer')

  -- One round of read_loop: the message, the decompressor's buffer, and what is left on the stream.
  unfoldable pub read_message : List ℕ → List ℕ → Option (RecvType T × List ℕ × List ℕ)
  read_message buffer stream = do
    (message_type, s1) ← Framed.framed_read framed_message_type stream
    ((indices, size, shards), s2) ← streaming_framed_read codec.rkyv s1
    (m, buffer') ← receive buffer indices size shards message_type
    some (m, buffer', s2)

  -- The rounds up to the first error: what went to the output channel. Each round that reads a
  -- message takes at least a byte, and is given one unit of fuel.
  unfoldable pub read_messages : ℕ → List ℕ → List ℕ → List (RecvType T)
  read_messages zero buffer stream = []
  read_messages (suc fuel) buffer stream = elim (read_message buffer stream) [
    | none ↦ []
    | some (m, buffer', rest) ↦ m ∷ read_messages fuel buffer' rest
  ]

  -- read_loop, which ends with the stream. Versions that differ are only logged.
  unfoldable pub read_loop : List ℕ → List ℕ → Option (List (RecvType T))
  read_loop buffer stream = do
    (version, rest) ← Framed.framed_read framed_version stream
    some (read_messages (suc (length rest)) buffer rest)
