-- ===== src/Tests/Delivered.antt =====
-- The theorem on the two loops at concrete messages.
use mathlib.Core.List.{flatten}
use wprs.Base.{ℕ, ◌≡◌, refl, arith, true, some, List, [], ◌∷◌, take, drop, ◌>>=◌}
use wprs.Shards
use wprs.Compress.{compress_submission}
use wprs.Decompress.Windows.{offsets, total}
use wprs.Decompress.Roundtrip.{shards_at}
use wprs.Messages.{SendType, RecvType, Codec, Received, write_loop, read_loop}
use wprs.Messages.Frames.{IsLawful, FitsFrame, Delivers}
use wprs.Messages.Delivery.{Sends, read_loop-write_loop}

-- Objects that are lists of bytes already, and libraries that copy.
abbrev copying : Codec (List ℕ) (List ℕ)
copying = record {
  to_bytes = λ xs. xs;
  from_bytes = some;
  as_bytes = λ s. s;
  from_utf8 = some;
  rkyv = record { to_bytes = λ is. is; from_bytes = some };
  zstd = record { compress = λ xs. xs; decompress_to_buffer = λ xs capacity. some xs };
  split_to = λ k buf. some (take k buf, drop k buf);
}

copying-IsLawful : IsLawful copying
copying-IsLawful = (λ obj. refl, λ s. refl, λ is. refl, λ xs c h. refl, λ k buf h. refl)

abbrev pieces : List (List ℕ)
pieces = (1 ∷ 2 ∷ []) ∷ (3 ∷ []) ∷ []

pieces-FitsFrame : FitsFrame copying pieces
unfolding shards_at compress_submission total offsets
pieces-FitsFrame = (
  (omega arith, (omega arith, tt)),
  ((omega arith, omega arith, omega arith), ((omega arith, omega arith, omega arith), tt)),
  omega arith,
  omega arith,
)

object-FitsFrame : FitsFrame copying ((4 ∷ 5 ∷ []) ∷ [])
unfolding shards_at compress_submission total offsets
object-FitsFrame =
    ((omega arith, tt), ((omega arith, omega arith, omega arith), tt), omega arith, omega arith)

-- A buffer, a second of waiting, an object, and the end of the channel.
abbrev received : List (Received (List ℕ))
received =
    Received.message (SendType.raw_buffer (Shards.new (shards_at copying.zstd 0 pieces)))
    ∷ Received.timeout true
    ∷ Received.message (SendType.object (4 ∷ 5 ∷ []))
    ∷ Received.disconnected
    ∷ []

received-Sends :
    Sends copying received
      (RecvType.raw_buffer (flatten pieces) ∷ RecvType.object (4 ∷ 5 ∷ []) ∷ [])
received-Sends =
    Sends.sent (Delivers.raw_buffer pieces pieces-FitsFrame) (
      Sends.waited
        (Sends.sent (Delivers.object (4 ∷ 5 ∷ []) object-FitsFrame) Sends.channel_closed))

read_loop-write_loop_example :
    (write_loop copying (118 ∷ 49 ∷ []) received >>= λ stream. read_loop copying (0 ∷ []) stream)
    ≡ some (RecvType.raw_buffer (flatten pieces) ∷ RecvType.object (4 ∷ 5 ∷ []) ∷ [])
read_loop-write_loop_example =
    read_loop-write_loop copying copying-IsLawful (118 ∷ 49 ∷ []) (omega arith) received-Sends
      (0 ∷ [])
