-- ===== src/Messages/Frames.antt =====
-- src/serialization/mod.rs: a message, from what write_loop puts on the stream for it to what a round
-- of read_loop takes.
use mathlib.Core.List.{flatten}
use wprs.Base.{
  ℕ, ◌/◌, ◌<◌, ◌≤◌, ◌≡◌, refl, ap, ◌∙◌, arith, some, List, [], ◌∷◌, ◌++◌, drop, length, replicate,
  All, append_assoc, append-nil, take-append,
}
use wprs.Base.Chunks.Laws.{slice_chunks-one}
use wprs.Framing.{Framed, framed_u8}
use wprs.Framing.Laws.{ReadsAs, framed_u8-roundtrip}
use wprs.Shards
use wprs.Shards.{CompressedShards, framed_shards, indices, uncompressed_size, streaming_framed_read}
use wprs.Shards.Laws.{Fits, streaming_framed_read-framed_write}
use wprs.Decompress.{buffer_after_owned, decompress_to_owned}
use wprs.Decompress.Windows.{offsets, IsNonEmpty, total, SplitsTo}
use wprs.Decompress.Roundtrip.{
  Restores, shards_at, grown, length-flatten, decompress_impl-shards_at, decompress_with-shards_at,
}
use wprs.Decompress.Pipeline.{compress-shards_at, new-shards_at}
use wprs.Messages.{
  MessageType, SendType, RecvType, Codec, number_of, try_from, framed_message_type, object_shards,
  write_message, receive, read_message,
}

try_from-number_of : (t : MessageType) → try_from (number_of t) ≡ some t
unfolding try_from number_of
try_from-number_of MessageType.object = refl
try_from-number_of MessageType.raw_buffer = refl

framed_message_type-roundtrip : (t : MessageType) → ReadsAs framed_message_type t t
unfolding framed_message_type
framed_message_type-roundtrip t rest =
    rw (framed_u8-roundtrip (number_of t) rest, try_from-number_of t) refl

module _ {ℓ} {T : Type ℓ} {S : Type 0} (codec : Codec T S) where
  -- What the libraries document: each reads back what it wrote, and `split_to` cuts where it is
  -- told.
  abbrev pub IsLawful : Type ℓ
  IsLawful =
      ((obj : T) → codec.from_bytes (codec.to_bytes obj) ≡ some obj)
      × ((s : S) → codec.from_utf8 (codec.as_bytes s) ≡ some s)
      × ((is : List ℕ) → codec.rkyv.from_bytes (codec.rkyv.to_bytes is) ≡ some is)
      × Restores codec.zstd
      × SplitsTo codec.split_to

  -- Contiguous pieces that the frame has room for.
  abbrev pub FitsFrame : List (List ℕ) → Type 0
  FitsFrame cs =
      All IsNonEmpty cs
      × All Fits (shards_at codec.zstd 0 cs)
      × (total cs < 4294967296)
      × (length (codec.rkyv.to_bytes (offsets 0 cs)) < 4294967296)

  -- A message that can be sent, and what it is on the other side.
  pub data Delivers : SendType T → RecvType T → Type ℓ where
    object :
        (obj : T)
        → FitsFrame (codec.to_bytes obj ∷ [])
        → Delivers (SendType.object obj) (RecvType.object obj)
    raw_buffer :
        (cs : List (List ℕ))
        → FitsFrame cs
        → Delivers
            (SendType.raw_buffer (Shards.new (shards_at codec.zstd 0 cs)))
            (RecvType.raw_buffer (flatten cs))

  module _ (law : IsLawful) where
    object_shards-one :
        (obj : T)
        → IsNonEmpty (codec.to_bytes obj)
        → object_shards codec obj
          ≡ some (Shards.new (shards_at codec.zstd 0 (codec.to_bytes obj ∷ [])))
    unfolding object_shards
    object_shards-one obj p =
        let xs = codec.to_bytes obj in
        let one : length xs / 1 ≡ length xs = omega arith in
        let subs = compress-shards_at codec.zstd 1 xs (omega arith) in
        rw
          (
            subs.1,
            subs.2,
            one,
            slice_chunks-one (length xs) xs p (let h : length xs ≤ length xs = omega arith in h),
          )
          refl

    -- The shards of pieces that fit, as both arms of read_loop see them.
    read-frame :
        (cs : List (List ℕ)) (rest : List ℕ)
        → FitsFrame cs
        → let c = Shards.new (shards_at codec.zstd 0 cs) in
          streaming_framed_read codec.rkyv
            (Framed.framed_write (framed_shards codec.rkyv) c ++ rest)
          ≡ some ((offsets 0 cs, total cs, shards_at codec.zstd 0 cs), rest)
    read-frame cs rest fits =
        let c = Shards.new (shards_at codec.zstd 0 cs) in
        let new_eq = new-shards_at codec.zstd cs in
        streaming_framed_read-framed_write codec.rkyv law.2 c rest (rw new_eq.0 fits.1)
          (rw new_eq.2 fits.2) (rw new_eq.1 fits.3)
        ∙ (rw (new_eq.2, new_eq.1, new_eq.0) refl)

    -- The two arms, and the buffer that they leave.
    receive-object :
        (obj : T) (buffer : List ℕ)
        → IsNonEmpty (codec.to_bytes obj)
        → let cs = codec.to_bytes obj ∷ [] in
          (buffer' : List ℕ) × (receive codec buffer
              (offsets 0 cs)
              (total cs)
              (shards_at codec.zstd 0 cs)
              MessageType.object
            ≡ some (RecvType.object obj, buffer'))
    unfolding receive flatten
    receive-object obj buffer p =
        let xs = codec.to_bytes obj in
        let cs = xs ∷ [] in
        (
          flatten cs ++ drop (total cs) (grown buffer (total cs)),
          rw
              (
                decompress_with-shards_at codec.zstd law.3 codec.split_to law.4 buffer xs [] p tt,
                append-nil xs,
                law.0 obj,
                decompress_impl-shards_at codec.zstd law.3 codec.split_to law.4 buffer xs [] p tt,
                append-nil xs,
              )
              refl,
        )

    receive-raw_buffer :
        (cs : List (List ℕ)) (buffer : List ℕ)
        → All IsNonEmpty cs
        → (buffer' : List ℕ) × (receive codec buffer
              (offsets 0 cs)
              (total cs)
              (shards_at codec.zstd 0 cs)
              MessageType.raw_buffer
            ≡ some (RecvType.raw_buffer (flatten cs), buffer'))
    unfolding receive decompress_to_owned buffer_after_owned offsets flatten
    receive-raw_buffer [] buffer a = (buffer, refl)
    receive-raw_buffer (c ∷ cs) buffer a =
        let pieces = c ∷ cs in
        let filled = flatten pieces ++ drop (total pieces) (grown buffer (total pieces)) in
        (
          replicate (length filled) 0,
          rw (decompress_impl-shards_at codec.zstd law.3 codec.split_to law.4 buffer c cs a.0 a.1) (
              ap (λ bs. some (RecvType.raw_buffer bs, replicate (length filled) 0))
                (take-append (total pieces) (flatten pieces) _ (length-flatten pieces))),
        )

    -- A frame, read back after its type.
    read_message-frame :
        (t : MessageType) (cs : List (List ℕ)) (r : RecvType T) (buffer buffer' rest : List ℕ)
        → FitsFrame cs
        → receive codec buffer (offsets 0 cs) (total cs) (shards_at codec.zstd 0 cs) t
          ≡ some (r, buffer')
        → read_message codec buffer (
            Framed.framed_write framed_message_type t
            ++ Framed.framed_write
                (framed_shards codec.rkyv)
                (Shards.new (shards_at codec.zstd 0 cs))
            ++ rest)
          ≡ some (r, buffer', rest)
    unfolding read_message
    read_message-frame t cs r buffer buffer' rest fits e =
        let w1 = Framed.framed_write framed_message_type t in
        let w2 =
          Framed.framed_write (framed_shards codec.rkyv) (Shards.new (shards_at codec.zstd 0 cs)) in
        rw
          (
            append_assoc w1 w2 rest,
            framed_message_type-roundtrip t (w2 ++ rest),
            read-frame cs rest fits,
            e,
          )
          refl

    framed_message_type-one :
        (t : MessageType) (xs : List ℕ)
        → 0 < length (Framed.framed_write framed_message_type t ++ xs)
    unfolding framed_message_type framed_u8
    framed_message_type-one t xs = omega arith

    -- A message that can be sent is some bytes, from which a round of read_loop takes what was sent.
    pub read_message-write_message :
        {m : SendType T} {r : RecvType T}
        → Delivers m r
        → (bytes : List ℕ) × (write_message codec m ≡ some bytes)
          × (0 < length bytes)
          × ((buffer rest : List ℕ)
              → (buffer' : List ℕ) × (read_message codec buffer (bytes ++ rest)
                  ≡ some (r, buffer', rest)))
    unfolding write_message
    read_message-write_message (Delivers.object obj fits) =
        let cs = codec.to_bytes obj ∷ [] in
        (
          _,
          rw (object_shards-one obj fits.0.0) refl,
          framed_message_type-one MessageType.object _,
          λ buffer rest.
              let got = receive-object obj buffer fits.0.0 in
              (got.0, read_message-frame MessageType.object cs _ buffer got.0 rest fits got.1),
        )
    read_message-write_message (Delivers.raw_buffer cs fits) = (
      _,
      refl,
      framed_message_type-one MessageType.raw_buffer _,
      λ buffer rest.
          let got = receive-raw_buffer cs buffer fits.0 in
          (got.0, read_message-frame MessageType.raw_buffer cs _ buffer got.0 rest fits got.1),
    )
