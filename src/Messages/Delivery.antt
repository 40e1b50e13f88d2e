-- ===== src/Messages/Delivery.antt =====
-- src/serialization/mod.rs: from what write_loop takes off its channel to what read_loop puts on
-- the channel of the other end.
use wprs.Base.{
  ℕ, zero, suc, ◌<◌, ◌≡◌, refl, ap, arith, true, false, none, some, List, [], ◌∷◌, ◌++◌, length,
  ◌>>=◌, length-append,
}
use wprs.Framing.{read_exact, framed_u8}
use wprs.Framing.Laws.{framed_string-roundtrip}
use wprs.Messages.{
  SendType, RecvType, Codec, Received, framed_message_type, framed_version, write_messages,
  write_loop, read_message, read_messages, read_loop,
}
use wprs.Messages.Frames.{IsLawful, Delivers, read_message-write_message}

module _ {ℓ} {T : Type ℓ} {S : Type 0} (codec : Codec T S) where
  -- What write_loop receives, and what of it can be sent: all messages up to the end of the channel
  -- or a second in which no message came and the other end was gone.
  pub data Sends : List (Received T) → List (RecvType T) → Type ℓ where
    idle : Sends [] []
    sent :
        {m : SendType T} {r : RecvType T} {received : List (Received T)} {out : List (RecvType T)}
        → Delivers codec m r
        → Sends received out
        → Sends (Received.message m ∷ received) (r ∷ out)
    waited :
        {received : List (Received T)} {out : List (RecvType T)}
        → Sends received out
        → Sends (Received.timeout true ∷ received) out
    other_end_gone : {received : List (Received T)} → Sends (Received.timeout false ∷ received) []
    channel_closed : {received : List (Received T)} → Sends (Received.disconnected ∷ received) []

  module _ (law : IsLawful codec) where
    read_message-end : (buffer : List ℕ) → read_message codec buffer [] ≡ none
    unfolding read_message framed_message_type framed_u8 read_exact
    read_message-end buffer = refl

    read_messages-end : (fuel : ℕ) (buffer : List ℕ) → read_messages codec fuel buffer [] ≡ []
    unfolding read_messages
    read_messages-end zero buffer = refl
    read_messages-end (suc fuel) buffer = rw (read_messages, read_message-end buffer) refl

    -- The rounds after the first.
    read_messages-first :
        (bytes rest : List ℕ) (r : RecvType T) (out : List (RecvType T))
        → 0 < length bytes
        → ((buffer later : List ℕ)
            → (buffer' : List ℕ) × (read_message codec buffer (bytes ++ later)
                ≡ some (r, buffer', later)))
        → ((fuel : ℕ) (buffer : List ℕ)
            → length rest < fuel
            → read_messages codec fuel buffer rest ≡ out)
        → (fuel : ℕ) (buffer : List ℕ) → length (bytes ++ rest) < fuel
        → read_messages codec fuel buffer (bytes ++ rest) ≡ r ∷ out
    unfolding read_messages
    read_messages-first bytes rest r out p read later zero buffer h = absurd (omega arith)
    read_messages-first bytes rest r out p read later (suc fuel) buffer h =
        let got = read buffer rest in
        rw (read_messages, got.1)
          (ap (λ l. r ∷ l) (later fuel got.0 (omega (arith, length-append bytes rest))))

    read_messages-write_messages :
        {received : List (Received T)} {out : List (RecvType T)}
        → Sends received out
        → (bytes : List ℕ) × (write_messages codec received ≡ some bytes)
          × ((fuel : ℕ) (buffer : List ℕ)
              → length bytes < fuel
              → read_messages codec fuel buffer bytes ≡ out)
    unfolding write_messages
    read_messages-write_messages Sends.idle =
        ([], refl, λ fuel buffer h. read_messages-end fuel buffer)
    read_messages-write_messages (Sends.sent d s) =
        let one = read_message-write_message codec law d in
        let later = read_messages-write_messages s in
        (
          one.0 ++ later.0,
          rw (one.1, later.1) refl,
          read_messages-first one.0 later.0 _ _ one.2 one.3 later.2,
        )
    read_messages-write_messages (Sends.waited s) = read_messages-write_messages s
    read_messages-write_messages Sends.other_end_gone =
        ([], refl, λ fuel buffer h. read_messages-end fuel buffer)
    read_messages-write_messages Sends.channel_closed =
        ([], refl, λ fuel buffer h. read_messages-end fuel buffer)

    -- What `write_loop` puts on the stream for a sequence of what it receives, `read_loop` reads
    -- back: the messages, in order, up to the end of the channel or a second without a message
    -- when the other end is gone, whatever the decompressor's buffer held, when the libraries
    -- read back what they wrote and `split_to` cuts where it is told, each object is serialized
    -- to at least a byte, each raw buffer is the shards of contiguous non-empty pieces, and the
    -- lengths, indices and sizes of each frame and the length of the version are below 2^32.
    pub read_loop-write_loop :
        (version : S)
        → length (codec.as_bytes version) < 4294967296
        → {received : List (Received T)} {out : List (RecvType T)} → Sends received out
        → (buffer : List ℕ)
        → (write_loop codec version received >>= λ stream. read_loop codec buffer stream) ≡ some out
    unfolding write_loop read_loop framed_version
    read_loop-write_loop version h s buffer =
        let sent = read_messages-write_messages s in
        rw (sent.1, framed_string-roundtrip codec.as_bytes codec.from_utf8 law.1 version h sent.0)
          (ap some (sent.2 (suc (length sent.0)) buffer (omega arith)))
