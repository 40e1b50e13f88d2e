-- ===== src/Connection.antt =====
-- src/channel_utils.rs and src/serialization/mod.rs: the senders, and accept_loop with the threads of
-- a connection, as steps that may come in any order that the code allows. The channel is
-- crossbeam's: unbounded, first in first out, and open as long as the server runs.
pub mod Delivery
pub mod Closing
use wprs.Base.{ℕ, suc, Bool, true, false, List, [], ◌∷◌, ◌++◌, ◌≡◌, if◌then◌else◌}
use wprs.Messages.{SendType}

-- `waiting` is in `accept`. Then both threads run, until the read thread is joined; the flag says
-- whether the write thread still runs.
pub data Phase : Type 0 where
  waiting : Phase
  serving : Bool → Phase
  closing : Bool → Phase

-- The write thread takes messages in either phase.
unfoldable pub with_writer : Bool → Bool → Phase
with_writer true writing = Phase.serving writing
with_writer false writing = Phase.closing writing

pub record Server {ℓ} (T : Type ℓ) : Type ℓ where
  -- The flag that the sender and the loops share.
  pub other_end_connected : Bool
  pub channel : List (SendType T)
  pub phase : Phase
  -- The connections that were read and not yet handled.
  pub connects : ℕ

module _ {ℓ} {T : Type ℓ} where
  -- `send` of the channel.
  unfoldable pub enqueue : SendType T → Server T → Server T
  enqueue m s = record s { channel = s.channel ++ m ∷ [] }

  -- DiscardingSender::send
  unfoldable pub send : SendType T → Server T → Server T
  send m s = if s.other_end_connected then enqueue m s else s

  -- What the trait Sender gives a DiscardingSender.
  unfoldable pub send_as_sender : SendType T → Server T → Server T
  send_as_sender m s = enqueue m s

  -- `writer().send`: InfallibleSender::send on a DiscardingSender.
  unfoldable pub writer_send : SendType T → Server T → Server T
  writer_send m s = send_as_sender m s

  -- What a handler sends by `writer()`, one message after the other.
  unfoldable pub send_all : List (SendType T) → Server T → Server T
  send_all [] s = s
  send_all (m ∷ ms) s = send_all ms (writer_send m s)

  -- Serializer::set_other_end_connected
  unfoldable pub set_other_end_connected : Bool → Server T → Server T
  set_other_end_connected b s = record s { other_end_connected = b }

  -- Serializer::new_server
  unfoldable pub new_server : Server T
  new_server = record {
    other_end_connected = false;
    channel = [];
    phase = Phase.waiting;
    connects = 0;
  }

  -- A step, with what is sent and what the write loop takes off the channel. A write that fails ends
  -- the loop after it took the message.
  pub data Step : Server T → List (SendType T) → List (SendType T) → Server T → Type ℓ where
    accept :
        (s : Server T) (writing : Bool)
        → s.phase ≡ Phase.waiting
        → Step s [] [] (record s { phase = Phase.serving writing })
    write :
        (s : Server T) (reading writing : Bool) (m : SendType T) (ms : List (SendType T))
        → s.phase ≡ with_writer reading true
        → s.channel ≡ m ∷ ms
        → Step s [] (m ∷ []) (record s { channel = ms; phase = with_writer reading writing })
    -- A second without a message, and then the flag; what is sent between the two stays.
    stop_writing :
        (s : Server T) (reading : Bool) (ms : List (SendType T))
        → s.phase ≡ with_writer reading true
        → s.channel ≡ []
        → s.other_end_connected ≡ false
        → Step s ms [] (send_all ms (record s { phase = with_writer reading false }))
    read_connect :
        (s : Server T) (writing : Bool)
        → s.phase ≡ Phase.serving writing
        → Step s [] [] (record s { connects = suc s.connects })
    stop_reading :
        (s : Server T) (writing : Bool)
        → s.phase ≡ Phase.serving writing
        → Step s [] [] (record s { other_end_connected = false; phase = Phase.closing writing })
    close :
        (s : Server T)
        → s.phase ≡ Phase.closing false
        → Step s [] [] (record s { phase = Phase.waiting })
    handle_connect :
        (s : Server T) (n : ℕ) (m : SendType T) (ms : List (SendType T))
        → s.connects ≡ suc n
        → Step s
            (m ∷ ms)
            []
            (send_all (m ∷ ms) (set_other_end_connected true (record s { connects = n })))
    send_by_writer : (s : Server T) (m : SendType T) → Step s (m ∷ []) [] (writer_send m s)
    send_connected :
        (s : Server T) (m : SendType T)
        → s.other_end_connected ≡ true
        → Step s (m ∷ []) [] (send m s)
    discard :
        (s : Server T) (m : SendType T) → s.other_end_connected ≡ false → Step s [] [] (send m s)

  -- Steps one after the other, with all that is sent and taken.
  pub data Steps : Server T → List (SendType T) → List (SendType T) → Server T → Type ℓ where
    done : {s : Server T} → Steps s [] [] s
    then :
        {s t u : Server T} {sent sent' taken taken' : List (SendType T)}
        → Step s sent taken t
        → Steps t sent' taken' u
        → Steps s (sent ++ sent') (taken ++ taken') u
