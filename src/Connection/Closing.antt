-- ===== src/Connection/Closing.antt =====
-- src/serialization/mod.rs: how accept_loop gets from the end of a connection to the next one.
use mathlib.Core.Path.{subst}
use wprs.Base.{Bool, true, false, List, [], ◌∷◌, ◌≡◌, ◌≢◌, refl}
use wprs.Messages.{SendType}
use wprs.Connection.{Phase, with_writer, Server, send_all, Step, Steps}

apart : {p : Phase} → p ≡ Phase.closing true → p ≡ Phase.waiting → ⊥
apart e e' = cc

apart_serving : {p : Phase} {w : Bool} → p ≡ Phase.closing true → p ≡ Phase.serving w → ⊥
apart_serving e e' = cc

apart_closed : {p : Phase} → p ≡ Phase.closing true → p ≡ Phase.closing false → ⊥
apart_closed e e' = cc

apart_flag : {b : Bool} → b ≡ true → b ≡ false → ⊥
apart_flag e e' = cc

module _ {ℓ} {T : Type ℓ} where
  -- The reader has ended, the flag says that the other end is connected, and the writer has nothing
  -- to write.
  pub record IsBlocked (s : Server T) : Type ℓ where
    pub phase : s.phase ≡ Phase.closing true
    pub connected : s.other_end_connected ≡ true
    pub empty : s.channel ≡ []

  apart_empty : {m : SendType T} {xs ms : List (SendType T)} → xs ≡ [] → xs ≡ m ∷ ms → ⊥
  apart_empty e e' = cc

  -- When the flag was raised after the read thread had ended, and nothing is left to write, every
  -- step that can be taken sends something: no connection is accepted before that.
  pub Step-blocked :
      {s : Server T} {sent taken : List (SendType T)} {t : Server T}
      → IsBlocked s
      → Step s sent taken t
      → sent ≢ []
  Step-blocked b (Step.accept s writing e) n = apart b.phase e
  Step-blocked b (Step.write s reading writing m ms e there) n = apart_empty b.empty there
  Step-blocked b (Step.stop_writing s reading ms e empty off) n = apart_flag b.connected off
  Step-blocked b (Step.read_connect s writing e) n = apart_serving b.phase e
  Step-blocked b (Step.stop_reading s writing e) n = apart_serving b.phase e
  Step-blocked b (Step.close s e) n = apart_closed b.phase e
  Step-blocked b (Step.handle_connect s k m ms e) n = apart_empty n refl
  Step-blocked b (Step.send_by_writer s m) n = apart_empty n refl
  Step-blocked b (Step.send_connected s m on) n = apart_empty n refl
  Step-blocked b (Step.discard s m off) n = apart_flag b.connected off

  -- From a connection whose reader has ended, whose flag is down and whose writer still runs,
  -- there are steps in which the writer takes all that is left, in order, and the server comes to
  -- `accept` again.
  pub Steps-accepts :
      (ms : List (SendType T)) (s : Server T)
      → s.phase ≡ Phase.closing true
      → s.other_end_connected ≡ false
      → s.channel ≡ ms
      → Steps s [] ms (record s { channel = []; phase = Phase.waiting })
  unfolding with_writer send_all
  Steps-accepts [] s p off e =
      subst (λ ch. Steps s [] [] (record s { channel = ch; phase = Phase.waiting })) e
        (Steps.then (Step.stop_writing s false [] p e off)
          (Steps.then (Step.close (record s { phase = Phase.closing false }) refl) Steps.done))
  Steps-accepts (m ∷ ms) s p off e =
      Steps.then (Step.write s false true m ms p e)
        (Steps-accepts ms (record s { channel = ms; phase = Phase.closing true }) refl off refl)
