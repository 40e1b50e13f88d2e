-- ===== src/Connection/Delivery.antt =====
-- src/channel_utils.rs: what is sent is taken, in order.
use wprs.Base.{false, true, List, [], ◌∷◌, ◌++◌, ◌≡◌, refl, sym, ap, ◌∙◌, append-nil, append_assoc}
use wprs.Messages.{SendType}
use wprs.Connection.{
  with_writer, Server, enqueue, send, send_as_sender, writer_send, send_all,
  set_other_end_connected, Step, Steps,
}

module _ {ℓ} {T : Type ℓ} where
  pub send_all-channel :
      (ms : List (SendType T)) (s : Server T) → (send_all ms s).channel ≡ s.channel ++ ms
  unfolding send_all writer_send send_as_sender enqueue
  send_all-channel [] s = sym (append-nil s.channel)
  send_all-channel (m ∷ ms) s =
      send_all-channel ms (writer_send m s) ∙ append_assoc s.channel (m ∷ []) ms

  Step-channel :
      {s : Server T} {sent taken : List (SendType T)} {t : Server T}
      → Step s sent taken t
      → s.channel ++ sent ≡ taken ++ t.channel
  unfolding enqueue send send_as_sender writer_send set_other_end_connected
  Step-channel (Step.accept s writing e) = append-nil s.channel
  Step-channel (Step.write s reading writing m ms e there) = append-nil s.channel ∙ there
  Step-channel (Step.stop_writing s reading ms e empty off) =
      sym (send_all-channel ms (record s { phase = with_writer reading false }))
  Step-channel (Step.read_connect s writing e) = append-nil s.channel
  Step-channel (Step.stop_reading s writing e) = append-nil s.channel
  Step-channel (Step.close s e) = append-nil s.channel
  Step-channel (Step.handle_connect s n m ms e) =
      sym (send_all-channel (m ∷ ms) (set_other_end_connected true (record s { connects = n })))
  Step-channel (Step.send_by_writer s m) = refl
  Step-channel (Step.send_connected s m on) = rw on refl
  Step-channel (Step.discard s m off) = rw off (append-nil s.channel)

  -- The write loops of all connections together take off the channel, in order and each once,
  -- what was in it and what was sent, whatever was connected at the time: by `writer()` all, by
  -- DiscardingSender's own `send` only while the other end was connected.
  pub Steps-channel :
      {s t : Server T} {sent taken : List (SendType T)}
      → Steps s sent taken t
      → s.channel ++ sent ≡ taken ++ t.channel
  Steps-channel Steps.done = append-nil _
  Steps-channel
        (Steps.then {s = s} {t = t} {u = u} {sent = sent} {sent' = sent'} {taken = taken}
          {taken' = taken'} step steps) =
      sym (append_assoc s.channel sent sent')
      ∙ ap (λ xs. xs ++ sent') (Step-channel step)
      ∙ append_assoc taken t.channel sent'
      ∙ ap (λ xs. taken ++ xs) (Steps-channel steps)
      ∙ sym (append_assoc taken taken' u.channel)
