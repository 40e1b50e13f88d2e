-- ===== src/FrameThrottling/Spacing.antt =====
-- src/compositor_utils.rs: the times at which frames are sent, and the callbacks.
use wprs.Base.{
  ℕ, ◌+◌, ◌-◌, ◌/◌, ◌%◌, ◌<◌, ◌≡◌, refl, ap, ◌++◌, arith, Option, none, some, inl, inr, List, [],
  ◌∷◌, map, ltb, if◌then◌else◌, Bool-cases, ltb→lt, append-nil,
}
use wprs.FrameThrottling.{SurfaceFrameThrottlingState, update, send_frames, state_of}

-- The times, of those at which the state is asked, at which a frame is sent.
unfoldable pub sent_at : SurfaceFrameThrottlingState → ℕ → List ℕ → List ℕ
sent_at s throttle [] = []
sent_at s throttle (t ∷ ts) =
    let (send, s') = update s t throttle in
    let rest = sent_at s' throttle ts in if send then t ∷ rest else rest

-- Each time is more than `throttle` after the one before it.
unfoldable pub IsSpaced : ℕ → Option ℕ → List ℕ → Type 0
IsSpaced throttle last [] = Unit
IsSpaced throttle none (t ∷ ts) = IsSpaced throttle (some t) ts
IsSpaced throttle (some last) (t ∷ ts) = (last + throttle < t) × IsSpaced throttle (some t) ts

sent_at-first :
    (throttle t : ℕ) (ts : List ℕ)
    → IsSpaced throttle (some t) (sent_at (record { last = some t }) throttle ts)
    → IsSpaced throttle none (sent_at (record { last = none }) throttle (t ∷ ts))
unfolding sent_at update IsSpaced
sent_at-first throttle t ts h = h

sent_at-later :
    (throttle last t : ℕ) (ts : List ℕ)
    → ((l : Option ℕ) → IsSpaced throttle l (sent_at (record { last = l }) throttle ts))
    → IsSpaced throttle (some last) (sent_at (record { last = some last }) throttle (t ∷ ts))
unfolding sent_at update IsSpaced
sent_at-later throttle last t ts ih = elim (Bool-cases (ltb throttle (t - last))) [
  | inl due ↦ rw due (
      let late : throttle < t - last = ltb→lt throttle (t - last) due in
      (omega (arith, late), ih (some t)))
  | inr early ↦ rw early (ih (some last))
]

-- However often the state is asked, at whatever times, the times at which it lets a frame be sent
-- are each more than `throttle` after the one before, and the first more than `throttle` after
-- the one that the state remembers.
pub sent_at-IsSpaced :
    (throttle : ℕ) (ts : List ℕ) (last : Option ℕ)
    → IsSpaced throttle last (sent_at (record { last = last }) throttle ts)
sent_at-IsSpaced throttle [] last = unfold sent_at IsSpaced in tt
sent_at-IsSpaced throttle (t ∷ ts) none =
    sent_at-first throttle t ts (sent_at-IsSpaced throttle ts (some t))
sent_at-IsSpaced throttle (t ∷ ts) (some last) =
    sent_at-later throttle last t ts (sent_at-IsSpaced throttle ts)

map-done : (x : ℕ) (cs : List ℕ) → map (λ (d : ℕ × ℕ). d.0) (map (λ c. (c, x)) cs) ≡ cs
map-done x [] = refl
map-done x (c ∷ cs) = ap (λ l. c ∷ l) (map-done x cs)

-- After `send_frames` each callback is either still there or done, once and in order.
pub send_frames-all :
    (user_data : Option SurfaceFrameThrottlingState) (frame_callbacks : List ℕ) (time throttle : ℕ)
    → let r = send_frames user_data frame_callbacks time throttle in
      r.1 ++ map (λ (d : ℕ × ℕ). d.0) r.2 ≡ frame_callbacks
unfolding send_frames
send_frames-all user_data frame_callbacks time throttle =
    elim (Bool-cases (update (state_of user_data) time throttle).0) [
      | inl due ↦ rw due (map-done (time / 1000000 % 4294967296) frame_callbacks)
      | inr early ↦ rw early (append-nil frame_callbacks)
    ]
