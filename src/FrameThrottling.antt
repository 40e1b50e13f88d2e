-- ===== src/FrameThrottling.antt =====
-- src/compositor_utils.rs: SurfaceFrameThrottlingState and send_frames. A Duration is its number of
-- nanoseconds; the surface's user data is the state, if it was put there before.
pub mod Spacing
use wprs.Base.{
  ℕ, ◌-◌, ◌/◌, ◌%◌, Bool, true, false, Option, none, some, List, [], ◌∷◌, map, ltb, if◌then◌else◌,
}

pub record SurfaceFrameThrottlingState : Type 0 where
  pub last : Option ℕ

-- Duration::saturating_sub stops at 0.
abbrev pub is_overdue : Option ℕ → ℕ → ℕ → Bool
is_overdue none time throttle = true
is_overdue (some last) time throttle = ltb throttle (time - last)

-- Whether a frame is to be sent at `time`, and the state afterwards.
unfoldable pub update : SurfaceFrameThrottlingState → ℕ → ℕ → Bool × SurfaceFrameThrottlingState
update s time throttle =
    let send_throttled_frame = is_overdue s.last time throttle in
    if send_throttled_frame then (true, record { last = some time }) else (false, s)

-- UserDataMap::insert_if_missing_threadsafe
unfoldable pub state_of : Option SurfaceFrameThrottlingState → SurfaceFrameThrottlingState
state_of none = record { last = none }
state_of (some s) = s

-- The surface's state afterwards, the callbacks that are left, and those that are done, with the
-- 32-bit milliseconds that each is given.
unfoldable pub send_frames :
    Option SurfaceFrameThrottlingState
    → List ℕ
    → ℕ
    → ℕ
    → SurfaceFrameThrottlingState × List ℕ × List (ℕ × ℕ)
send_frames user_data frame_callbacks time throttle =
    let (frame_overdue, s) = update (state_of user_data) time throttle in
    if frame_overdue
    then (s, [], map (λ callback. (callback, time / 1000000 % 4294967296)) frame_callbacks)
    else (s, frame_callbacks, [])
