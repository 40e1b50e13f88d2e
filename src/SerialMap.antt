-- ===== src/SerialMap.antt =====
-- src/utils.rs: SerialMap, from the serials that the compositor hands out to those of the client's
-- server. The counter of the smithay library is an argument: the serial that it gives next. The
-- HashMap is an association list with distinct keys.
pub mod Pruning
use wprs.Base.{
  ℕ, suc, ◌+◌, ◌-◌, Bool, not, Option, none, some, List, [], ◌∷◌, length, ltb, ◌==◌, if◌then◌else◌,
}

pub record SerialMap : Type 0 where
  pub entries : List (ℕ × ℕ)
  pub last_serial : ℕ

abbrev pub prune_threshold : ℕ
prune_threshold = 2000

abbrev pub prune_age : ℕ
prune_age = 1000

unfoldable pub new : SerialMap
new = record { entries = []; last_serial = 0 }

-- HashMap::retain, get and remove.
unfoldable pub retain : (ℕ → Bool) → List (ℕ × ℕ) → List (ℕ × ℕ)
retain keep [] = []
retain keep (e ∷ es) = let rest = retain keep es in if keep e.0 then e ∷ rest else rest

unfoldable pub get : ℕ → List (ℕ × ℕ) → Option ℕ
get k [] = none
get k (e ∷ es) = let rest = get k es in if k == e.0 then some e.1 else rest

unfoldable pub prune : SerialMap → SerialMap
prune s =
    if ltb prune_threshold (length s.entries)
    then record s { entries = retain (λ k. ltb (s.last_serial - prune_age) k) s.entries }
    else s

-- The serial that goes with the client's, and the map that knows it. HashMap::insert puts the new
-- value in place of an old one.
unfoldable pub insert : ℕ → ℕ → SerialMap → ℕ × SerialMap
unfolding prune
insert next_serial client_serial s = (
  next_serial,
  prune (record {
    entries = (next_serial, client_serial) ∷ retain (λ k. not (k == next_serial)) s.entries;
    last_serial = next_serial;
  }),
)

unfoldable pub remove : ℕ → SerialMap → Option ℕ × SerialMap
remove k s = (get k s.entries, record s { entries = retain (λ j. not (j == k)) s.entries })
