-- ===== src/SerialMap/Pruning.antt =====
-- src/utils.rs: what SerialMap answers after insertions, prunings and removals.
use wprs.Base.{
  ℕ, ◌-◌, ◌<◌, ◌≡◌, refl, ap, ◌∙◌, arith, Bool, true, false, not, none, some, inl, inr, List, [],
  ◌∷◌, length, ltb, ◌==◌, if◌then◌else◌, Bool-cases, lt→ltb,
}
use wprs.SerialMap.{SerialMap, prune_age, prune_threshold, retain, get, prune, insert, remove}

get-retain :
    (k : ℕ) (keep : ℕ → Bool) (es : List (ℕ × ℕ))
    → keep k ≡ true
    → get k (retain keep es) ≡ get k es
unfolding get retain
get-retain k keep [] h = refl
get-retain k keep (e ∷ es) h = ground (arith, get-retain k keep es h)

get-dropped :
    (k : ℕ) (keep : ℕ → Bool) (es : List (ℕ × ℕ)) → keep k ≡ false → get k (retain keep es) ≡ none
unfolding get retain
get-dropped k keep [] h = refl
get-dropped k keep (e ∷ es) h = ground (arith, get-dropped k keep es h)

get-cons :
    (k a b : ℕ) (es : List (ℕ × ℕ)) → get k ((a, b) ∷ es) ≡ (if k == a then some b else get k es)
unfolding get
get-cons k a b es = refl

-- Pruning keeps what is younger than `prune_age` serials.
get-prune :
    (k : ℕ) (s : SerialMap)
    → s.last_serial - prune_age < k
    → get k (prune s).entries ≡ get k s.entries
unfolding prune
get-prune k s h = elim (Bool-cases (ltb prune_threshold (length s.entries))) [
  | inl full ↦ rw full (get-retain k _ s.entries (lt→ltb (s.last_serial - 1000) k h))
  | inr room ↦ rw room refl
]

-- After `insert`, `remove` answers the new serial with the client's, and every other serial less
-- than `prune_age` below the new one as it would have before.
pub remove-insert :
    (next client k : ℕ) (s : SerialMap)
    → next - prune_age < k
    → (remove k (insert next client s).1).0 ≡ (if k == next then some client else (remove k s).0)
unfolding insert remove
remove-insert next client k s h =
    get-prune k
      (record {
        entries = (next, client) ∷ retain (λ j. not (j == next)) s.entries;
        last_serial = next;
      })
      h
    ∙ known
  where
    known :
        get k ((next, client) ∷ retain (λ j. not (j == next)) s.entries)
        ≡ (if k == next then some client else get k s.entries)
    known =
        get-cons k next client (retain (λ j. not (j == next)) s.entries)
        ∙ elim (Bool-cases (k == next)) [
          | inl same ↦ rw same refl
          | inr other ↦ rw other (get-retain k (λ j. not (j == next)) s.entries (ap not other))
        ]

-- A serial that was removed is not answered again.
pub remove-remove : (k : ℕ) (s : SerialMap) → (remove k (remove k s).1).0 ≡ none
unfolding remove
remove-remove k s = get-dropped k _ s.entries (same k)
  where
    same : (j : ℕ) → not (j == j) ≡ false
    same j = ground arith
