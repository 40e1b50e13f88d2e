-- ===== src/Decompress/Windows.antt =====
-- src/sharding_compression.rs: the windows of contiguous shards, and the map that finds them.
use wprs.Base.{
  ℕ, suc, ◌+◌, ◌-◌, ◌<◌, ◌≤◌, ◌≡◌, refl, ◌∙◌, arith, some, List, [], ◌∷◌, ◌++◌, take, drop, length,
  le→leb, ==-false, All, length-drop,
}
use wprs.Decompress.{SplitTo, split_all, WindowMap, map_insert, map_remove, number_windows}

-- Where each of the pieces starts, when they follow each other from `off` on.
unfoldable pub offsets : ℕ → List (List ℕ) → List ℕ
offsets off [] = []
offsets off (c ∷ cs) = off ∷ offsets (off + length c) cs

abbrev pub IsNonEmpty : List ℕ → Type 0
IsNonEmpty c = 0 < length c

-- The windows of a buffer, and what is in them once they are filled.
unfoldable pub windows_of : List ℕ → List (List ℕ) → List ℕ → List (List ℕ)
windows_of c [] buf = buf ∷ []
windows_of c (d ∷ cs) buf = take (length c) buf ∷ windows_of d cs (drop (length c) buf)

unfoldable pub filled : List ℕ → List (List ℕ) → List ℕ → List (List ℕ)
filled c [] buf = (c ++ drop (length c) buf) ∷ []
filled c (d ∷ cs) buf = c ∷ filled d cs (drop (length c) buf)

unfoldable pub total : List (List ℕ) → ℕ
total [] = 0
total (c ∷ cs) = length c + total cs

-- The documented behaviour of `split_to`.
abbrev pub SplitsTo : SplitTo → Type 0
SplitsTo split_to =
    (k : ℕ) (buf : List ℕ) → k ≤ length buf → split_to k buf ≡ some (take k buf, drop k buf)

pub split_all-windows_of :
    (split_to : SplitTo)
    → SplitsTo split_to
    → (off : ℕ) (c : List ℕ) (cs : List (List ℕ)) (buf : List ℕ) → length c + total cs ≤ length buf
    → split_all split_to off (offsets (off + length c) cs) buf ≡ some (windows_of c cs buf)
unfolding split_all offsets windows_of total
split_all-windows_of split_to law off c [] buf h = refl
split_all-windows_of split_to law off c (d ∷ cs) buf h = rw (
  le→leb off (off + length c) (omega arith),
  (let e : off + length c - off ≡ length c = omega arith in e),
  law (length c) buf (omega arith),
  split_all-windows_of split_to law (off + length c) d cs (drop (length c) buf)
      (omega (arith, length-drop (length c) buf)),
)

-- The numbers under which the windows from the `i`-th on are found.
unfoldable pub Numbered : ℕ → List ℕ → WindowMap → Type 0
Numbered i [] m = Unit
Numbered i (k ∷ ks) m = (m k ≡ some i) × Numbered (suc i) ks m

Numbered-remove :
    (i off k : ℕ) (cs : List (List ℕ)) (m : WindowMap)
    → k < off
    → Numbered i (offsets off cs) m
    → Numbered i (offsets off cs) (map_remove k m)
unfolding Numbered offsets
Numbered-remove i off k [] m h n = tt
Numbered-remove i off k (c ∷ cs) m h n = (
  rw (==-false off k (omega arith)) n.0,
  Numbered-remove (suc i) (off + length c) k cs m (omega arith) n.1,
)

-- Inserting later windows leaves what is there under smaller indices.
number_windows-before :
    (i off k : ℕ) (cs : List (List ℕ)) (m : WindowMap)
    → k < off
    → number_windows i (offsets off cs) m k ≡ m k
unfolding number_windows offsets
number_windows-before i off k [] m h = refl
number_windows-before i off k (c ∷ cs) m h =
    number_windows-before (suc i) (off + length c) k cs (map_insert off i m) (omega arith)
    ∙ rw (==-false k off (omega arith)) refl

pub number_windows-Numbered :
    (i off : ℕ) (cs : List (List ℕ)) (m : WindowMap)
    → All IsNonEmpty cs
    → Numbered i (offsets off cs) (number_windows i (offsets off cs) m)
unfolding number_windows offsets Numbered
number_windows-Numbered i off [] m h = tt
number_windows-Numbered i off (c ∷ cs) m h = (
  number_windows-before (suc i) (off + length c) off cs (map_insert off i m) (omega arith)
      ∙ ground arith,
  number_windows-Numbered (suc i) (off + length c) cs (map_insert off i m) h.1,
)

pub Numbered-tail :
    (i off : ℕ) (c : List ℕ) (cs : List (List ℕ)) (m : WindowMap)
    → 0 < length c
    → Numbered i (offsets off (c ∷ cs)) m
    → (m off ≡ some i) × Numbered (suc i) (offsets (off + length c) cs) (map_remove off m)
unfolding Numbered offsets
Numbered-tail i off c cs m h n =
    (n.0, Numbered-remove (suc i) (off + length c) off cs m (omega arith) n.1)
