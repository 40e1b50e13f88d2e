-- ===== src/Shards/Order.antt =====
-- src/sharding_compression.rs: the sort of CompressedShards::new, and the order of its input.
use mathlib.Core.List.{Permᴰ}
use wprs.Base.{
  ℕ, ◌≤◌, ◌<◌, ◌≡◌, refl, sym, ap, ap₂, ◌∙◌, arith, List, [], ◌∷◌, le→leb, leb-false, All, dec_le,
  dec_lt,
}
use wprs.Shards.{CompressedShard, insert, sort_by_key}

-- Each shard of the list is the one that its index stands for.
abbrev pub IsAt : (ℕ → CompressedShard) → List CompressedShard → Type 0
IsAt at ss = All (λ s. s ≡ at s.idx) ss

pub insert-front :
    (s t : CompressedShard) (ts : List CompressedShard)
    → s.idx ≤ t.idx
    → insert s (t ∷ ts) ≡ s ∷ t ∷ ts
unfolding insert
insert-front s t ts h = rw (le→leb s.idx t.idx h)

insert-later :
    (s t : CompressedShard) (ts : List CompressedShard)
    → t.idx < s.idx
    → insert s (t ∷ ts) ≡ t ∷ insert s ts
unfolding insert
insert-later s t ts h = rw (leb-false s.idx t.idx h)

pub insert-nil : (s : CompressedShard) → insert s [] ≡ s ∷ []
unfolding insert
insert-nil s = refl

-- Shards of different indices are inserted in either order.
insert-swap-lt :
    (a b : CompressedShard) (ts : List CompressedShard)
    → a.idx < b.idx
    → insert a (insert b ts) ≡ insert b (insert a ts)
insert-swap-lt a b [] h =
    ap (insert a) (insert-nil b)
    ∙ insert-front a b [] (omega arith)
    ∙ sym (ap (insert b) (insert-nil a) ∙ insert-later b a [] h ∙ ap (λ r. a ∷ r) (insert-nil b))
insert-swap-lt a b (t ∷ ts) h = elim (dec_le b.idx t.idx) [
  | yes bt ↦
      ap (insert a) (insert-front b t ts bt)
      ∙ insert-front a b (t ∷ ts) (omega arith)
      ∙ sym (
          ap (insert b) (insert-front a t ts (omega arith))
          ∙ insert-later b a (t ∷ ts) h
          ∙ ap (λ r. a ∷ r) (insert-front b t ts bt))
  | no tb ↦ ap (insert a) (insert-later b t ts (omega arith)) ∙ elim (dec_le a.idx t.idx) [
    | yes at' ↦
        insert-front a t (insert b ts) at'
        ∙ sym (
            ap (insert b) (insert-front a t ts at')
            ∙ insert-later b a (t ∷ ts) h
            ∙ ap (λ r. a ∷ r) (insert-later b t ts (omega arith)))
    | no ta ↦
        insert-later a t (insert b ts) (omega arith)
        ∙ ap (λ r. t ∷ r) (insert-swap-lt a b ts h)
        ∙ sym (
            ap (insert b) (insert-later a t ts (omega arith))
            ∙ insert-later b t (insert a ts) (omega arith))
  ]
]

insert-swap :
    (at : ℕ → CompressedShard) (a b : CompressedShard) (ts : List CompressedShard)
    → a ≡ at a.idx
    → b ≡ at b.idx
    → insert a (insert b ts) ≡ insert b (insert a ts)
insert-swap at a b ts p q = elim (dec_lt a.idx b.idx) [
  | yes l ↦ insert-swap-lt a b ts l
  | no ge ↦ elim (dec_lt b.idx a.idx) [
    | yes l ↦ sym (insert-swap-lt b a ts l)
    | no le ↦
        (let same : a ≡ b = p ∙ ap at (let e : a.idx ≡ b.idx = omega arith in e) ∙ sym q in
          ap₂ (λ x y. insert x (insert y ts)) same (sym same))
  ]
]

IsAt-Perm :
    (at : ℕ → CompressedShard) {xs ys : List CompressedShard}
    → Permᴰ xs ys
    → IsAt at xs
    → IsAt at ys
IsAt-Perm at Permᴰ.nil h = tt
IsAt-Perm at (Permᴰ.cons e d) h = (sym e ∙ h.0 ∙ ap (λ s. at s.idx) e, IsAt-Perm at d h.1)
IsAt-Perm at (Permᴰ.swap e₁ e₂) h =
    (sym e₂ ∙ h.1.0 ∙ ap (λ s. at s.idx) e₂, (sym e₁ ∙ h.0 ∙ ap (λ s. at s.idx) e₁, h.1.1))
IsAt-Perm at (Permᴰ.trans c d) h = IsAt-Perm at d (IsAt-Perm at c h)

-- `sort_by_key` gives the same list for two permutations of each other, when an index stands for
-- one shard.
pub sort_by_key-Perm :
    (at : ℕ → CompressedShard) {xs ys : List CompressedShard}
    → Permᴰ xs ys
    → IsAt at xs
    → sort_by_key xs ≡ sort_by_key ys
unfolding sort_by_key
sort_by_key-Perm at Permᴰ.nil h = refl
sort_by_key-Perm at (Permᴰ.cons e d) h = ap₂ insert e (sort_by_key-Perm at d h.1)
sort_by_key-Perm at (Permᴰ.swap {a} {b} {l = l} e₁ e₂) h =
    insert-swap at a b (sort_by_key l) h.0 h.1.0
    ∙ ap₂ (λ x y. insert x (insert y (sort_by_key l))) e₂ e₁
sort_by_key-Perm at (Permᴰ.trans c d) h =
    sort_by_key-Perm at c h ∙ sort_by_key-Perm at d (IsAt-Perm at c h)
