-- ===== src/Compress/Scheduling.antt =====
-- src/sharding_compression.rs: the schedules of the compressor threads and what a session collects.
use mathlib.Core.List.{Permᴰ}
use mathlib.Core.List.Permᴰ
use mathlib.Core.Path.{subst}
use wprs.Base.{
  ℕ, suc, ◌≡◌, refl, sym, ap, ◌∙◌, arith, List, [], ◌∷◌, ◌++◌, map, length, length-append,
  length-map, append_assoc, append-nil, some, le→leb, take-all,
}
use wprs.Shards.{Submission, CompressedShard, new, sort_by_key}
use wprs.Shards.Order.{IsAt, sort_by_key-Perm}
use wprs.Compress.{
  Zstd, Session, Reaches, begin, compress_shard, compress_submission, collect_shards,
}

map-append {ℓ κ} :
    {A : Type ℓ} {B : Type κ} (f : A → B) (xs ys : List A) → map f (xs ++ ys) ≡ map f xs ++ map f ys
map-append f [] ys = refl
map-append f (x ∷ xs) ys = ap (λ zs. f x ∷ zs) (map-append f xs ys)

module _ (zstd : Zstd) where
  abbrev outputs : List Submission → List CompressedShard
  outputs = map (compress_submission zstd)

  -- The counter counts what was submitted.
  pub pending_shards-eq :
      {made : List Submission} {c : Session} → Reaches zstd made c → c.pending_shards ≡ length made
  unfolding begin compress_shard
  pending_shards-eq Reaches.started = refl
  pending_shards-eq (Reaches.submitted s r) = omega (arith, pending_shards-eq r)
  pending_shards-eq (Reaches.finished before s after out n r) = pending_shards-eq r

  submitted-Perm :
      (s : Submission) (made input : List Submission) (out : List CompressedShard)
      → Permᴰ (outputs made) (out ++ outputs input)
      → Permᴰ (outputs (s ∷ made)) (out ++ outputs (input ++ s ∷ []))
  submitted-Perm s made input out d =
      subst (λ l. Permᴰ (outputs (s ∷ made)) l)
        (append_assoc out (outputs input) (outputs (s ∷ []))
          ∙ ap (λ l. out ++ l) (sym (map-append (compress_submission zstd) input (s ∷ []))))
        (Permᴰ.trans (Permᴰ.cons refl d) (
          Permᴰ.trans (Permᴰ.cons refl (Permᴰ.symm (Permᴰ.append-nil _)))
            (Permᴰ.symm (Permᴰ.middle (compress_submission zstd s) (out ++ outputs input) []))))

  finished-Perm :
      (before after : List Submission) (s : Submission) (out : List CompressedShard)
      → Permᴰ
          (out ++ outputs (before ++ s ∷ after))
          (out ++ compress_submission zstd s ∷ [] ++ outputs (before ++ after))
  finished-Perm before after s out =
      let f = compress_submission zstd in
      subst (λ l. Permᴰ l (out ++ f s ∷ [] ++ outputs (before ++ after)))
        (ap (λ l. out ++ l) (sym (map-append f before (s ∷ after))))
        (subst (λ l. Permᴰ (out ++ (outputs before ++ outputs (s ∷ after))) l)
          (ap (λ l. out ++ (f s ∷ l)) (sym (map-append f before after))
            ∙ sym (append_assoc out (f s ∷ []) (outputs (before ++ after))))
          (Permᴰ.append_left out (Permᴰ.middle (f s) (outputs before) (outputs after))))

  -- In every session that can be reached, what came out and the shards of what still waits are
  -- together a permutation of the shards of the submissions: none is lost, none is answered
  -- twice.
  pub Reaches-Perm :
      {made : List Submission} {c : Session}
      → Reaches zstd made c
      → Permᴰ (outputs made) (c.compressor_output ++ outputs c.compressor_input)
  unfolding begin compress_shard
  Reaches-Perm Reaches.started = Permᴰ.nil
  Reaches-Perm (Reaches.submitted {made} {c} s r) =
      submitted-Perm s made c.compressor_input c.compressor_output (Reaches-Perm r)
  Reaches-Perm (Reaches.finished before s after out n r) =
      Permᴰ.trans (Reaches-Perm r) (finished-Perm before after s out)

  length-Perm {ℓ} : {A : Type ℓ} {xs ys : List A} → Permᴰ xs ys → length xs ≡ length ys
  length-Perm Permᴰ.nil = refl
  length-Perm (Permᴰ.cons e d) = ap suc (length-Perm d)
  length-Perm (Permᴰ.swap e₁ e₂) = refl
  length-Perm (Permᴰ.trans c d) = length-Perm c ∙ length-Perm d

  nothing_waits :
      {made : List Submission} {c : Session}
      → Reaches zstd made c
      → length c.compressor_output ≡ c.pending_shards
      → length (outputs c.compressor_input) ≡ 0
  nothing_waits {made} {c} r h = omega (
    arith,
    length-Perm (Reaches-Perm r),
    length-append c.compressor_output (outputs c.compressor_input),
    length-map (compress_submission zstd) made,
    pending_shards-eq r,
  )

  -- In any session reached by submitting and by threads that answer waiting submissions in any
  -- order, once as many shards came out as were counted, `collect_shards` returns what `new`
  -- makes of the shards of the submissions, when an index stands for one shard.
  pub collect_shards-eq :
      (at : ℕ → CompressedShard) {made : List Submission} {c : Session}
      → Reaches zstd made c
      → length c.compressor_output ≡ c.pending_shards
      → IsAt at (outputs made)
      → collect_shards c ≡ some (new (outputs made))
  unfolding collect_shards new
  collect_shards-eq at {made} {c} r h i =
      rw (le→leb c.pending_shards (length c.compressor_output) (omega arith)) (
        ap (λ ss. some (record { shards = ss }))
          (ap sort_by_key (take-all c.pending_shards c.compressor_output (omega arith))
            ∙ sym (
                sort_by_key-Perm at (subst (λ l. Permᴰ (outputs made) l) emptied (Reaches-Perm r))
                  i)))
    where
      none_left : (l : List CompressedShard) → length l ≡ 0 → l ≡ []
      none_left [] e = refl
      none_left (x ∷ xs) e = absurd (omega arith)

      emptied : c.compressor_output ++ outputs c.compressor_input ≡ c.compressor_output
      emptied =
          ap (λ l. c.compressor_output ++ l) (none_left _ (nothing_waits r h))
          ∙ append-nil c.compressor_output

  -- The threads can answer all that waits.
  drained :
      {made : List Submission} (input : List Submission) (out : List CompressedShard) (n : ℕ)
      → Reaches zstd made
          (record { compressor_input = input; compressor_output = out; pending_shards = n })
      → (out' : List CompressedShard) × Reaches zstd made
          (record { compressor_input = []; compressor_output = out'; pending_shards = n })
  drained [] out n r = (out, r)
  drained (s ∷ rest) out n r =
      drained rest (out ++ compress_submission zstd s ∷ []) n (Reaches.finished [] s rest out n r)

  all_out :
      {made : List Submission} {out : List CompressedShard} {n : ℕ}
      → Reaches zstd made
          (record { compressor_input = []; compressor_output = out; pending_shards = n })
      → length out ≡ n
  all_out {made} {out} {n} r = omega (
    arith,
    length-Perm (Reaches-Perm r),
    length-append out [],
    length-map (compress_submission zstd) made,
    pending_shards-eq r,
  )

  -- When some session can be reached, one with the same submissions can be reached in which
  -- `collect_shards` returns, and it returns what `new` makes of the shards of the submissions,
  -- when an index stands for one shard.
  pub collect_shards-returns :
      (at : ℕ → CompressedShard) {made : List Submission} {c : Session}
      → Reaches zstd made c
      → IsAt at (outputs made)
      → (c' : Session) × Reaches zstd made c' × (collect_shards c' ≡ some (new (outputs made)))
  collect_shards-returns at {made} {c} r i =
      let d = drained c.compressor_input c.compressor_output c.pending_shards r in
      let c' : Session = record {
        compressor_input = [];
        compressor_output = d.0;
        pending_shards = c.pending_shards;
      } in
      (c', d.1, collect_shards-eq at d.1 (all_out d.1) i)
