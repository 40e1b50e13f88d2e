-- ===== src/Filtering/Decode/Blocks.antt =====
-- src/filtering.rs: the loop over blocks in a thread of vec4u8_soa_to_aos_avx2_parallel.
use mathlib.Core.Path.{subst}
use wprs.Base.{
  ℕ, zero, suc, ◌%◌, ◌≤◌, ◌<◌, ◌≡◌, refl, sym, ap, ap₂, ◌∙◌, arith, List, [], ◌∷◌, ◌++◌, map, take,
  take-all, drop, length, length-map, length-append, length-take, length-drop, take-append-drop,
  append_assoc, All, All-take, All-drop,
}
use wprs.Base.Chunks.{exact_chunks, exact_chunks-short}
use wprs.Base.Chunks.Laws.{length-exact_chunks, exact_chunks-append}
use wprs.Simd.{Lanes}
use wprs.Pixels.{Vec4u8}
use wprs.Filtering.Planes.{
  Quad, quad_path, zip_quad, zip4, planes_of, delta, undelta, last_or, undelta-delta, length-delta,
  join, join-planes_of, IsPixel,
}
use wprs.Filtering.Planes.Encode.{
  encode, carry, encode-append, carry-IsByteQuad, IsByteQuad, IsBytes-map,
}
use wprs.Filtering.Block.{soa_to_aos_u8_32x4}
use wprs.Filtering.Block.Backward.{
  Carries, HasLength, soa_to_aos_u8_32x4_out, soa_to_aos_u8_32x4_carry,
}
use wprs.Filtering.Decode.{unfilter_blocks}

-- The planes of a prediction, undone.
undelta-encode :
    (p : Quad ℕ) (ps : List Vec4u8)
    → IsByteQuad p
    → All IsPixel ps
    → zip_quad undelta p (encode p ps) ≡ planes_of ps
undelta-encode p ps b a =
    quad_path (undelta-delta p.q0 _ b.0 (IsBytes-map _ ps (λ x h. omega arith) a))
      (undelta-delta p.q1 _ b.1 (IsBytes-map _ ps (λ x h. h.1) a))
      (undelta-delta p.q2 _ b.2 (IsBytes-map _ ps (λ x h. omega arith) a))
      (undelta-delta p.q3 _ b.3 (IsBytes-map _ ps (λ x h. h.3) a))

pub encode-HasLength :
    (p : Quad ℕ) (ps : List Vec4u8) (n : ℕ) → length ps ≡ n → HasLength n (encode p ps)
encode-HasLength p ps n h = (plane p.q0 _, plane p.q1 _, plane p.q2 _, plane p.q3 _)
  where
    plane : (x : ℕ) (g : Vec4u8 → ℕ) → length (delta x (map g ps)) ≡ n
    plane x g = length-delta x (map g ps) ∙ length-map g ps ∙ h

-- One block: its pixels, and the registers that carry its last bytes on.
module _ (p : Quad ℕ) (l : Quad (Lanes ℕ)) (ps : List Vec4u8) (c : Carries l p) (b : IsByteQuad p)
    (a : All IsPixel ps) (full : length ps ≡ 32) where
  block-roundtrip : (soa_to_aos_u8_32x4 (encode p ps) l).0 ≡ ps
  block-roundtrip =
      soa_to_aos_u8_32x4_out (encode p ps) l p c (encode-HasLength p ps 32 full)
      ∙ ap join (undelta-encode p ps b a)
      ∙ join-planes_of ps a

  block-Carries : Carries (soa_to_aos_u8_32x4 (encode p ps) l).1 (carry p ps)
  block-Carries =
      subst (λ q. Carries (soa_to_aos_u8_32x4 (encode p ps) l).1 (zip_quad last_or p q))
        (undelta-encode p ps b a)
        (soa_to_aos_u8_32x4_carry (encode p ps) l p c (encode-HasLength p ps 32 full))

-- The blocks that the four planes `q` are cut into.
abbrev pub blocks_of : Quad (List ℕ) → List (Quad (List ℕ))
blocks_of q =
    zip4 (exact_chunks 32 q.q0) (exact_chunks 32 q.q1) (exact_chunks 32 q.q2) (exact_chunks 32 q.q3)

blocks_of-append :
    (q r : Quad (List ℕ)) → HasLength 32 q → blocks_of (zip_quad ◌++◌ q r) ≡ q ∷ blocks_of r
unfolding zip4
blocks_of-append q r h = rw (
  exact_chunks-append 32 (omega arith) q.q0 r.q0 h.0,
  exact_chunks-append 32 (omega arith) q.q1 r.q1 h.1,
  exact_chunks-append 32 (omega arith) q.q2 r.q2 h.2,
  exact_chunks-append 32 (omega arith) q.q3 r.q3 h.3,
)

pub append_assoc_quad :
    (p q r : Quad (List ℕ))
    → zip_quad ◌++◌ (zip_quad ◌++◌ p q) r ≡ zip_quad ◌++◌ p (zip_quad ◌++◌ q r)
append_assoc_quad p q r =
    quad_path (append_assoc p.q0 q.q0 r.q0) (append_assoc p.q1 q.q1 r.q1)
      (append_assoc p.q2 q.q2 r.q2) (append_assoc p.q3 q.q3 r.q3)

-- A quad of planes too short for a block.
abbrev pub IsShort : Quad (List ℕ) → Type 0
IsShort r = (length r.q0 < 32) × (length r.q1 < 32) × (length r.q2 < 32) × (length r.q3 < 32)

blocks_of-short :
    (q r : Quad (List ℕ)) → HasLength 0 q → IsShort r → blocks_of (zip_quad ◌++◌ q r) ≡ []
unfolding zip4
blocks_of-short q r h s =
    rw (exact_chunks-short 32 (q.q0 ++ r.q0) (omega (arith, length-append q.q0 r.q0)))

unfilter_blocks-cons :
    (b : Quad (List ℕ)) (bs : List (Quad (List ℕ))) (l : Quad (Lanes ℕ)) (ps qs : List Vec4u8)
    → (soa_to_aos_u8_32x4 b l).0 ≡ ps
    → unfilter_blocks bs (soa_to_aos_u8_32x4 b l).1 ≡ qs
    → unfilter_blocks (b ∷ bs) l ≡ ps ++ qs
unfolding unfilter_blocks
unfilter_blocks-cons b bs l ps qs e f = ap₂ ◌++◌ e f

-- The blocks of a prediction, whatever too short a rest follows them, give the pixels back.
pub unfilter_blocks-encode :
    (bound : ℕ) (ps : List Vec4u8) (r : Quad (List ℕ)) (p : Quad ℕ) (l : Quad (Lanes ℕ))
    → length ps ≤ bound
    → length ps % 32 ≡ 0
    → IsShort r
    → Carries l p
    → IsByteQuad p
    → All IsPixel ps
    → unfilter_blocks (blocks_of (zip_quad ◌++◌ (encode p ps) r)) l ≡ ps
unfilter_blocks-encode bound [] r p l h d s c b a =
    rw (blocks_of-short (encode p []) r (encode-HasLength p [] 0 refl) s)
      (unfold unfilter_blocks in refl)
unfilter_blocks-encode zero (x ∷ ps) r p l h d s c b a = absurd (omega arith)
unfilter_blocks-encode (suc bound) (x ∷ ps) r p l h d s c b a =
    let all = x ∷ ps in
    let first = take 32 all in
    let later = drop 32 all in
    let full : length first ≡ 32 = omega (arith, length-take 32 all) in
    let a' = All-take IsPixel 32 all a in
    ap (λ q. unfilter_blocks (blocks_of (zip_quad ◌++◌ q r)) l) (cut p all)
    ∙ ap (λ bs. unfilter_blocks bs l)
        (ap blocks_of (append_assoc_quad (encode p first) (encode (carry p first) later) r)
          ∙ blocks_of-append (encode p first) _ (encode-HasLength p first 32 full))
    ∙ unfilter_blocks-cons _ _ l first later (block-roundtrip p l first c b a' full) (
        unfilter_blocks-encode bound later r (carry p first) _ (omega (arith, length-drop 32 all))
          (omega (arith, length-drop 32 all)) s (block-Carries p l first c b a' full)
          (carry-IsByteQuad p first b a') (All-drop IsPixel 32 all a))
    ∙ take-append-drop 32 all
  where
    cut :
        (p : Quad ℕ) (qs : List Vec4u8)
        → encode p qs
          ≡ zip_quad ◌++◌ (encode p (take 32 qs)) (encode (carry p (take 32 qs)) (drop 32 qs))
    cut p qs =
        sym (ap (encode p) (take-append-drop 32 qs)) ∙ encode-append p (take 32 qs) (drop 32 qs)

length-zip4 {ℓ} : {A : Type ℓ} (as' bs cs ds : List A) → length (zip4 as' bs cs ds) ≤ length as'
unfolding zip4
length-zip4 [] bs cs ds = omega arith
length-zip4 (a ∷ as') [] cs ds = omega arith
length-zip4 (a ∷ as') (b ∷ bs) [] ds = omega arith
length-zip4 (a ∷ as') (b ∷ bs) (c ∷ cs) [] = omega arith
length-zip4 (a ∷ as') (b ∷ bs) (c ∷ cs) (d ∷ ds) = omega (arith, length-zip4 as' bs cs ds)

-- An output with room for the pixels has room for all their blocks.
pub blocks_of-fit :
    (p : Quad ℕ) (ps aos : List Vec4u8) (r : Quad (List ℕ))
    → length ps % 32 ≡ 0
    → IsShort r
    → length ps ≤ length aos
    → let bs = blocks_of (zip_quad ◌++◌ (encode p ps) r) in
      take (length (exact_chunks 32 aos)) bs ≡ bs
blocks_of-fit p ps aos r d s h =
    let e = encode p ps in
    take-all _ _ (
      omega (
        arith,
        length-zip4 (exact_chunks 32 (e.q0 ++ r.q0)) (exact_chunks 32 (e.q1 ++ r.q1))
            (exact_chunks 32 (e.q2 ++ r.q2)) (exact_chunks 32 (e.q3 ++ r.q3)),
        length-exact_chunks 32 (omega arith) (e.q0 ++ r.q0),
        length-exact_chunks 32 (omega arith) aos,
        length-append e.q0 r.q0,
        (encode-HasLength p ps (length ps) refl).0,
      ))
