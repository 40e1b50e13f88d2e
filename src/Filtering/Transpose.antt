-- ===== src/Filtering/Transpose.antt =====
-- src/filtering.rs: the transposition in aos_to_soa_u8_32x4 and soa_to_aos_u8_32x4, as sequences of
-- shuffles and blends. Primes stand for the assignments to a variable.
use wprs.Base.{ℕ, ◌+◌, ◌*◌, ◌/◌, ◌%◌, ◌<◌, ◌≡◌, refl, List, [], ◌∷◌, ◌++◌, tabulate, tabulate-apply}
use wprs.Simd.{
  Lanes, set_epi8, shuffle_epi8, blend_epi32, shufps_epi32, castsi128_si256, inserti128_upper,
  extracti128_si256, set_m128i,
}
use wprs.Pixels.{Vec4u8, vec4u8}

pub record Registers : Type 0 where
  pub t0 : Lanes ℕ
  pub t1 : Lanes ℕ
  pub t2 : Lanes ℕ
  pub t3 : Lanes ℕ

abbrev twice : List ℕ → List ℕ
twice half = half ++ half

-- `chunk k` is the register loaded from `ik`; `upper` is what the casts leave undefined.
unfoldable pub to_channels : Lanes ℕ → (ℕ → Lanes ℕ) → Registers
to_channels upper chunk =
    let p0 =
      set_epi8 (twice (15 ∷ 11 ∷ 7 ∷ 3 ∷ 14 ∷ 10 ∷ 6 ∷ 2 ∷ 13 ∷ 9 ∷ 5 ∷ 1 ∷ 12 ∷ 8 ∷ 4 ∷ 0 ∷ [])) in
    let p1 =
      set_epi8 (twice (14 ∷ 10 ∷ 6 ∷ 2 ∷ 13 ∷ 9 ∷ 5 ∷ 1 ∷ 12 ∷ 8 ∷ 4 ∷ 0 ∷ 15 ∷ 11 ∷ 7 ∷ 3 ∷ [])) in
    let p2 =
      set_epi8 (twice (13 ∷ 9 ∷ 5 ∷ 1 ∷ 12 ∷ 8 ∷ 4 ∷ 0 ∷ 15 ∷ 11 ∷ 7 ∷ 3 ∷ 14 ∷ 10 ∷ 6 ∷ 2 ∷ [])) in
    let p3 =
      set_epi8 (twice (12 ∷ 8 ∷ 4 ∷ 0 ∷ 15 ∷ 11 ∷ 7 ∷ 3 ∷ 14 ∷ 10 ∷ 6 ∷ 2 ∷ 13 ∷ 9 ∷ 5 ∷ 1 ∷ [])) in
    let t0 = inserti128_upper (castsi128_si256 upper (chunk 0)) (chunk 4) in
    let t1 = inserti128_upper (castsi128_si256 upper (chunk 1)) (chunk 5) in
    let t2 = inserti128_upper (castsi128_si256 upper (chunk 2)) (chunk 6) in
    let t3 = inserti128_upper (castsi128_si256 upper (chunk 3)) (chunk 7) in
    let t0' = shuffle_epi8 t0 p0 in
    let t1' = shuffle_epi8 t1 p1 in
    let t2' = shuffle_epi8 t2 p2 in
    let t3' = shuffle_epi8 t3 p3 in
    let u0 = blend_epi32 t0' t1' 0b10101010 in
    let u1 = blend_epi32 t2' t3' 0b10101010 in
    let u2 = blend_epi32 t0' t1' 0b01010101 in
    let u3 = blend_epi32 t2' t3' 0b01010101 in
    record {
      t0 = blend_epi32 u0 u1 0b11001100;
      t1 = shufps_epi32 0b00111001 u2 u3;
      t2 = shufps_epi32 0b01001110 u0 u1;
      t3 = shufps_epi32 0b10010011 u2 u3;
    }

unfoldable pub from_channels : Registers → Registers
from_channels r =
    let p0 =
      set_epi8 (twice (7 ∷ 11 ∷ 15 ∷ 3 ∷ 6 ∷ 10 ∷ 14 ∷ 2 ∷ 5 ∷ 9 ∷ 13 ∷ 1 ∷ 4 ∷ 8 ∷ 12 ∷ 0 ∷ [])) in
    let p1 =
      set_epi8 (twice (3 ∷ 15 ∷ 11 ∷ 7 ∷ 2 ∷ 14 ∷ 10 ∷ 6 ∷ 1 ∷ 13 ∷ 9 ∷ 5 ∷ 0 ∷ 12 ∷ 8 ∷ 4 ∷ [])) in
    let p2 =
      set_epi8 (twice (15 ∷ 3 ∷ 7 ∷ 11 ∷ 14 ∷ 2 ∷ 6 ∷ 10 ∷ 13 ∷ 1 ∷ 5 ∷ 9 ∷ 12 ∷ 0 ∷ 4 ∷ 8 ∷ [])) in
    let p3 =
      set_epi8 (twice (11 ∷ 7 ∷ 3 ∷ 15 ∷ 10 ∷ 6 ∷ 2 ∷ 14 ∷ 9 ∷ 5 ∷ 1 ∷ 13 ∷ 8 ∷ 4 ∷ 0 ∷ 12 ∷ [])) in
    let u0 = shufps_epi32 0b01000100 r.t0 r.t2 in
    let u1 = shufps_epi32 0b11101110 r.t2 r.t0 in
    let u2 = shufps_epi32 0b00010001 r.t3 r.t1 in
    let u3 = shufps_epi32 0b10111011 r.t1 r.t3 in
    record {
      t0 = shuffle_epi8 (blend_epi32 u2 u0 0b01010101) p0;
      t1 = shuffle_epi8 (blend_epi32 u2 u0 0b10101010) p1;
      t2 = shuffle_epi8 (blend_epi32 u3 u1 0b01010101) p2;
      t3 = shuffle_epi8 (blend_epi32 u3 u1 0b10101010) p3;
    }

-- A store of 32 bytes into eight pixels.
unfoldable pub store_m256i_vec4u8 : Lanes ℕ → List Vec4u8
store_m256i_vec4u8 val =
    tabulate 8 (λ k. vec4u8 (val (4 * k)) (val (4 * k + 1)) (val (4 * k + 2)) (val (4 * k + 3)))

-- The four stores at the end of soa_to_aos_u8_32x4.
unfoldable pub store_channels : Registers → List Vec4u8
unfolding from_channels store_m256i_vec4u8
store_channels r =
    let t = from_channels r in
    store_m256i_vec4u8 (set_m128i (extracti128_si256 t.t1 0) (extracti128_si256 t.t0 0))
    ++ store_m256i_vec4u8 (set_m128i (extracti128_si256 t.t3 0) (extracti128_si256 t.t2 0))
    ++ store_m256i_vec4u8 (set_m128i (extracti128_si256 t.t1 1) (extracti128_si256 t.t0 1))
    ++ store_m256i_vec4u8 (set_m128i (extracti128_si256 t.t3 1) (extracti128_si256 t.t2 1))

module _ (upper : Lanes ℕ) (chunk : ℕ → Lanes ℕ) where
  -- Channel `c` holds byte `c` of each pixel, in order.
  pub to_channels-t0 : (i : ℕ) → i < 32 → (to_channels upper chunk).t0 i ≡ chunk (i / 4) (i % 4 * 4)
  unfolding to_channels tabulate
  to_channels-t0 =
      tabulate-apply 32 (to_channels upper chunk).t0 (λ i. chunk (i / 4) (i % 4 * 4)) refl

  pub to_channels-t1 :
      (i : ℕ) → i < 32 → (to_channels upper chunk).t1 i ≡ chunk (i / 4) (i % 4 * 4 + 1)
  unfolding to_channels tabulate
  to_channels-t1 =
      tabulate-apply 32 (to_channels upper chunk).t1 (λ i. chunk (i / 4) (i % 4 * 4 + 1)) refl

  pub to_channels-t2 :
      (i : ℕ) → i < 32 → (to_channels upper chunk).t2 i ≡ chunk (i / 4) (i % 4 * 4 + 2)
  unfolding to_channels tabulate
  to_channels-t2 =
      tabulate-apply 32 (to_channels upper chunk).t2 (λ i. chunk (i / 4) (i % 4 * 4 + 2)) refl

  pub to_channels-t3 :
      (i : ℕ) → i < 32 → (to_channels upper chunk).t3 i ≡ chunk (i / 4) (i % 4 * 4 + 3)
  unfolding to_channels tabulate
  to_channels-t3 =
      tabulate-apply 32 (to_channels upper chunk).t3 (λ i. chunk (i / 4) (i % 4 * 4 + 3)) refl

-- The shuffles and stores of `store_channels` write 32 pixels, of which pixel `i` holds lane `i`
-- of each of the four registers.
pub store_channels_lem :
    (r : Registers)
    → store_channels r ≡ tabulate 32 (λ i. vec4u8 (r.t0 i) (r.t1 i) (r.t2 i) (r.t3 i))
unfolding store_channels tabulate
store_channels_lem r = refl
