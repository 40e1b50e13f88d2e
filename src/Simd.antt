-- ===== src/Simd.antt =====
-- The vector registers of x86-64 and the intrinsics of `std::arch::x86_64` that src/filtering.rs
-- uses, and the two wrappers at its top. A register is a function from the number of a byte lane,
-- lane 0 the lowest, to the lane's contents; `__m128i` has 16 lanes and `__m256i` has 32.
use wprs.Base.{
  ℕ, ◌+◌, ◌-◌, ◌*◌, ◌/◌, ◌%◌, ◌^◌, List, ltb, leb, ◌==◌, if◌then◌else◌, get_or, tabulate,
}

abbrev pub Lanes {ℓ} : Type ℓ → Type ℓ
Lanes A = ℕ → A

-- u8 addition and subtraction, which wrap; 256 is added first since `-` stops at 0.
abbrev pub add_u8 : ℕ → ℕ → ℕ
add_u8 a b = (a + b) % 256

abbrev pub sub_u8 : ℕ → ℕ → ℕ
sub_u8 a b = (a + 256 - b) % 256

-- _mm_add_epi8, _mm256_add_epi8
abbrev pub add_epi8 : Lanes ℕ → Lanes ℕ → Lanes ℕ
add_epi8 a b i = add_u8 (a i) (b i)

-- _mm256_sub_epi8
abbrev pub sub_epi8 : Lanes ℕ → Lanes ℕ → Lanes ℕ
sub_epi8 a b i = sub_u8 (a i) (b i)

-- _mm_set1_epi8, _mm_setzero_si128
abbrev pub set1_epi8 : ℕ → Lanes ℕ
set1_epi8 x i = x

-- _mm256_set_epi8 takes lane 31 first.
abbrev pub set_epi8 : List ℕ → Lanes ℕ
set_epi8 es i = get_or es (31 - i) 0

-- _mm256_slli_si256: each half moves up by `n` bytes, and zeros come in.
abbrev pub slli_si256 : Lanes ℕ → ℕ → Lanes ℕ
slli_si256 a n i = if ltb (i % 16) n then 0 else a (i - n)

-- _mm256_shuffle_epi8: each half is looked up by the low four bits of its half of the mask.
abbrev pub shuffle_epi8 : Lanes ℕ → Lanes ℕ → Lanes ℕ
shuffle_epi8 a p i = if leb 128 (p i) then 0 else a (i / 16 * 16 + p i % 16)

module _ {ℓ} {A : Type ℓ} where
  -- _mm256_blend_epi32: bit `j` of the mask takes the 32-bit lane `j` of `b`.
  abbrev pub blend_epi32 : Lanes A → Lanes A → ℕ → Lanes A
  blend_epi32 a b mask i = if mask / 2 ^ (i / 4) % 2 == 1 then b i else a i

  -- _mm256_shuffle_ps: in each half two 32-bit lanes of `a` and two of `b`, by two bits each.
  abbrev pub shufps_epi32 : ℕ → Lanes A → Lanes A → Lanes A
  shufps_epi32 mask a b i =
      let lane = i / 16 * 16 + mask / 4 ^ (i % 16 / 4) % 4 * 4 + i % 4 in
      if ltb (i % 16) 8 then a lane else b lane

  -- _mm256_castsi128_si256 leaves the upper half undefined: it is whatever `upper` holds.
  abbrev pub castsi128_si256 : Lanes A → Lanes A → Lanes A
  castsi128_si256 upper a i = if ltb i 16 then a i else upper i

  -- _mm256_inserti128_si256 with index 1
  abbrev pub inserti128_upper : Lanes A → Lanes A → Lanes A
  inserti128_upper a b i = if ltb i 16 then a i else b (i - 16)

  -- _mm256_extracti128_si256; with index 0 it is _mm256_castsi256_si128 too
  abbrev pub extracti128_si256 : Lanes A → ℕ → Lanes A
  extracti128_si256 a k i = a (16 * k + i)

  -- _mm256_set_m128i
  abbrev pub set_m128i : Lanes A → Lanes A → Lanes A
  set_m128i hi lo i = if ltb i 16 then lo i else hi (i - 16)

-- src/filtering.rs: load_m256i and store_m256i, between an array of 32 bytes and a register.
unfoldable pub load_m256i : List ℕ → Lanes ℕ
load_m256i src i = get_or src i 0

unfoldable pub store_m256i : Lanes ℕ → List ℕ
store_m256i val = tabulate 32 val
