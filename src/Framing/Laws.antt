-- ===== src/Framing/Laws.antt =====
-- src/serialization/framing.rs: round trips, streams that end early, and refused values.
use wprs.Base.{
  ℕ, ◌+◌, ◌-◌, ◌%◌, ◌<◌, ◌≡◌, refl, ap, ◌∙◌, arith, Bool, true, false, Option, none, some, List, [],
  ◌∷◌, ◌++◌, take, length, length-append, take-append, drop-append, lt→ltb, ltb-false, append_assoc,
  ==-false, length-take, take-append_more, dec_lt,
}
use wprs.Framing.{
  Framed, read_exact, to_be_bytes, from_be_bytes, byte_of, framed_u8, framed_bool, framed_u32,
  framed_usize, framed_non_zero, framed_vec, framed_string,
}

-- Reading what was written for `x` gives `y` and leaves what follows on the stream.
abbrev pub ReadsAs {ℓ} : {A : Type ℓ} → Framed A → A → A → Type ℓ
ReadsAs f x y = (rest : List ℕ) → f.framed_read (f.framed_write x ++ rest) ≡ some (y, rest)

pub read_exact-append :
    (n : ℕ) (xs rest : List ℕ) → length xs ≡ n → read_exact n (xs ++ rest) ≡ some (xs, rest)
unfolding read_exact
read_exact-append n xs rest h = rw (
  ltb-false (length (xs ++ rest)) n (omega (arith, length-append xs rest)),
  take-append n xs rest h,
  drop-append n xs rest h,
)

pub read_exact-short : (n : ℕ) (stream : List ℕ) → length stream < n → read_exact n stream ≡ none
unfolding read_exact
read_exact-short n stream h = rw (lt→ltb (length stream) n h)

pub framed_u8-roundtrip : (x : ℕ) → ReadsAs framed_u8 x x
unfolding framed_u8 byte_of
framed_u8-roundtrip x rest = rw (read_exact-append 1 (x ∷ []) rest refl)

pub framed_bool-roundtrip : (b : Bool) → ReadsAs framed_bool b b
unfolding framed_bool
framed_bool-roundtrip true rest = rw (framed_u8-roundtrip 1 rest)
framed_bool-roundtrip false rest = rw (framed_u8-roundtrip 0 rest)

pub from_be_bytes-to_be_bytes : (x : ℕ) → x < 4294967296 → from_be_bytes (to_be_bytes x) ≡ x
unfolding from_be_bytes to_be_bytes
from_be_bytes-to_be_bytes x h = omega arith

pub length-to_be_bytes : (x : ℕ) → length (to_be_bytes x) ≡ 4
unfolding to_be_bytes
length-to_be_bytes x = refl

pub framed_u32-roundtrip : (x : ℕ) → x < 4294967296 → ReadsAs framed_u32 x x
unfolding framed_u32
framed_u32-roundtrip x h rest =
    rw (
      read_exact-append 4 (to_be_bytes x) rest (length-to_be_bytes x),
      from_be_bytes-to_be_bytes x h,
    )

-- A `usize` is read back reduced modulo 2^32, and what follows it is left on the stream.
pub framed_usize-truncates : (x : ℕ) → ReadsAs framed_usize x (x % 4294967296)
unfolding framed_usize
framed_usize-truncates x rest = framed_u32-roundtrip (x % 4294967296) (omega arith) rest

pub framed_usize-roundtrip : (x : ℕ) → x < 4294967296 → ReadsAs framed_usize x x
framed_usize-roundtrip x h rest =
    framed_usize-truncates x rest
    ∙ ap (λ y. some (y, rest)) (let e : x % 4294967296 ≡ x = omega arith in e)

-- A positive number below 2^32 is read back as it was written, and what follows it is left on the
-- stream.
pub framed_non_zero-roundtrip : (x : ℕ) → 0 < x → x < 4294967296 → ReadsAs framed_non_zero x x
unfolding framed_non_zero framed_usize
framed_non_zero-roundtrip x p h rest =
    rw (framed_usize-roundtrip x h rest, ==-false x 0 (omega arith))

-- What a peer wrote as a zero is refused.
pub framed_non_zero-zero :
    (rest : List ℕ)
    → Framed.framed_read framed_non_zero (Framed.framed_write framed_usize 0 ++ rest) ≡ none
unfolding framed_non_zero framed_usize
framed_non_zero-zero rest = rw (framed_usize-truncates 0 rest)

-- A vector shorter than 2^32 is read back as it was written, and what follows it is left on the
-- stream.
pub framed_vec-roundtrip : (xs : List ℕ) → length xs < 4294967296 → ReadsAs framed_vec xs xs
unfolding framed_vec framed_usize framed_u32
framed_vec-roundtrip xs h rest =
    rw
      (
        append_assoc (to_be_bytes (length xs % 4294967296)) xs rest,
        framed_usize-roundtrip (length xs) h (xs ++ rest),
      )
      (read_exact-append (length xs) xs rest refl)

-- The first four bytes are the length; fewer are an error.
framed_u32-short :
    (stream : List ℕ) → length stream < 4 → Framed.framed_read framed_u32 stream ≡ none
unfolding framed_u32
framed_u32-short stream h = rw (read_exact-short 4 stream h)

framed_vec-short :
    (stream : List ℕ) → length stream < 4 → Framed.framed_read framed_vec stream ≡ none
unfolding framed_vec
framed_vec-short stream h = rw (framed_u32-short stream h)

framed_vec-missing :
    (n : ℕ) (xs : List ℕ)
    → n < 4294967296
    → length xs < n
    → Framed.framed_read framed_vec (Framed.framed_write framed_usize n ++ xs) ≡ none
unfolding framed_vec framed_usize
framed_vec-missing n xs h l = rw (framed_usize-roundtrip n h xs) (read_exact-short n xs l)

framed_vec-write :
    (xs : List ℕ)
    → Framed.framed_write framed_vec xs ≡ Framed.framed_write framed_usize (length xs) ++ xs
unfolding framed_vec
framed_vec-write xs = refl

length-framed_usize : (n : ℕ) → length (Framed.framed_write framed_usize n) ≡ 4
unfolding framed_usize framed_u32
length-framed_usize n = length-to_be_bytes (n % 4294967296)

-- Reading a vector shorter than 2^32 from a stream that ends before all that was written for it
-- is an error.
pub framed_vec-cut :
    (xs : List ℕ) (n : ℕ)
    → length xs < 4294967296
    → n < 4 + length xs
    → Framed.framed_read framed_vec (take n (Framed.framed_write framed_vec xs)) ≡ none
framed_vec-cut xs n h l =
    ap (λ w. Framed.framed_read framed_vec (take n w)) (framed_vec-write xs) ∙ elim (dec_lt n 4) [
      | yes short ↦
          framed_vec-short _
            (omega (arith, length-take n (Framed.framed_write framed_usize (length xs) ++ xs)))
      | no long ↦
          ap (Framed.framed_read framed_vec) (
            take-append_more n (n - 4) (Framed.framed_write framed_usize (length xs)) xs
              (omega (arith, length-framed_usize (length xs))))
          ∙ framed_vec-missing (length xs) (take (n - 4) xs) h
              (omega (arith, length-take (n - 4) xs))
    ]

-- A string whose encoding is shorter than 2^32 bytes is read back as it was written, when the
-- decoder undoes the encoder.
pub framed_string-roundtrip {ℓ} :
    {S : Type ℓ} (as_bytes : S → List ℕ) (from_utf8 : List ℕ → Option S)
    → ((s : S) → from_utf8 (as_bytes s) ≡ some s)
    → (s : S) → length (as_bytes s) < 4294967296
    → ReadsAs (framed_string as_bytes from_utf8) s s
unfolding framed_string framed_vec
framed_string-roundtrip as_bytes from_utf8 law s h rest =
    rw (framed_vec-roundtrip (as_bytes s) h rest, law s)
