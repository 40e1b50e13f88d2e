-- ===== src/Filtering/Planes/Encode.antt =====
-- The planes that src/filtering.rs makes, as differences, and how the pieces of a list fit together.
use mathlib.Core.List.{map-append}
use wprs.Base.{ℕ, ◌<◌, ◌≡◌, ap, ◌∙◌, arith, List, [], ◌∷◌, ◌++◌, map, All}
use wprs.Pixels.{Vec4u8}
use wprs.Filtering.Planes.{
  Quad, quad_path, zip_quad, planes_of, delta, last_or, delta-append, last_or-append, last_or-lt,
  IsPixel, IsBytes,
}

abbrev pub encode : Quad ℕ → List Vec4u8 → Quad (List ℕ)
encode prev ps = zip_quad delta prev (planes_of ps)

-- The last byte of each plane.
abbrev pub carry : Quad ℕ → List Vec4u8 → Quad ℕ
carry prev ps = zip_quad last_or prev (planes_of ps)

abbrev pub IsByteQuad : Quad ℕ → Type 0
IsByteQuad q = (q.q0 < 256) × (q.q1 < 256) × (q.q2 < 256) × (q.q3 < 256)

delta-map-append :
    (g : Vec4u8 → ℕ) (p : ℕ) (xs ys : List Vec4u8)
    → delta p (map g (xs ++ ys)) ≡ delta p (map g xs) ++ delta (last_or p (map g xs)) (map g ys)
delta-map-append g p xs ys =
    ap (delta p) (map-append g xs ys) ∙ delta-append p (map g xs) (map g ys)

last_or-map-append :
    (g : Vec4u8 → ℕ) (p : ℕ) (xs ys : List Vec4u8)
    → last_or p (map g (xs ++ ys)) ≡ last_or (last_or p (map g xs)) (map g ys)
last_or-map-append g p xs ys =
    ap (last_or p) (map-append g xs ys) ∙ last_or-append p (map g xs) (map g ys)

pub encode-append :
    (prev : Quad ℕ) (xs ys : List Vec4u8)
    → encode prev (xs ++ ys) ≡ zip_quad ◌++◌ (encode prev xs) (encode (carry prev xs) ys)
encode-append prev xs ys =
    quad_path (delta-map-append _ prev.q0 xs ys) (delta-map-append _ prev.q1 xs ys)
      (delta-map-append _ prev.q2 xs ys) (delta-map-append _ prev.q3 xs ys)

pub carry-append :
    (prev : Quad ℕ) (xs ys : List Vec4u8) → carry prev (xs ++ ys) ≡ carry (carry prev xs) ys
carry-append prev xs ys =
    quad_path (last_or-map-append _ prev.q0 xs ys) (last_or-map-append _ prev.q1 xs ys)
      (last_or-map-append _ prev.q2 xs ys) (last_or-map-append _ prev.q3 xs ys)

pub IsBytes-map :
    (g : Vec4u8 → ℕ) (ps : List Vec4u8)
    → ((p : Vec4u8) → IsPixel p → g p < 256)
    → All IsPixel ps
    → IsBytes (map g ps)
IsBytes-map g [] h a = tt
IsBytes-map g (p ∷ ps) h a = (h p a.0, IsBytes-map g ps h a.1)

pub carry-IsByteQuad :
    (prev : Quad ℕ) (ps : List Vec4u8)
    → IsByteQuad prev
    → All IsPixel ps
    → IsByteQuad (carry prev ps)
carry-IsByteQuad prev ps b a = (
  last_or-lt prev.q0 _ b.0 (IsBytes-map _ ps (λ p h. omega arith) a),
  last_or-lt prev.q1 _ b.1 (IsBytes-map _ ps (λ p h. h.1) a),
  last_or-lt prev.q2 _ b.2 (IsBytes-map _ ps (λ p h. omega arith) a),
  last_or-lt prev.q3 _ b.3 (IsBytes-map _ ps (λ p h. h.3) a),
)
