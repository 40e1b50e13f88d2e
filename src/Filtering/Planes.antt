-- ===== src/Filtering/Planes.antt =====
-- What the filter of src/filtering.rs stands for, with no vectors and no blocks: the four planes of
-- a list of pixels, blue and red less green, each as differences of neighbours.
pub mod Encode
use wprs.Base.{
  ℕ, zero, suc, ◌+◌, ◌%◌, ◌<◌, ◌≡◌, refl, ap, ap₂, ◌∙◌, arith, List, [], ◌∷◌, ◌++◌, map, tabulate,
  get_or, length, All,
}
use wprs.Simd.{add_u8, sub_u8}
use wprs.Pixels.{Vec4u8, vec4u8}

-- Four of a kind: the tuples of the source.
pub record Quad {ℓ} (A : Type ℓ) : Type ℓ where
  pub q0 : A
  pub q1 : A
  pub q2 : A
  pub q3 : A

abbrev pub quad {ℓ} : {A : Type ℓ} → A → A → A → A → Quad A
quad a b c d = record { q0 = a; q1 = b; q2 = c; q3 = d }

pub quad_path {ℓ} :
    {A : Type ℓ} {p q : Quad A} → p.q0 ≡ q.q0 → p.q1 ≡ q.q1 → p.q2 ≡ q.q2 → p.q3 ≡ q.q3 → p ≡ q
quad_path a b c d = λ i. quad (a i) (b i) (c i) (d i)

-- `izip!` of four lists stops at the shortest.
unfoldable pub zip4 {ℓ} : {A : Type ℓ} → List A → List A → List A → List A → List (Quad A)
zip4 (a ∷ as') (b ∷ bs) (c ∷ cs) (d ∷ ds) = quad a b c d ∷ zip4 as' bs cs ds
zip4 _ _ _ _ = []

abbrev pub map_quad {ℓ κ} : {A : Type ℓ} {B : Type κ} → (A → B) → Quad A → Quad B
map_quad f q = quad (f q.q0) (f q.q1) (f q.q2) (f q.q3)

abbrev pub zip_quad {ℓ κ μ} :
    {A : Type ℓ} {B : Type κ} {C : Type μ} → (A → B → C) → Quad A → Quad B → Quad C
zip_quad f p q = quad (f p.q0 q.q0) (f p.q1 q.q1) (f p.q2 q.q2) (f p.q3 q.q3)

-- The planes that a pixel is spread over.
abbrev pub planes : Vec4u8 → Quad ℕ
planes p = quad (sub_u8 p.c0 p.c1) p.c1 (sub_u8 p.c2 p.c1) p.c3

abbrev pub planes_of : List Vec4u8 → Quad (List ℕ)
planes_of ps =
    quad (map (λ p. sub_u8 p.c0 p.c1) ps) (map (λ p. p.c1) ps) (map (λ p. sub_u8 p.c2 p.c1) ps)
      (map (λ p. p.c3) ps)

-- Each byte less the one before it, `prev` before the first.
unfoldable pub delta : ℕ → List ℕ → List ℕ
delta prev [] = []
delta prev (x ∷ xs) = sub_u8 x prev ∷ delta x xs

unfoldable pub undelta : ℕ → List ℕ → List ℕ
undelta prev [] = []
undelta prev (d ∷ ds) = add_u8 prev d ∷ undelta (add_u8 prev d) ds

unfoldable pub last_or {ℓ} : {A : Type ℓ} → A → List A → A
last_or prev [] = prev
last_or prev (x ∷ xs) = last_or x xs

abbrev pub join_pixel : ℕ → ℕ → ℕ → ℕ → Vec4u8
join_pixel a b c d = vec4u8 (add_u8 a b) b (add_u8 c b) d

unfoldable pub join_lists : List ℕ → List ℕ → List ℕ → List ℕ → List Vec4u8
join_lists (a ∷ as') (b ∷ bs) (c ∷ cs) (d ∷ ds) = join_pixel a b c d ∷ join_lists as' bs cs ds
join_lists _ _ _ _ = []

-- The pixels of the four planes.
abbrev pub join : Quad (List ℕ) → List Vec4u8
join q = join_lists q.q0 q.q1 q.q2 q.q3

abbrev pub IsBytes : List ℕ → Type 0
IsBytes = All (λ x. x < 256)

abbrev pub IsPixel : Vec4u8 → Type 0
IsPixel p = (p.c0 < 256) × (p.c1 < 256) × (p.c2 < 256) × (p.c3 < 256)

-- Lengths.
pub length-delta : (p : ℕ) (xs : List ℕ) → length (delta p xs) ≡ length xs
unfolding delta
length-delta p [] = refl
length-delta p (x ∷ xs) = ap suc (length-delta x xs)

pub length-undelta : (p : ℕ) (xs : List ℕ) → length (undelta p xs) ≡ length xs
unfolding undelta
length-undelta p [] = refl
length-undelta p (x ∷ xs) = ap suc (length-undelta (add_u8 p x) xs)

-- The pieces of a list are predicted one after the other.
pub delta-append :
    (p : ℕ) (xs ys : List ℕ) → delta p (xs ++ ys) ≡ delta p xs ++ delta (last_or p xs) ys
unfolding delta last_or
delta-append p [] ys = refl
delta-append p (x ∷ xs) ys = ap (λ r. sub_u8 x p ∷ r) (delta-append x xs ys)

pub undelta-append :
    (p : ℕ) (xs ys : List ℕ)
    → undelta p (xs ++ ys) ≡ undelta p xs ++ undelta (last_or p (undelta p xs)) ys
unfolding undelta last_or
undelta-append p [] ys = refl
undelta-append p (x ∷ xs) ys = ap (λ r. add_u8 p x ∷ r) (undelta-append (add_u8 p x) xs ys)

pub last_or-append {ℓ} :
    {A : Type ℓ} (p : A) (xs ys : List A) → last_or p (xs ++ ys) ≡ last_or (last_or p xs) ys
unfolding last_or
last_or-append p [] ys = refl
last_or-append p (x ∷ xs) ys = last_or-append x xs ys

pub last_or-lt : (p : ℕ) (xs : List ℕ) → p < 256 → IsBytes xs → last_or p xs < 256
unfolding last_or
last_or-lt p [] h b = h
last_or-lt p (x ∷ xs) h b = last_or-lt x xs b.0 b.1

-- Summing the differences gives the bytes back.
pub undelta-delta : (p : ℕ) (xs : List ℕ) → p < 256 → IsBytes xs → undelta p (delta p xs) ≡ xs
unfolding delta undelta
undelta-delta p [] h b = refl
undelta-delta p (x ∷ xs) h b =
    ap₂ (λ y r. y ∷ r) same (ap (λ y. undelta y (delta x xs)) same ∙ undelta-delta x xs b.0 b.1)
  where
    same : add_u8 p (sub_u8 x p) ≡ x
    same = omega arith

pub join-planes_of : (ps : List Vec4u8) → All IsPixel ps → join (planes_of ps) ≡ ps
unfolding join_lists
join-planes_of [] h = refl
join-planes_of (p ∷ ps) h = ap₂ (λ y r. y ∷ r) (same p h.0) (join-planes_of ps h.1)
  where
    same : (p : Vec4u8) → IsPixel p → join_pixel (sub_u8 p.c0 p.c1) p.c1 (sub_u8 p.c2 p.c1) p.c3 ≡ p
    same p h = ground arith
