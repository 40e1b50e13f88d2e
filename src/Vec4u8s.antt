-- ===== src/Vec4u8s.antt =====
-- src/vec4u8.rs: Vec4u8s, four planes of equal length one after the other in one `Vec<u8>`. `none`
-- is a panic. The methods that end in `_mut` look at the same bytes as those here.
use wprs.Base.{
  ℕ, ◌*◌, ◌-◌, ◌/◌, ◌%◌, Bool, Option, some, List, [], ◌++◌, take, drop, replicate, length, leb,
  ◌==◌, if◌then◌else◌, guard, ◌>>◌,
}
use wprs.Base.Chunks.{slice_chunks, exact_chunks}
use wprs.Filtering.Planes.{Quad, quad, zip4}

pub record Vec4u8s : Type 0 where
  pub bytes : List ℕ

unfoldable pub new : Vec4u8s
new = record { bytes = [] }

unfoldable pub with_total_size : ℕ → Option Vec4u8s
with_total_size n = do guard (n % 4 == 0); some (record { bytes = replicate n 0 })

unfoldable pub len : Vec4u8s → ℕ
len v = length v.bytes / 4

unfoldable pub is_empty : Vec4u8s → Bool
unfolding len
is_empty v = len v == 0

-- Vec::resize cuts off, or adds zeros.
unfoldable pub resize : Vec4u8s → ℕ → Vec4u8s
resize v new_len = record {
  bytes =
      if leb (new_len * 4) (length v.bytes)
      then take (new_len * 4) v.bytes
      else v.bytes ++ replicate (new_len * 4 - length v.bytes) 0;
}

-- Three calls of `split_at`, which is in range.
unfoldable pub parts : Vec4u8s → Quad (List ℕ)
unfolding len
parts v =
    let n = len v in
    let part0 = take n v.bytes in
    let rest0 = drop n v.bytes in
    let part1 = take n rest0 in
    let rest1 = drop n rest0 in quad part0 part1 (take n rest1) (drop n rest1)

-- From<Vec<u8>>
unfoldable pub from_bytes : List ℕ → Option Vec4u8s
from_bytes bytes = do guard (length bytes % 4 == 0); some (record { bytes = bytes })

unfoldable pub iter : Vec4u8s → List (Quad ℕ)
unfolding parts
iter v = let p = parts v in zip4 p.q0 p.q1 p.q2 p.q3

unfoldable pub chunks : Vec4u8s → ℕ → List (Quad (List ℕ))
unfolding parts
chunks v n =
    let p = parts v in
    zip4 (slice_chunks n p.q0) (slice_chunks n p.q1) (slice_chunks n p.q2) (slice_chunks n p.q3)

unfoldable pub chunks_exact : Vec4u8s → ℕ → List (Quad (List ℕ))
unfolding parts
chunks_exact v n =
    let p = parts v in
    zip4 (exact_chunks n p.q0) (exact_chunks n p.q1) (exact_chunks n p.q2) (exact_chunks n p.q3)
