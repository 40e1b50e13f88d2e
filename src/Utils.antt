-- ===== src/Utils.antt =====
-- src/utils.rs: the chunk count and the compile-time assertions that other files use.
pub mod Chunks
use wprs.Base.{ℕ, ◌+◌, ◌*◌, ◌/◌, ◌%◌, Bool, Option, none, some, not, ltb, ◌==◌, if◌then◌else◌}

-- `none` is the panic of the assertion.
unfoldable pub n_chunks : ℕ → ℕ → Option ℕ
n_chunks len chunk_size =
    if chunk_size == 0
    then none
    else if len == 0
    then some 0
    else (let n = len / chunk_size in
        let rem = len % chunk_size in if ltb 0 rem then some (n + 1) else some n)

-- AssertN: NE_0 and MULTIPLE_OF_32
abbrev pub assert_ne_0 : ℕ → Bool
assert_ne_0 n = not (n == 0)

abbrev pub assert_multiple_of_32 : ℕ → Bool
assert_multiple_of_32 n = n % 32 == 0

-- AssertN3::N1_X_N2_EQ_N3
abbrev pub assert_n1_x_n2_eq_n3 : ℕ → ℕ → ℕ → Bool
assert_n1_x_n2_eq_n3 n1 n2 n3 = n1 * n2 == n3
