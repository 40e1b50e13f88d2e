-- ===== src/Utils/Chunks.antt =====
-- src/utils.rs: what n_chunks counts.
use wprs.Base.{ℕ, ◌+◌, ◌*◌, ◌/◌, ◌%◌, ltb, if◌then◌else◌, ◌≤◌, ◌<◌, ◌≡◌, some, arith}
use wprs.Utils.{n_chunks}

-- For a positive size, what `n_chunks` returns is the least number of chunks that hold `len`
-- items.
pub n_chunks-least :
    (len chunk_size n : ℕ)
    → 0 < chunk_size
    → n_chunks len chunk_size ≡ some n
    → (len ≤ n * chunk_size) × (n * chunk_size < len + chunk_size)
unfolding n_chunks
n_chunks-least len chunk_size n h e = (grind arith, grind arith)

-- For a positive size, `n_chunks` returns a number.
pub n_chunks-total :
    (len chunk_size : ℕ) → 0 < chunk_size → (n : ℕ) × (n_chunks len chunk_size ≡ some n)
unfolding n_chunks
n_chunks-total len chunk_size h =
    (if ltb 0 (len % chunk_size) then len / chunk_size + 1 else len / chunk_size, ground arith)
