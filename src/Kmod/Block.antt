-- ===== src/Kmod/Block.antt =====
-- The pause of `caml_block_kernel`.
use mirage_kfreebsd.Base.{ℕ, zero, suc, ◌-◌, ◌*◌, ◌/◌, ◌^◌, ◌≤◌, ◌<◌, ◌≡◌, refl, arith}
use mirage_kfreebsd.Base.Int.{pos, negsuc, pos_part, neg_ℕ, ◌*ℤ◌}
use mirage_kfreebsd.Kmod.{wrap32, block_ticks}

wrap32_small : (n : ℕ) → n < 2 ^ 31 → wrap32 (pos n) ≡ pos n
unfolding wrap32
wrap32_small n h = ground arith

wrap32_big : (n : ℕ) → 2 ^ 31 ≤ n → n < 2 ^ 32 → wrap32 (pos n) ≡ negsuc (2 ^ 32 - n - 1)
unfolding wrap32
wrap32_big n h k = ground arith

pos-mul : (a b : ℕ) → pos a *ℤ pos b ≡ pos (a * b)
pos-mul a b = ground arith

pos_part-neg_ℕ : (n : ℕ) → pos_part (neg_ℕ n) ≡ 0
pos_part-neg_ℕ zero = refl
pos_part-neg_ℕ (suc n) = refl

-- While timeout and product fit an `int`, the pause is the timeout in ticks, rounded down.
pub block_ticks_exact :
    (hz timeout : ℕ)
    → timeout < 2 ^ 31
    → timeout * hz < 2 ^ 31
    → block_ticks hz (pos timeout) ≡ pos (timeout * hz / 1000000)
unfolding block_ticks
block_ticks_exact hz timeout small fits =
    rw (wrap32_small timeout small, pos-mul, wrap32_small (timeout * hz) fits)

-- At a product from 2^31 up to 2^32 microsecond ticks the wrapped product is negative: the number of
-- ticks is not above 0, although at least 2147 are asked for.
pub block_ticks_wraps :
    (hz timeout : ℕ)
    → timeout < 2 ^ 31
    → 2 ^ 31 ≤ timeout * hz
    → timeout * hz < 2 ^ 32
    → (pos_part (block_ticks hz (pos timeout)) ≡ 0) × (2147 ≤ timeout * hz / 1000000)
unfolding block_ticks
block_ticks_wraps hz timeout small big fits =
    rw (wrap32_small timeout small, pos-mul, wrap32_big (timeout * hz) big fits)
      (pos_part-neg_ℕ _, omega arith)
