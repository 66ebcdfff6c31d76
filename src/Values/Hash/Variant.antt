-- ===== src/Values/Hash/Variant.antt =====
-- The hash of variant tags, against the function of the OCaml compiler that its comment names.
use mirage_kfreebsd.Base.{ℕ, ◌+◌, ◌*◌, ◌%◌, ◌^◌, ◌≡◌, List, [], ◌∷◌, arith, ltb, if◌then◌else◌, u32}
use mirage_kfreebsd.Base.Int.{pos, ◌-ℤ◌}
use mirage_kfreebsd.Values.Hash.{hash_variant_loop, hash_variant}

-- `accu := 223 * !accu + Char.code c`, on numbers without bound.
pub polynomial : List ℕ → ℕ → ℕ
polynomial [] accu = accu
polynomial (c ∷ tag) accu = polynomial tag (223 * accu + c)

loop-polynomial :
    (tag : List ℕ) (a b : ℕ)
    → a % 2 ^ 31 ≡ b % 2 ^ 31
    → hash_variant_loop tag a % 2 ^ 31 ≡ polynomial tag b % 2 ^ 31
unfolding hash_variant_loop polynomial
loop-polynomial [] a b h = h
loop-polynomial (c ∷ tag) a b h =
    loop-polynomial tag (u32 (223 * a + c)) (223 * b + c) (omega arith)

-- `caml_hash_variant` returns the polynomial in 223 of the tag's characters, reduced to 31 bits, less
-- 2^31 where it is above 0x3FFFFFFF: wrap-around in between changes nothing.
pub hash_variant-polynomial :
    (tag : List ℕ)
    → hash_variant tag ≡ (
        if ltb 0x3FFFFFFF (polynomial tag 0 % 2 ^ 31)
        then pos (polynomial tag 0 % 2 ^ 31) -ℤ pos (2 ^ 31)
        else pos (polynomial tag 0 % 2 ^ 31))
unfolding hash_variant
hash_variant-polynomial tag = ground (arith, loop-polynomial tag 0 0)
