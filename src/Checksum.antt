-- ===== src/Checksum.antt =====
-- packages/mirage-platform/runtime/kernel/checksum_stubs.c: the Internet checksum of one buffer and
-- of a list of buffers.
pub mod Fold
pub mod Sum
pub mod Laws
use mirage_kfreebsd.Base.{
  ℕ, zero, suc, ◌+◌, ◌-◌, ◌*◌, ◌/◌, ◌%◌, List, [], ◌∷◌, Result, ok, fault, out_of_fuel, ◌>>=◌, u16,
  u32, u64, ltb, if◌then◌else◌,
}

-- The bytes that `addr` points to, and how many of them the caller asks for.
pub record Buffer : Type 0 where
  pub bytes : List ℕ
  pub dim : ℕ

-- `while (count > 1) ...; if (count > 0) ...`. The list holds what is left at `addr`, and a read
-- behind its end is a fault.
unfoldable pub sum_words : List ℕ → ℕ → ℕ → Result ℕ
sum_words buf zero sum = ok sum
sum_words (b ∷ buf) (suc zero) sum = ok (u32 (sum + b * 256))
sum_words (hi ∷ lo ∷ buf) (suc (suc count)) sum =
    sum_words buf count (u32 (sum + u16 (hi * 256 + lo)))
sum_words _ _ _ = fault

-- `while (sum >> 16) sum = (sum & 0xffff) + (sum >> 16)`, with a bound on the rounds.
unfoldable pub fold_carries : ℕ → ℕ → Result ℕ
fold_carries zero sum = out_of_fuel
fold_carries (suc n) sum =
    let rest = fold_carries n (u32 (sum % 65536 + sum / 65536)) in
    if ltb 0 (sum / 65536) then rest else ok sum

-- A 32-bit sum takes at most two rounds, and a third test ends the loop.
unfoldable pub checksum_bigarray : List ℕ → ℕ → ℕ → Result ℕ
checksum_bigarray addr count sum = do sum' ← sum_words addr count sum; fold_carries 3 sum'

-- `checksum = ~sum`, as `uint16_t`.
abbrev pub complement : ℕ → ℕ
complement sum = 65535 - u16 sum

-- `v_len` is an `int`: its bit pattern is sign-extended to `size_t` by the caller.
unfoldable pub ones_complement_checksum : List ℕ → ℕ → Result ℕ
ones_complement_checksum v_ba v_len = do
  sum ← checksum_bigarray v_ba (u64 v_len) 0
  ok (complement sum)

unfoldable pub sum_list : List Buffer → ℕ → Result ℕ
sum_list [] sum = ok sum
sum_list (a ∷ v_bal) sum = do sum' ← checksum_bigarray a.bytes a.dim sum; sum_list v_bal sum'

unfoldable pub ones_complement_checksum_list : List Buffer → Result ℕ
ones_complement_checksum_list v_bal = do sum ← sum_list v_bal 0; ok (complement sum)
