-- ===== src/Cstruct.antt =====
-- packages/mirage-platform/runtime/ocaml/cstruct_stubs.c: the place of an array in the buffer behind
-- its proxy, and the shift to the left that uncovers header space.
pub mod Shift
use mirage_kfreebsd.Base.{
  ℕ, suc, ◌+◌, ◌-◌, ◌%◌, Result, ok, ◌>>=◌, deref, Bool, true, false, not, ltb, ◌==◌, if◌then◌else◌,
  u64, get_or, set,
}
use mirage_kfreebsd.Base.Int.{ℤ, pos, negsuc, sub_ℕ, ltb_ℤ}
use mirage_kfreebsd.Values.{intnat, int63}
use mirage_kfreebsd.Bigarray.{BaArray, Store, num_dims}

-- `Int_val`: an OCaml integer cast to `int`, that is 32 bits with a sign.
unfoldable pub int_val : ℤ → ℤ
int_val (pos n) =
    let r = n % 4294967296 in if ltb r 2147483648 then pos r else negsuc (4294967295 - r)
int_val (negsuc n) =
    let r = n % 4294967296 in if ltb r 2147483648 then negsuc r else pos (4294967295 - r)

-- A 64-bit word plus, or minus, a signed number, with the wrap-around.
abbrev pub add_word : ℕ → ℤ → ℕ
add_word w (pos n) = u64 (w + n)
add_word w (negsuc n) = u64 (w + (18446744073709551615 - n))

abbrev pub sub_word : ℕ → ℤ → ℕ
sub_word w (pos n) = u64 (w + (18446744073709551616 - n))
sub_word w (negsuc n) = u64 (w + suc n)

-- The difference of two pointers, in an `off_t` of 64 bits.
abbrev pub distance : ℕ → ℕ → ℤ
distance a b = intnat (sub_ℕ a b)

-- `Val_int` keeps 63 bits.
unfoldable pub base_offset : BaArray → Store → Result ℤ
base_offset ba s =
    if ba.proxy == 0
    then ok (pos 0)
    else (do proxy ← deref (s.proxies ba.proxy); ok (int63 (distance ba.base proxy.base)))

-- The answer, and the array afterwards.
unfoldable pub shift_left : BaArray → ℤ → Store → Result (Bool × BaArray)
shift_left ba v_len s =
    if not (num_dims ba == 1) then ok (false, ba) else if ba.proxy == 0 then ok (false, ba) else (do
      proxy ← deref (s.proxies ba.proxy)
      let avail = distance ba.base proxy.base
      let len = int_val v_len
      if ltb_ℤ avail len
          then ok (false, ba)
          else ok (
            true,
            record ba {
              base = sub_word ba.base len;
              dim = set ba.dim 0 (add_word (get_or ba.dim 0 0) len);
            },
          ))
