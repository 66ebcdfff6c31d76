-- ===== src/Ints/Division.antt =====
-- Division of 64-bit integers.
use mirage_kfreebsd.Base.{◌^◌, ◌≡◌, ◌≢◌, ◌<◌, ◌≤◌, refl, ◌∙◌, ok, ◌&&◌, Bool-cases, inl, inr, arith}
use mirage_kfreebsd.Base.Int.{ℤ, pos, negsuc, pos_part, neg_part, eqb_ℤ}
use mirage_kfreebsd.Values.{intnat}
use mirage_kfreebsd.Ints.Ops.{div_ℤ, mod_ℤ, quot_ℤ, rem_ℤ}
use mirage_kfreebsd.Ints.Ops.Division.{IsDivision, usual, overflowing, eqb_ℤ-eq, nonzero}
use mirage_kfreebsd.Ints.Int64.{int64_div, int64_mod}
use mirage_kfreebsd.Ints.Nativeint.{nativeint_div, nativeint_mod}

intnat-fits : (a : ℤ) → pos_part a < 2 ^ 63 → neg_part a ≤ 2 ^ 63 → intnat a ≡ a
unfolding intnat
intnat-fits (pos n) p q = ground arith
intnat-fits (negsuc n) p q = ground arith

int64_div-int64_mod :
    (a b : ℤ)
    → pos_part a < 2 ^ 63
    → neg_part a ≤ 2 ^ 63
    → b ≢ pos 0
    → (q : ℤ) × (r : ℤ) × (int64_div a b ≡ ok q)
      × (int64_mod a b ≡ ok r)
      × IsDivision intnat a b q r
unfolding int64_div int64_mod intnat div_ℤ mod_ℤ
int64_div-int64_mod a b up down h =
    let other = nonzero b h in
    elim (Bool-cases (eqb_ℤ a (negsuc 0x7FFFFFFFFFFFFFFF) && eqb_ℤ b (negsuc 0))) [
      | inl both ↦
          let least : a ≡ negsuc 0x7FFFFFFFFFFFFFFF =
            eqb_ℤ-eq a (negsuc 0x7FFFFFFFFFFFFFFF) (ground arith) in
          let minus_one : b ≡ negsuc 0 = eqb_ℤ-eq b (negsuc 0) (ground arith) in
          rw (least, minus_one)
            (
              negsuc 0x7FFFFFFFFFFFFFFF,
              pos 0,
              refl,
              refl,
              overflowing intnat (negsuc 0x7FFFFFFFFFFFFFFF) refl,
            )
      | inr fits ↦ (
        quot_ℤ a b,
        rem_ℤ a b,
        rw (other, fits) refl,
        rw (other, fits) refl,
        usual intnat a b (intnat-fits a up down) h,
      )
    ]

same_division :
    (a b : ℤ) → (nativeint_div a b ≡ int64_div a b) × (nativeint_mod a b ≡ int64_mod a b)
unfolding int64_div int64_mod nativeint_div nativeint_mod
same_division a b = (refl, refl)

-- The same holds of `Int64` and of `Nativeint` in 64 bits: by another number than 0 both divisions return
-- the same quotient and both remainders the same remainder, smaller than the divisor and of the
-- dividend's sign, and they make up the dividend.
pub int64_div-nativeint_div :
    (a b : ℤ)
    → pos_part a < 2 ^ 63
    → neg_part a ≤ 2 ^ 63
    → b ≢ pos 0
    → (q : ℤ) × (r : ℤ) × (int64_div a b ≡ ok q)
      × (int64_mod a b ≡ ok r)
      × (nativeint_div a b ≡ ok q)
      × (nativeint_mod a b ≡ ok r)
      × IsDivision intnat a b q r
int64_div-nativeint_div a b up down h =
    let (q, r, div_run, mod_run, division) = int64_div-int64_mod a b up down h in
    let (same_div, same_mod) = same_division a b in
    (q, r, div_run, mod_run, same_div ∙ div_run, same_mod ∙ mod_run, division)
