-- ===== src/Ints/Ops/Division.antt =====
-- Division and remainder.
use mirage_kfreebsd.Base.{
  ℕ, zero, suc, ◌+◌, ◌*◌, ◌/◌, ◌%◌, ◌^◌, ◌≡◌, ◌≢◌, ◌<◌, ◌≤◌, refl, ap, ◌∙◌, ◌&&◌, ok, true, false,
  arith, Bool-cases, inl, inr,
}
use mirage_kfreebsd.Base.Int.{ℤ, pos, negsuc, pos_part, neg_part, neg_ℕ, ◌+ℤ◌, ◌-ℤ◌, ◌*ℤ◌, eqb_ℤ}
use mirage_kfreebsd.Values.{int_of}
use mirage_kfreebsd.Ints.Ops.{quot_ℤ, rem_ℤ, div_ℤ, mod_ℤ, int32_div, int32_mod}

unfoldable pub magnitude : ℤ → ℕ
magnitude a = pos_part a + neg_part a

euclid_pos : (n m : ℕ) → 0 < m → n / m * m + n % m ≡ n
euclid_pos n m some_m = grind arith

-- What dividing by another number than 0 is to give: a remainder that is smaller than the divisor and has
-- the dividend's sign, and a quotient with which it makes up the dividend.
pub record IsDivision (wrap : ℤ → ℤ) (dividend divisor quotient remainder : ℤ) : Type 0 where
  pub makes_up : wrap (quotient *ℤ divisor +ℤ remainder) ≡ dividend
  pub smaller : magnitude remainder < magnitude divisor
  pub same_sign :
      (pos_part remainder ≤ pos_part dividend) × (neg_part remainder ≤ neg_part dividend)

pos-pos : (q m r n : ℕ) → q * m + r ≡ n → pos q *ℤ pos m +ℤ pos r ≡ pos n
pos-pos q m r n e = ground arith

pos-neg : (q m r n : ℕ) → q * suc m + r ≡ n → (pos 0 -ℤ pos q) *ℤ negsuc m +ℤ pos r ≡ pos n
pos-neg zero m r n e = ground arith
pos-neg (suc q) m r n e = ground arith

neg-pos : (q m r n : ℕ) → q * m + r ≡ suc n → neg_ℕ q *ℤ pos m +ℤ neg_ℕ r ≡ negsuc n
neg-pos zero m zero n e = ground arith
neg-pos zero m (suc r) n e = ground arith
neg-pos (suc q) m zero n e = ground arith
neg-pos (suc q) m (suc r) n e = ground arith

neg-neg :
    (q m r n : ℕ) → q * suc m + r ≡ suc n → (pos 0 -ℤ neg_ℕ q) *ℤ negsuc m +ℤ neg_ℕ r ≡ negsuc n
neg-neg zero m zero n e = ground arith
neg-neg zero m (suc r) n e = ground arith
neg-neg (suc q) m zero n e = ground arith
neg-neg (suc q) m (suc r) n e = ground arith

neg_ℕ-parts : (k : ℕ) → (pos_part (neg_ℕ k) ≡ 0) × (neg_part (neg_ℕ k) ≡ k)
neg_ℕ-parts zero = (refl, refl)
neg_ℕ-parts (suc k) = (refl, refl)

exact : (a b : ℤ) → b ≢ pos 0 → quot_ℤ a b *ℤ b +ℤ rem_ℤ a b ≡ a
unfolding quot_ℤ rem_ℤ
exact (pos n) (pos zero) h = absurd (h refl)
exact (pos n) (pos (suc m)) h = pos-pos (n / suc m) (suc m) _ n (grind arith)
exact (pos n) (negsuc m) h = pos-neg (n / suc m) m _ n (grind arith)
exact (negsuc n) (pos zero) h = absurd (h refl)
exact (negsuc n) (pos (suc m)) h = neg-pos (suc n / suc m) (suc m) _ n (grind arith)
exact (negsuc n) (negsuc m) h = neg-neg (suc n / suc m) m _ n (grind arith)

remainder_lem :
    (a b : ℤ)
    → b ≢ pos 0
    → (magnitude (rem_ℤ a b) < magnitude b)
      × (pos_part (rem_ℤ a b) ≤ pos_part a)
      × (neg_part (rem_ℤ a b) ≤ neg_part a)
unfolding rem_ℤ magnitude
remainder_lem (pos n) (pos zero) h = absurd (h refl)
remainder_lem (pos n) (pos (suc m)) h = grind arith
remainder_lem (pos n) (negsuc m) h = grind arith
remainder_lem (negsuc n) (pos zero) h = absurd (h refl)
remainder_lem (negsuc n) (pos (suc m)) h =
    let (none_up, all_down) = neg_ℕ-parts (suc n % (suc m + 0)) in grind arith
remainder_lem (negsuc n) (negsuc m) h =
    let (none_up, all_down) = neg_ℕ-parts (suc n % (0 + suc m)) in grind arith

pub eqb_ℤ-eq : (a b : ℤ) → eqb_ℤ a b ≡ true → a ≡ b
eqb_ℤ-eq a b e = ground arith

pub nonzero : (b : ℤ) → b ≢ pos 0 → eqb_ℤ b (pos 0) ≡ false
nonzero b h = elim (Bool-cases (eqb_ℤ b (pos 0))) [
  | inl zero_b ↦ absurd (h (eqb_ℤ-eq b (pos 0) zero_b))
  | inr other ↦ other
]

-- The usual case, and the one whose quotient does not fit.
pub usual :
    (wrap : ℤ → ℤ) (a b : ℤ) → wrap a ≡ a → b ≢ pos 0 → IsDivision wrap a b (quot_ℤ a b) (rem_ℤ a b)
usual wrap a b fits h =
    let (smaller, up, down) = remainder_lem a b h in
    record { makes_up = ap wrap (exact a b h) ∙ fits; smaller = smaller; same_sign = (up, down) }

pub overflowing :
    (wrap : ℤ → ℤ) (least : ℤ)
    → wrap (least *ℤ negsuc 0 +ℤ pos 0) ≡ least
    → IsDivision wrap least (negsuc 0) least (pos 0)
unfolding magnitude
overflowing wrap least wraps = record {
  makes_up = wraps;
  smaller = omega arith;
  same_sign = omega arith;
}

pub int_of-fits : (a : ℤ) → pos_part a < 2 ^ 31 → neg_part a ≤ 2 ^ 31 → int_of a ≡ a
unfolding int_of
int_of-fits (pos n) p q = ground arith
int_of-fits (negsuc n) p q = ground arith

minus_pos : (k : ℕ) → (pos_part (pos 0 -ℤ pos k) ≡ 0) × (neg_part (pos 0 -ℤ pos k) ≡ k)
minus_pos zero = (refl, refl)
minus_pos (suc k) = ground arith

minus_neg : (k : ℕ) → (pos_part (pos 0 -ℤ neg_ℕ k) ≡ k) × (neg_part (pos 0 -ℤ neg_ℕ k) ≡ 0)
minus_neg zero = (refl, refl)
minus_neg (suc k) = ground arith

div_le : (n m : ℕ) → n / suc m ≤ n
div_le n m = grind arith

div_less : (n m : ℕ) → suc n / suc (suc m) < suc n
div_less n m = grind arith

not_least : (half n : ℕ) → eqb_ℤ (negsuc n) (neg_ℕ half) ≡ false → suc n ≢ half
not_least zero n e = ground arith
not_least (suc half) n e = ground arith

-- A quotient has the bits of the type, but for that of the least number by -1.
pub quot_ℤ-fits :
    (half : ℕ) (a b : ℤ)
    → pos_part a < half
    → neg_part a ≤ half
    → b ≢ pos 0
    → (eqb_ℤ a (neg_ℕ half) && eqb_ℤ b (negsuc 0)) ≡ false
    → (pos_part (quot_ℤ a b) < half) × (neg_part (quot_ℤ a b) ≤ half)
unfolding quot_ℤ
quot_ℤ-fits half (pos n) (pos zero) up down h one = absurd (h refl)
quot_ℤ-fits half (pos n) (pos (suc m)) up down h one = grind arith
quot_ℤ-fits half (pos n) (negsuc m) up down h one =
    let (up0, all) = minus_pos (n / suc m) in let le = div_le n m in omega arith
quot_ℤ-fits half (negsuc n) (pos zero) up down h one = absurd (h refl)
quot_ℤ-fits half (negsuc n) (pos (suc m)) up down h one =
    let (up0, all) = neg_ℕ-parts (suc n / suc m) in let le = div_le (suc n) m in omega arith
quot_ℤ-fits half (negsuc n) (negsuc zero) up down h one =
    let (all, down0) = minus_neg (suc n / 1) in
    let le = div_le (suc n) 0 in let other = not_least half n (ground arith) in omega arith
quot_ℤ-fits half (negsuc n) (negsuc (suc m)) up down h one =
    let (all, down0) = minus_neg (suc n / suc (suc m)) in let less = div_less n m in omega arith

-- `Int32.div` and `Int32.rem` of 32-bit numbers, by another number than 0, both return, also for the least
-- number divided by -1: the quotient has 32 bits, the remainder is smaller than the divisor and has the
-- dividend's sign, and quotient times divisor plus remainder is the dividend in 32 bits.
pub int32_div-int32_mod :
    (a b : ℤ)
    → pos_part a < 2 ^ 31
    → neg_part a ≤ 2 ^ 31
    → b ≢ pos 0
    → (q : ℤ) × (r : ℤ) × (int32_div a b ≡ ok q)
      × (int32_mod a b ≡ ok r)
      × (pos_part q < 2 ^ 31)
      × (neg_part q ≤ 2 ^ 31)
      × IsDivision int_of a b q r
unfolding int32_div int32_mod int_of div_ℤ mod_ℤ
int32_div-int32_mod a b up down h =
    let other = nonzero b h in
    elim (Bool-cases (eqb_ℤ a (negsuc 0x7FFFFFFF) && eqb_ℤ b (negsuc 0))) [
      | inl both ↦
          let least : a ≡ negsuc 0x7FFFFFFF = eqb_ℤ-eq a (negsuc 0x7FFFFFFF) (ground arith) in
          let minus_one : b ≡ negsuc 0 = eqb_ℤ-eq b (negsuc 0) (ground arith) in
          rw (least, minus_one)
            (
              negsuc 0x7FFFFFFF,
              pos 0,
              refl,
              refl,
              omega arith,
              omega arith,
              overflowing int_of (negsuc 0x7FFFFFFF) refl,
            )
      | inr fits ↦
          let (q_up, q_down) = quot_ℤ-fits (2 ^ 31) a b up down h fits in
          (
            quot_ℤ a b,
            rem_ℤ a b,
            rw (other, fits) refl,
            rw (other, fits) refl,
            q_up,
            q_down,
            usual int_of a b (int_of-fits a up down) h,
          )
    ]
