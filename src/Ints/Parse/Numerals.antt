-- ===== src/Ints/Parse/Numerals.antt =====
-- What the letters of a number mean, in tables, and that the code reads them so.
use mirage_kfreebsd.Base.{
  ℕ, zero, suc, ◌-◌, ◌^◌, ◌%◌, ◌≡◌, ◌≤◌, ◌<◌, refl, ap, sym, ◌∙◌, List, [], ◌∷◌, Bool, true, false,
  Option, none, some, ltb, ◌==◌, ◌||◌, if◌then◌else◌, Bool-cases, inl, inr, All, arith, holds_below,
  holds_below-true,
}
use mirage_kfreebsd.Base.Int.{ℤ, pos, negsuc, pos_part, ltb_ℤ, leb_ℤ}
use mirage_kfreebsd.Values.{intnat}
use mirage_kfreebsd.Ints.Parse.{
  Start, base_prefix, parse_sign_and_base, parse_digit, digit_below, signed_result,
}

unfoldable pub find_key : ℕ → List (ℕ × ℕ) → Option ℕ
find_key c [] = none
find_key c (e ∷ table) = if c == e.0 then some e.1 else find_key c table

-- The sixteen digits, of which six have two letters.
abbrev pub digit_letters : List (ℕ × ℕ)
digit_letters =
    (48, 0)
    ∷ (49, 1)
    ∷ (50, 2)
    ∷ (51, 3)
    ∷ (52, 4)
    ∷ (53, 5)
    ∷ (54, 6)
    ∷ (55, 7)
    ∷ (56, 8)
    ∷ (57, 9)
    ∷ (b'a', 10)
    ∷ (b'b', 11)
    ∷ (b'c', 12)
    ∷ (b'd', 13)
    ∷ (b'e', 14)
    ∷ (b'f', 15)
    ∷ (b'A', 10)
    ∷ (b'B', 11)
    ∷ (b'C', 12)
    ∷ (b'D', 13)
    ∷ (b'E', 14)
    ∷ (b'F', 15)
    ∷ []

-- The letters that name a base, behind a 0.
abbrev pub base_letters : List (ℕ × ℕ)
base_letters = (b'x', 16) ∷ (b'X', 16) ∷ (b'o', 8) ∷ (b'O', 8) ∷ (b'b', 2) ∷ (b'B', 2) ∷ []

abbrev pub below : ℕ → Option ℕ → Option ℕ
below base none = none
below base (some d) = if ltb d base then some d else none

unfoldable pub digit_in : ℕ → ℕ → Option ℕ
digit_in base c = below base (find_key c digit_letters)

-- The digits of the code.
as_option : ℤ → Option ℕ
as_option (pos d) = some d
as_option (negsuc n) = none

same_option : Option ℕ → Option ℕ → Bool
same_option none none = true
same_option (some a) (some b) = a == b
same_option _ _ = false

same_option-eq : (a b : Option ℕ) → same_option a b ≡ true → a ≡ b
unfolding same_option
same_option-eq none none h = refl
same_option-eq none (some b) h = cc
same_option-eq (some a) none h = cc
same_option-eq (some a) (some b) h = ground arith

read_right : ℕ → Bool
read_right c = same_option (as_option (parse_digit c)) (find_key c digit_letters)

all_letters : holds_below read_right 103 ≡ true
unfolding holds_below read_right same_option as_option parse_digit find_key
all_letters = refl

find_key-none : (c : ℕ) (table : List (ℕ × ℕ)) → All (λ e. e.0 < c) table → find_key c table ≡ none
unfolding find_key
find_key-none c [] h = refl
find_key-none c (e ∷ table) h =
    let other : (c == e.0) ≡ false = ground (arith, h.0) in rw other (find_key-none c table h.1)

parse_digit_past : (c : ℕ) → 103 ≤ c → as_option (parse_digit c) ≡ none
unfolding as_option parse_digit
parse_digit_past c h = ground arith

past_letters : (c : ℕ) → 103 ≤ c → find_key c digit_letters ≡ none
past_letters c h = find_key-none c digit_letters (ground arith)

parse_digit-find_key : (c : ℕ) → as_option (parse_digit c) ≡ find_key c digit_letters
unfolding read_right
parse_digit-find_key c = elim (Bool-cases (ltb c 103)) [
  | inl letter ↦ same_option-eq _ _ (holds_below-true read_right 103 c (ground arith) all_letters)
  | inr past ↦
      let high : 103 ≤ c = ground arith in parse_digit_past c high ∙ sym (past_letters c high)
]

below_option :
    (base : ℕ) (d : ℤ)
    → (if ltb_ℤ d (pos 0) || leb_ℤ (pos base) d then none else some (pos_part d))
      ≡ below base (as_option d)
unfolding as_option
below_option base (pos d) = ground arith
below_option base (negsuc n) = ground arith

pub digit_below-digit_in : (base c : ℕ) → digit_below base c ≡ digit_in base c
unfolding digit_below digit_in
digit_below-digit_in base c =
    below_option base (parse_digit c) ∙ ap (below base) (parse_digit-find_key c)

-- The base and the digits behind the sign: ten, unless a 0 and a letter name another.
unfoldable pub read_base : Bool → List ℕ → Start
read_base negative (z ∷ c ∷ p) = elim (find_key c base_letters) [
  | none ↦ record { p = z ∷ c ∷ p; base = 10; negative = negative }
  | some b ↦
      if z == 48
      then record { p = p; base = b; negative = negative }
      else record { p = z ∷ c ∷ p; base = 10; negative = negative }
]
read_base negative p = record { p = p; base = 10; negative = negative }

unfoldable pub read_start : List ℕ → Start
read_start [] = read_base false []
read_start (c ∷ p) = if c == 45 then read_base true p else read_base false (c ∷ p)

base_prefix-read_base :
    (negative : Bool) (p : List ℕ) → base_prefix negative p ≡ read_base negative p
unfolding base_prefix read_base find_key
base_prefix-read_base negative [] = refl
base_prefix-read_base negative (z ∷ []) = refl
base_prefix-read_base negative (z ∷ c ∷ p) = ground arith

pub parse_sign_and_base-read_start : (s : List ℕ) → parse_sign_and_base s ≡ read_start s
unfolding parse_sign_and_base read_start
parse_sign_and_base-read_start [] = base_prefix-read_base false []
parse_sign_and_base-read_start (c ∷ p) =
    rw (base_prefix-read_base true p, base_prefix-read_base false (c ∷ p)) refl

-- The signed number whose pattern in 64 bits is `n`.
abbrev pub of_pattern : ℕ → ℤ
of_pattern n = if ltb n (2 ^ 63) then pos n else negsuc (2 ^ 64 - n - 1)

-- `n` as a pattern of 64 bits, or its two's complement.
unfoldable pub pattern_result : Bool → ℕ → ℤ
pattern_result false n = of_pattern n
pattern_result true n = of_pattern ((2 ^ 64 - n) % 2 ^ 64)

pub signed_result-pattern_result :
    (negative : Bool) (n : ℕ) → n < 2 ^ 64 → signed_result negative n ≡ pattern_result negative n
unfolding signed_result pattern_result intnat
signed_result-pattern_result false n h = ground arith
signed_result-pattern_result true zero h = refl
signed_result-pattern_result true (suc n) h = ground arith
