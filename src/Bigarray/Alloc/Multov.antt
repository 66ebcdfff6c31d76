-- ===== src/Bigarray/Alloc/Multov.antt =====
-- The overflow test of `caml_ba_multov` and the size that `caml_ba_alloc` asks for.
use mirage_kfreebsd.Base.{
  ℕ, zero, suc, ◌+◌, ◌*◌, ◌/◌, ◌%◌, ◌<◌, ◌^◌, ◌≡◌, refl, List, [], ◌∷◌, Bool, true, false, ◌&&◌,
  ◌||◌, arith, leb, ◌==◌, u64, All, ap, ◌∙◌, sym, inl, inr, Bool-cases, some, ok, guard, ◌>>◌, not,
  out_of_memory,
}
use mathlib.Core.Path.{ap₂}
use native.Mathlib.Nat.{mul_assoc}
use mirage_kfreebsd.Bigarray.{
  Kind, sint8, uint8, sint16, uint16, int32, int64, caml_int, native_int, kind_of, element_size,
}
use mirage_kfreebsd.Bigarray.Alloc.{partial_overflow, multov, count_elts, total_size}

-- The product of two words in terms of their halves.
split_product :
    (ah al bh bl : ℕ)
    → (ah * 4294967296 + al) * (bh * 4294967296 + bl)
      ≡ ah * bh * 18446744073709551616 + (al * bh + ah * bl) * 4294967296 + al * bl
split_product ah al bh bl = omega arith

halves :
    (a b : ℕ)
    → a * b
      ≡ (a / 4294967296) * (b / 4294967296) * 18446744073709551616
        + ((a % 4294967296) * (b / 4294967296) + (a / 4294967296) * (b % 4294967296)) * 4294967296
        + (a % 4294967296) * (b % 4294967296)
halves a b =
    let ea : a ≡ a / 4294967296 * 4294967296 + a % 4294967296 = omega arith in
    let eb : b ≡ b / 4294967296 * 4294967296 + b % 4294967296 = omega arith in
    ap₂ ◌*◌ ea eb
    ∙ split_product (a / 4294967296) (a % 4294967296) (b / 4294967296) (b % 4294967296)

half_product : (x y : ℕ) → x < 4294967296 → y < 4294967296 → x * y < 18446744073709551616
half_product x y hx hy = grind arith

-- The tests on the partial products, when one of the two is 0.
overflow_left :
    (x z : ℕ)
    → x < 18446744073709551616
    → z < 18446744073709551616
    → partial_overflow x 0 (u64 (x * 4294967296 + z))
      ≡ leb 18446744073709551616 (x * 4294967296 + z)
unfolding partial_overflow
overflow_left x z hx hz = ground arith

overflow_right :
    (y z : ℕ)
    → y < 18446744073709551616
    → z < 18446744073709551616
    → partial_overflow 0 y (u64 (y * 4294967296 + z))
      ≡ leb 18446744073709551616 (y * 4294967296 + z)
unfolding partial_overflow
overflow_right y z hy hz = ground arith

-- The whole test on the halves of the factors.
halves_overflow : (ah al bh bl ab : ℕ) → Bool
halves_overflow ah al bh bl ab =
    (not (ah == 0) && not (bh == 0)) || partial_overflow (u64 (al * bh)) (u64 (ah * bl)) (u64 ab)

halves_exact :
    (ah al bh bl ab : ℕ)
    → ah < 4294967296
    → al < 4294967296
    → bh < 4294967296
    → bl < 4294967296
    → ab ≡ ah * bh * 18446744073709551616 + (al * bh + ah * bl) * 4294967296 + al * bl
    → halves_overflow ah al bh bl ab ≡ leb 18446744073709551616 ab
unfolding halves_overflow
halves_exact zero al bh bl ab h1 h2 h3 h4 e =
    let x = al * bh in
    let z = al * bl in
    let hx : x < 18446744073709551616 = half_product al bh h2 h3 in
    let hz : z < 18446744073709551616 = half_product al bl h2 h4 in
    let e' : ab ≡ x * 4294967296 + z = omega arith in
    let ux : u64 x ≡ x = omega arith in
    let uy : u64 (zero * bl) ≡ 0 = omega arith in rw (ux, uy, e') (overflow_left x z hx hz)
halves_exact (suc ah) al zero bl ab h1 h2 h3 h4 e =
    let y = suc ah * bl in
    let z = al * bl in
    let hy : y < 18446744073709551616 = half_product (suc ah) bl h1 h4 in
    let hz : z < 18446744073709551616 = half_product al bl h2 h4 in
    let e' : ab ≡ y * 4294967296 + z = omega arith in
    let uy : u64 y ≡ y = omega arith in
    let ux : u64 (al * zero) ≡ 0 = omega arith in
    let ne : (suc ah == 0) ≡ false = ground arith in rw (ne, ux, uy, e') (overflow_right y z hy hz)
halves_exact (suc ah) al (suc bh) bl ab h1 h2 h3 h4 e = ground arith

-- For all words: the product is the one modulo 2^64, and the flag is set exactly if it was set before
-- or the exact product does not fit 64 bits.
pub multov_exact :
    (a b : ℕ) (overflow : Bool)
    → a < 2 ^ 64
    → b < 2 ^ 64
    → multov a b overflow ≡ (a * b % 2 ^ 64, overflow || leb (2 ^ 64) (a * b))
unfolding multov halves_overflow
multov_exact a b overflow ha hb =
    ap (λ o. (a * b % 2 ^ 64, overflow || o))
      (halves_exact (a / 4294967296) (a % 4294967296) (b / 4294967296) (b % 4294967296) (a * b)
        (omega arith) (omega arith) (omega arith) (omega arith) (halves a b))

-- The exact number of elements.
abbrev pub product : List ℕ → ℕ
product [] = 1
product (d ∷ dim) = d * product dim

abbrev pub AreWords : List ℕ → Type 0
AreWords = All (λ d. d < 2 ^ 64)

count_elts_set : (dim : List ℕ) (n : ℕ) → (count_elts dim n true).1 ≡ true
unfolding count_elts multov
count_elts_set [] n = refl
count_elts_set (d ∷ dim) n = count_elts_set dim (u64 (n * d))

-- The loop of `caml_ba_alloc`: if no multiplication overflowed, the count is the exact product.
pub count_elts-product :
    (dim : List ℕ) (n : ℕ)
    → AreWords dim
    → n < 2 ^ 64
    → (count_elts dim n false).1 ≡ false
    → ((count_elts dim n false).0 ≡ n * product dim) × (n * product dim < 2 ^ 64)
count_elts-product [] n words small none_set = unfold count_elts in omega arith
count_elts-product (d ∷ dim) n words small none_set =
    let step : (count_elts (d ∷ dim) n false)
        ≡ count_elts dim (u64 (n * d)) (leb (2 ^ 64) (n * d)) =
      unfold count_elts in
      ap (λ (m : ℕ × Bool). count_elts dim m.0 m.1) (multov_exact n d false small words.0) in
    elim (Bool-cases (leb (2 ^ 64) (n * d))) [
      | inl big ↦
          let set : (count_elts (d ∷ dim) n false).1 ≡ true =
            ap (λ (m : ℕ × Bool). m.1) step ∙ rw big (count_elts_set dim (u64 (n * d))) in
          cc
      | inr fits ↦
          let lt : n * d < 2 ^ 64 = ground arith in
          let same : u64 (n * d) ≡ n * d = omega arith in
          let step' : count_elts (d ∷ dim) n false ≡ count_elts dim (n * d) false =
            step ∙ ap₂ (count_elts dim) same fits in
          let (value, small') =
            count_elts-product dim (n * d) words.1 lt
              (ap (λ (m : ℕ × Bool). m.1) (sym step') ∙ none_set) in
          (
            ap (λ (m : ℕ × Bool). m.0) step' ∙ value ∙ mul_assoc n d (product dim),
            rw (← mul_assoc n d (product dim)) small',
          )
    ]

element_size-lt : (k : Kind) → element_size k < 2 ^ 64
unfolding element_size
element_size-lt sint8 = omega arith
element_size-lt uint8 = omega arith
element_size-lt sint16 = omega arith
element_size-lt uint16 = omega arith
element_size-lt int32 = omega arith
element_size-lt int64 = omega arith
element_size-lt caml_int = omega arith
element_size-lt native_int = omega arith

count_elts-lt : (dim : List ℕ) (n : ℕ) (ov : Bool) → n < 2 ^ 64 → (count_elts dim n ov).0 < 2 ^ 64
unfolding count_elts multov
count_elts-lt [] n ov h = h
count_elts-lt (d ∷ dim) n ov h = count_elts-lt dim (u64 (n * d)) (multov n d ov).1 (omega arith)

module _ (flags : ℕ) (dim : List ℕ) (k : Kind) (words : AreWords dim)
    (kind : kind_of flags ≡ some k) where
  abbrev counted : ℕ
  counted = (count_elts dim 1 false).0

  abbrev overflowed : Bool
  overflowed = (count_elts dim 1 false).1

  total_size_value : total_size flags dim ≡ (
      guard (not (overflowed || leb (2 ^ 64) (counted * element_size k))) out_of_memory
      >> ok (counted * element_size k % 2 ^ 64))
  unfolding total_size
  total_size_value = rw (
    kind,
    multov_exact counted (element_size k) overflowed (count_elts-lt dim 1 false (omega arith))
        (element_size-lt k),
  )

  -- If `caml_ba_alloc` computes a size from dimensions that are words, for a known kind, it is the exact
  -- size of the array in bytes and fits a word: no array is given less memory than its dimensions span.
  pub total_size_exact :
      (size : ℕ)
      → total_size flags dim ≡ ok size
      → (size ≡ product dim * element_size k) × (product dim * element_size k < 2 ^ 64)
  total_size_exact size run = elim (Bool-cases overflowed) [
    | inl over ↦ absurd (ground (arith, over, sym total_size_value ∙ run))
    | inr fine ↦
        let (value, small) = count_elts-product dim 1 words (omega arith) fine in
        let e : counted ≡ product dim = omega (arith, value) in
        let run' = sym total_size_value ∙ run in
        ground (arith, fine, run', ap (λ n. n * element_size k) e)
  ]
