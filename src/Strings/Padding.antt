-- ===== src/Strings/Padding.antt =====
-- The layout of strings.
use mirage_kfreebsd.Base.{
  ℕ, zero, suc, ◌+◌, ◌-◌, ◌*◌, ◌/◌, ◌%◌, ◌^◌, ◌<◌, ◌≡◌, refl, ap, sym, ◌∙◌, List, [], ◌∷◌, ◌++◌, ok,
  some, length, get_elem?, replicate, arith, length-append, length-replicate,
}
use mathlib.Core.List.{append_assoc}
use mirage_kfreebsd.Strings.{fresh, alloc_string, string_length}

-- The block holds these contents.
pub record Holds (s contents : List ℕ) : Type 0 where
  pub padding : ℕ
  pub small : padding < 8
  pub whole : (length contents + padding + 1) % 8 ≡ 0
  pub layout : s ≡ contents ++ replicate padding 0 ++ padding ∷ []
  pub fits : length contents < 2 ^ 62

length-fresh : (memory : ℕ → ℕ) (n : ℕ) → length (fresh memory n) ≡ n
unfolding fresh
length-fresh memory zero = refl
length-fresh memory (suc n) = ap suc (length-fresh memory n)

get_elem?-last : (xs : List ℕ) (b : ℕ) → get_elem? (xs ++ b ∷ []) (length xs) ≡ some b
get_elem?-last [] b = refl
get_elem?-last (x ∷ xs) b = get_elem?-last xs b

replicate-add : (a b x : ℕ) → replicate (a + b) x ≡ replicate a x ++ replicate b x
replicate-add zero b x = ap (λ n. replicate n x) (omega arith)
replicate-add (suc a) b x =
    let one_more : suc a + b ≡ suc (a + b) = omega arith in
    rw one_more (ap (λ l. x ∷ l) (replicate-add a b x))

module _ {s contents : List ℕ} (holds : Holds s contents) where
  pub length-Holds : length s ≡ length contents + holds.padding + 1
  length-Holds =
      ap length holds.layout
      ∙ omega (
        arith,
        length-append (contents ++ replicate holds.padding 0) (holds.padding ∷ []),
        length-append contents (replicate holds.padding 0),
        length-replicate {A = ℕ} holds.padding 0,
      )

  last_byte : get_elem? s (length s - 1) ≡ some holds.padding
  last_byte =
      let front = contents ++ replicate holds.padding 0 in
      let split : s ≡ front ++ holds.padding ∷ [] = holds.layout in
      let place : length s - 1 ≡ length front = omega (
        arith,
        length-Holds,
        length-append contents (replicate holds.padding 0),
        length-replicate {A = ℕ} holds.padding 0,
      ) in
      rw place (rw split (get_elem?-last front holds.padding))

  pub string_length-Holds : string_length s ≡ ok (length contents)
  unfolding string_length
  string_length-Holds =
      let bound = holds.fits in let total = length-Holds in rw last_byte (ap ok (omega arith))

-- The contents that a new string has: what memory held, with zeros in the last word.
pub allocated : (ℕ → ℕ) → ℕ → List ℕ
allocated memory len = fresh memory (len / 8 * 8) ++ replicate (len % 8) 0

pub length-allocated : (memory : ℕ → ℕ) (len : ℕ) → length (allocated memory len) ≡ len
unfolding allocated
length-allocated memory len = omega (
  arith,
  length-append (fresh memory (len / 8 * 8)) (replicate (len % 8) 0),
  length-fresh memory (len / 8 * 8),
  length-replicate {A = ℕ} (len % 8) 0,
)

alloc_string-layout :
    (memory : ℕ → ℕ) (len : ℕ)
    → alloc_string memory len
      ≡ allocated memory len ++ replicate (7 - len % 8) 0 ++ (7 - len % 8) ∷ []
unfolding alloc_string allocated
alloc_string-layout memory len =
    let front : 8 * ((len + 8) / 8 - 1) ≡ len / 8 * 8 = omega arith in
    let last : ((len + 8) / 8 * 8 - 1 - len) % 256 ≡ 7 - len % 8 = omega arith in
    let seven : 7 ≡ len % 8 + (7 - len % 8) = omega arith in
    let zeros : replicate {A = ℕ} 7 0 ≡ replicate (len % 8) 0 ++ replicate (7 - len % 8) 0 =
      ap (λ n. replicate n 0) seven ∙ replicate-add (len % 8) (7 - len % 8) 0 in
    rw (front, last)
      (ap (λ l. l ++ (7 - len % 8) ∷ [])
        (ap (λ l. fresh memory (len / 8 * 8) ++ l) zeros
          ∙ sym (
              append_assoc (fresh memory (len / 8 * 8)) (replicate (len % 8) 0)
                (replicate (7 - len % 8) 0))))

pub alloc_string-Holds :
    (memory : ℕ → ℕ) (len : ℕ)
    → len < 2 ^ 62
    → Holds (alloc_string memory len) (allocated memory len)
alloc_string-Holds memory len small = record {
  padding = 7 - len % 8;
  small = omega arith;
  whole = rw (length-allocated memory len) (omega arith);
  layout = alloc_string-layout memory len;
  fits = rw (length-allocated memory len) small;
}
