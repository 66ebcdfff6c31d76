-- ===== src/Strings/Equal.antt =====
-- `caml_string_equal`, which compares words.
use mathlib.Core.List.{append_assoc}
use mathlib.Core.Path.{ap₂}
use mirage_kfreebsd.Base.{
  ℕ, zero, suc, ◌*◌, ◌/◌, ◌≤◌, ◌≡◌, ◌↔◌, refl, ap, sym, ◌∙◌, List, [], ◌∷◌, ◌++◌, true, Bool-cases,
  inl, inr, length, take, drop, replicate, take-append-drop, length-drop, IsBytes, arith, ◌==◌,
  ==_iff, ok_inj,
}
use mirage_kfreebsd.Strings.{StringBlock, word, same_words, string_equal, string_length}
use mirage_kfreebsd.Strings.Padding.{Holds, length-Holds, string_length-Holds}

All-drop : (n : ℕ) (xs : List ℕ) → IsBytes xs → IsBytes (drop n xs)
All-drop zero xs h = h
All-drop (suc n) [] h = tt
All-drop (suc n) (x ∷ xs) h = All-drop n xs h.1

word-take :
    (n : ℕ) (p q : List ℕ)
    → IsBytes p
    → IsBytes q
    → n ≤ length p
    → n ≤ length q
    → word n p ≡ word n q
    → take n p ≡ take n q
unfolding word
word-take zero p q hp hq lp lq e = refl
word-take (suc n) [] q hp hq lp lq e = absurd (omega arith)
word-take (suc n) (x ∷ p) [] hp hq lp lq e = absurd (omega arith)
word-take (suc n) (x ∷ p) (y ∷ q) hp hq lp lq e =
    let small = hp.0 in
    let small' = hq.0 in
    ap₂ (λ b l. b ∷ l) (omega arith)
      (word-take n p q hp.1 hq.1 (omega arith) (omega arith) (omega arith))

same_words-suc :
    (sz : ℕ) (p q : List ℕ)
    → same_words (suc sz) p q ≡ true
    → (word 8 p ≡ word 8 q) × (same_words sz (drop 8 p) (drop 8 q) ≡ true)
unfolding same_words
same_words-suc sz p q e = ground arith

same_words-eq :
    (sz : ℕ) (p q : List ℕ)
    → IsBytes p
    → IsBytes q
    → length p ≡ 8 * sz
    → length q ≡ 8 * sz
    → same_words sz p q ≡ true
    → p ≡ q
unfolding same_words
same_words-eq zero [] [] hp hq lp lq e = refl
same_words-eq zero [] (y ∷ q) hp hq lp lq e = absurd (omega arith)
same_words-eq zero (x ∷ p) q hp hq lp lq e = absurd (omega arith)
same_words-eq (suc sz) p q hp hq lp lq e =
    let (same, others) = same_words-suc sz p q e in
    let firsts = word-take 8 p q hp hq (omega arith) (omega arith) same in
    let rests =
      same_words-eq sz (drop 8 p) (drop 8 q) (All-drop 8 p hp) (All-drop 8 q hq)
        (omega (arith, length-drop 8 p)) (omega (arith, length-drop 8 q)) others in
    sym (take-append-drop 8 p) ∙ ap₂ (λ a b. a ++ b) firsts rests ∙ take-append-drop 8 q

same_words_refl : (sz : ℕ) (p : List ℕ) → same_words sz p p ≡ true
unfolding same_words
same_words_refl zero p = refl
same_words_refl (suc sz) p =
    let same : (word 8 p == word 8 p) ≡ true = ground arith in
    rw same (same_words_refl sz (drop 8 p))

take-append : (xs ys : List ℕ) → take (length xs) (xs ++ ys) ≡ xs
take-append [] ys = refl
take-append (x ∷ xs) ys = ap (λ l. x ∷ l) (take-append xs ys)

module _ {s c : List ℕ} (holds : Holds s c) where
  pub contents-take : take (length c) s ≡ c
  contents-take =
      let padded = replicate {A = ℕ} holds.padding 0 in
      ap (take (length c)) (holds.layout ∙ append_assoc c padded (holds.padding ∷ []))
      ∙ take-append c (padded ++ holds.padding ∷ [])

module _ {s t c d : List ℕ} (one : Holds s c) (other : Holds t d) where
  pub contents_unique : s ≡ t → c ≡ d
  contents_unique e =
      let e_length : length c ≡ length d =
        ok_inj (sym (string_length-Holds one) ∙ ap string_length e ∙ string_length-Holds other) in
      sym (contents-take one) ∙ ap₂ (λ n l. take n l) e_length e ∙ contents-take other

  block_unique : c ≡ d → s ≡ t
  block_unique e =
      let pads : one.padding ≡ other.padding =
        omega (arith, one.whole, other.whole, one.small, other.small, ap length e) in
      one.layout ∙ ap₂ (λ l k. l ++ replicate k 0 ++ k ∷ []) e pads ∙ sym other.layout

block_words : {s c : List ℕ} (holds : Holds s c) → length s ≡ 8 * (length s / 8)
block_words holds = omega (arith, length-Holds holds, holds.whole)

string_equal-bytes :
    (s t : StringBlock)
    → length s.bytes ≡ 8 * (length s.bytes / 8)
    → length t.bytes ≡ 8 * (length t.bytes / 8)
    → IsBytes s.bytes
    → IsBytes t.bytes
    → (s.addr ≡ t.addr → s.bytes ≡ t.bytes)
    → string_equal s t ≡ true
    → s.bytes ≡ t.bytes
unfolding string_equal
string_equal-bytes s t ls lt bs bt alias e = elim (Bool-cases (s.addr == t.addr)) [
  | inl at ↦ alias ((==_iff _ _).0 at)
  | inr apart ↦ elim (Bool-cases (length s.bytes / 8 == length t.bytes / 8)) [
    | inl size ↦
        same_words-eq (length s.bytes / 8) s.bytes t.bytes bs bt ls
          (omega (arith, (==_iff _ _).0 size)) (ground arith)
    | inr differ ↦ absurd (ground arith)
  ]
]

string_equal_refl : (s t : StringBlock) → s.bytes ≡ t.bytes → string_equal s t ≡ true
unfolding string_equal
string_equal_refl s t e =
    let words : same_words (length s.bytes / 8) s.bytes t.bytes ≡ true =
      ap (same_words (length s.bytes / 8) s.bytes) (sym e)
      ∙ same_words_refl (length s.bytes / 8) s.bytes in
    let size : (length s.bytes / 8 == length t.bytes / 8) ≡ true = ground (arith, ap length e) in
    rw (size, words) (ground arith)

-- `caml_string_equal` compares whole words, and is true just when the strings have the same contents:
-- the padding is the same for strings of one length.
pub string_equal-contents :
    (s t : StringBlock) {c d : List ℕ}
    → Holds s.bytes c
    → Holds t.bytes d
    → IsBytes s.bytes
    → IsBytes t.bytes
    → (s.addr ≡ t.addr → s.bytes ≡ t.bytes)
    → (string_equal s t ≡ true) ↔ (c ≡ d)
string_equal-contents s t {c} {d} one other bs bt alias = (
  λ e.
      contents_unique one other
        (string_equal-bytes s t (block_words one) (block_words other) bs bt alias e),
  λ e. string_equal_refl s t (block_unique one other e),
)
