-- ===== src/Checksum/Sum.antt =====
-- The 32-bit sum of the 16-bit words, and the one's complement sum that the Internet checksum is
-- defined by (RFC 1071).
use mirage_kfreebsd.Base.{
  ℕ, zero, suc, ◌+◌, ◌-◌, ◌*◌, ◌%◌, ◌≤◌, ◌<◌, ◌≡◌, refl, List, [], ◌∷◌, ◌++◌, ok, fault, arith, u32,
  u16, ltb, if◌then◌else◌, length, take, All, IsBytes, ap, ◌∙◌,
}
use mirage_kfreebsd.Checksum.{sum_words}
use mirage_kfreebsd.Checksum.Fold.{carry_normal, carry_normal-add, carry_normal-le}

-- The words in network order; an odd last byte is padded with a zero byte.
abbrev pub words : List ℕ → List ℕ
words [] = []
words (b ∷ []) = b * 256 ∷ []
words (hi ∷ lo ∷ bytes) = (hi * 256 + lo) ∷ words bytes

abbrev pub total : List ℕ → ℕ
total [] = 0
total (w ∷ ws) = w + total ws

-- One's complement addition of two 16-bit words: a carry out comes back in at the low end.
abbrev pub ones_add : ℕ → ℕ → ℕ
ones_add a b = let s = a + b in if ltb s 65536 then s else s - 65535

unfoldable pub ones_sum : List ℕ → ℕ
ones_sum [] = 0
ones_sum (w ∷ ws) = ones_add w (ones_sum ws)

-- The bound under which the `uint32_t` accumulator cannot wrap.
abbrev pub Fits : ℕ → List ℕ → Type 0
Fits sum bytes = sum + 65535 * length (words bytes) < 4294967296

pub sum_words-total :
    (buf : List ℕ) (count sum : ℕ)
    → count ≤ length buf
    → IsBytes buf
    → Fits sum (take count buf)
    → sum_words buf count sum ≡ ok (sum + total (words (take count buf)))
unfolding sum_words
sum_words-total [] zero sum le bytes fits = ap ok (omega arith)
sum_words-total [] (suc count) sum le bytes fits = absurd (omega arith)
sum_words-total (b ∷ buf) zero sum le bytes fits = ap ok (omega arith)
sum_words-total (b ∷ buf) (suc zero) sum le bytes fits = ap ok (omega arith)
sum_words-total (b ∷ []) (suc (suc count)) sum le bytes fits = absurd (omega arith)
sum_words-total (hi ∷ lo ∷ buf) (suc (suc count)) sum le bytes fits =
    ap (λ s. sum_words buf count s) next
    ∙ sum_words-total buf count (sum + (hi * 256 + lo)) (omega arith) bytes.1.1 (omega arith)
    ∙ ap ok (omega arith)
  where
    next : u32 (sum + u16 (hi * 256 + lo)) ≡ sum + (hi * 256 + lo)
    next = omega arith

-- Asking for more bytes than there are reads past the buffer.
pub sum_words-fault :
    (buf : List ℕ) (count sum : ℕ) → length buf < count → sum_words buf count sum ≡ fault
unfolding sum_words
sum_words-fault buf zero sum h = absurd (omega arith)
sum_words-fault [] (suc zero) sum h = refl
sum_words-fault [] (suc (suc count)) sum h = refl
sum_words-fault (b ∷ buf) (suc zero) sum h = absurd (omega arith)
sum_words-fault (b ∷ []) (suc (suc count)) sum h = refl
sum_words-fault (hi ∷ lo ∷ buf) (suc (suc count)) sum h = sum_words-fault buf count _ (omega arith)

pub words-le : (bytes : List ℕ) → IsBytes bytes → All (λ w. w ≤ 65535) (words bytes)
words-le [] h = tt
words-le (b ∷ []) h = (omega arith, tt)
words-le (hi ∷ lo ∷ bytes) h = (omega arith, words-le bytes h.1.1)

pub total-ones_sum : (ws : List ℕ) → All (λ w. w ≤ 65535) ws → carry_normal (total ws) ≡ ones_sum ws
unfolding ones_sum carry_normal
total-ones_sum [] h = refl
total-ones_sum (w ∷ ws) h =
    ground (arith, total-ones_sum ws h.1, carry_normal-le (total ws), carry_normal-add (total ws) w)

pub total-append : (xs ys : List ℕ) → total (xs ++ ys) ≡ total xs + total ys
total-append [] ys = omega arith
total-append (x ∷ xs) ys = omega (arith, total-append xs ys)

-- Words are read across a boundary of two buffers only if it lies at an even offset.
pub words-append : (xs ys : List ℕ) → length xs % 2 ≡ 0 → words (xs ++ ys) ≡ words xs ++ words ys
words-append [] ys h = refl
words-append (x ∷ []) ys h = absurd (omega arith)
words-append (x ∷ y ∷ xs) ys h = ap (λ ws. (x * 256 + y) ∷ ws) (words-append xs ys (omega arith))
