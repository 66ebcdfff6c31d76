-- ===== src/Checksum/Laws.antt =====
-- The checksum primitives against the one's complement sum of RFC 1071.
use mirage_kfreebsd.Base.{
  ℕ, zero, suc, ◌+◌, ◌-◌, ◌*◌, ◌/◌, ◌%◌, ◌≤◌, ◌<◌, ◌≡◌, refl, List, [], ◌∷◌, ◌++◌, ok, fault, arith,
  u64, length, take, All, IsBytes, All-append, length-append, length-take, ap, ◌∙◌, sym,
}
use mirage_kfreebsd.Checksum.{
  Buffer, checksum_bigarray, complement, ones_complement_checksum, sum_list,
  ones_complement_checksum_list,
}
use mirage_kfreebsd.Checksum.Fold.{
  carry_normal, carry_normal-add, carry_normal-le, carry_normal_small, fold_carries_normal,
}
use mirage_kfreebsd.Checksum.Sum.{
  words, total, ones_sum, Fits, sum_words-total, sum_words-fault, words-le, total-ones_sum,
  total-append, words-append,
}

IsBytes-take : (n : ℕ) (bytes : List ℕ) → IsBytes bytes → IsBytes (take n bytes)
IsBytes-take zero bytes h = tt
IsBytes-take (suc n) [] h = tt
IsBytes-take (suc n) (b ∷ bytes) h = (h.0, IsBytes-take n bytes h.1)

zero_plus : (n : ℕ) → 0 + n ≡ n
zero_plus n = omega arith

take_all : (xs : List ℕ) → take (length xs) xs ≡ xs
take_all [] = refl
take_all (x ∷ xs) = ap (λ ys. x ∷ ys) (take_all xs)

total-lt :
    (sum : ℕ) (ws : List ℕ)
    → All (λ w. w ≤ 65535) ws
    → sum + 65535 * length ws < 4294967296
    → sum + total ws < 4294967296
total-lt sum [] h fits = omega arith
total-lt sum (w ∷ ws) h fits = omega (arith, total-lt (sum + w) ws h.1 (omega arith))

checksum_bigarray_normal :
    (addr : List ℕ) (count sum : ℕ)
    → count ≤ length addr
    → IsBytes addr
    → Fits sum (take count addr)
    → checksum_bigarray addr count sum ≡ ok (carry_normal (sum + total (words (take count addr))))
unfolding checksum_bigarray
checksum_bigarray_normal addr count sum le bytes fits =
    rw (sum_words-total addr count sum le bytes fits)
      (fold_carries_normal _ (total-lt sum _ (words-le _ (IsBytes-take count addr bytes)) fits))

checksum_normal :
    (v_ba : List ℕ) (v_len : ℕ)
    → IsBytes v_ba
    → v_len ≤ length v_ba
    → Fits 0 (take v_len v_ba)
    → v_len < 18446744073709551616
    → ones_complement_checksum v_ba v_len
      ≡ ok (65535 - carry_normal (total (words (take v_len v_ba))))
unfolding ones_complement_checksum
checksum_normal v_ba v_len bytes le fits small =
    rw (length_kept, checksum_bigarray_normal v_ba v_len 0 le bytes fits) (ap ok last)
  where
    length_kept : u64 v_len ≡ v_len
    length_kept = omega arith

    sum : ℕ
    sum = total (words (take v_len v_ba))

    last : complement (carry_normal (0 + sum)) ≡ 65535 - carry_normal sum
    last = rw (zero_plus sum) (omega (arith, carry_normal-le sum))

-- For a length below 2^64 that the buffer has, and of so few words that their sum fits 32 bits, the checksum is the complement of the one's
-- complement sum of the first `v_len` bytes, read as 16-bit words and padded to a whole word.
pub checksum-ones_sum :
    (v_ba : List ℕ) (v_len : ℕ)
    → IsBytes v_ba
    → v_len ≤ length v_ba
    → Fits 0 (take v_len v_ba)
    → v_len < 18446744073709551616
    → ones_complement_checksum v_ba v_len ≡ ok (65535 - ones_sum (words (take v_len v_ba)))
checksum-ones_sum v_ba v_len bytes le fits small =
    checksum_normal v_ba v_len bytes le fits small
    ∙ ap (λ s. ok (65535 - s))
        (total-ones_sum (words (take v_len v_ba)) (words-le _ (IsBytes-take v_len v_ba bytes)))

-- A length that is larger than the buffer, or negative (which `size_t` reads as a huge one), reads
-- past the end of the buffer.
pub checksum_out_of_bounds :
    (v_ba : List ℕ) (v_len : ℕ)
    → length v_ba < u64 v_len
    → ones_complement_checksum v_ba v_len ≡ fault
unfolding ones_complement_checksum checksum_bigarray
checksum_out_of_bounds v_ba v_len h = rw (sum_words-fault v_ba (u64 v_len) 0 h)

length-words : (bytes : List ℕ) → 2 * length (words bytes) ≤ length bytes + 1
length-words [] = omega arith
length-words (b ∷ []) = omega arith
length-words (hi ∷ lo ∷ bytes) = omega (arith, length-words bytes)

ok-injective : {a b : ℕ} → ok a ≡ ok b → a ≡ b
ok-injective h = ground arith

complement_of :
    (msg : List ℕ) (sum : ℕ)
    → IsBytes msg
    → length msg < 131000
    → ones_complement_checksum msg (length msg) ≡ ok sum
    → carry_normal (total (words msg)) + sum ≡ 65535
complement_of msg sum bytes small computed =
    let e : 65535 - carry_normal (total (words (take (length msg) msg))) ≡ sum = ok-injective (
      sym (
        checksum_normal msg (length msg) bytes (omega arith)
          (rw take_all (omega (arith, length-words msg))) (omega arith))
      ∙ computed) in
    let e' : 65535 - carry_normal (total (words msg)) ≡ sum =
      ap (λ xs. 65535 - carry_normal (total (words xs))) (sym (take_all msg)) ∙ e in
    omega (arith, carry_normal-le (total (words msg)))

-- A message of whole words, below 131000 bytes, that carries its own checksum as its last word has checksum 0: this is
-- what a receiver tests.
pub checksum_self_verifies :
    (msg : List ℕ) (sum : ℕ)
    → IsBytes msg
    → length msg % 2 ≡ 0
    → length msg < 131000
    → ones_complement_checksum msg (length msg) ≡ ok sum
    → ones_complement_checksum (msg ++ sum / 256 ∷ sum % 256 ∷ []) (length msg + 2) ≡ ok 0
checksum_self_verifies msg sum bytes even small computed =
    let tail : List ℕ = sum / 256 ∷ sum % 256 ∷ [] in
    let carried : carry_normal (total (words msg)) + sum ≡ 65535 =
      complement_of msg sum bytes small computed in
    let all : length (msg ++ tail) ≡ length msg + 2 = length-append msg tail in
    let whole : take (length msg + 2) (msg ++ tail) ≡ msg ++ tail =
      ap (λ n. take n (msg ++ tail)) (sym all) ∙ take_all (msg ++ tail) in
    let summed : total (words (msg ++ tail)) ≡ total (words msg) + sum =
      ap total (words-append msg tail even) ∙ total-append (words msg) (words tail) ∙ omega arith in
    checksum_normal (msg ++ tail) (length msg + 2)
      (All-append _ msg tail bytes (omega (arith, carry_normal-le (total (words msg)))))
      (omega arith) (rw whole (omega (arith, length-words (msg ++ tail)))) (omega arith)
    ∙ ap (λ xs. ok (65535 - carry_normal (total (words xs)))) whole
    ∙ ap (λ n. ok (65535 - carry_normal n)) summed
    ∙ ap ok (
        omega (
          arith,
          ap carry_normal carried,
          carry_normal-add (total (words msg)) sum,
          carry_normal_small 65535 (omega arith),
        ))

pub record IsBuffer (a : Buffer) : Type 0 where
  pub within : a.dim ≤ length a.bytes
  pub bytes : IsBytes a.bytes
  pub fits : 65535 * length (words (take a.dim a.bytes)) < 4294901760

-- The bytes of a message that is spread over several buffers.
abbrev pub payload : List Buffer → List ℕ
payload [] = []
payload (a ∷ v_bal) = take a.dim a.bytes ++ payload v_bal

-- Only the last buffer may have an odd length.
abbrev pub EvenButLast : List Buffer → Type 0
EvenButLast [] = Unit
EvenButLast (a ∷ []) = Unit
EvenButLast (a ∷ b ∷ v_bal) = (a.dim % 2 ≡ 0) × EvenButLast (b ∷ v_bal)

EvenButLast-tail : (a : Buffer) (v_bal : List Buffer) → EvenButLast (a ∷ v_bal) → EvenButLast v_bal
EvenButLast-tail a [] even = tt
EvenButLast-tail a (b ∷ v_bal) even = even.1

append-nil : (xs : List ℕ) → xs ++ [] ≡ xs
append-nil [] = refl
append-nil (x ∷ xs) = ap (λ ys. x ∷ ys) (append-nil xs)

payload-IsBytes : (v_bal : List Buffer) → All IsBuffer v_bal → IsBytes (payload v_bal)
payload-IsBytes [] valid = tt
payload-IsBytes (a ∷ v_bal) valid =
    All-append _ (take a.dim a.bytes) (payload v_bal) (IsBytes-take a.dim a.bytes valid.0.bytes)
      (payload-IsBytes v_bal valid.1)

total-payload :
    (a : Buffer) (v_bal : List Buffer)
    → IsBuffer a
    → EvenButLast (a ∷ v_bal)
    → total (words (payload (a ∷ v_bal)))
      ≡ total (words (take a.dim a.bytes)) + total (words (payload v_bal))
total-payload a [] valid even = rw append-nil (omega arith)
total-payload a (b ∷ v_bal) valid even =
    ap total (words-append (take a.dim a.bytes) (payload (b ∷ v_bal)) even_front)
    ∙ total-append (words (take a.dim a.bytes)) (words (payload (b ∷ v_bal)))
  where
    even_front : length (take a.dim a.bytes) % 2 ≡ 0
    even_front = omega (arith, length-take a.dim a.bytes, even.0, valid.within)

sum_list-total :
    (v_bal : List Buffer) (sum : ℕ)
    → All IsBuffer v_bal
    → EvenButLast v_bal
    → sum ≤ 65535
    → sum_list v_bal sum ≡ ok (carry_normal (sum + total (words (payload v_bal))))
unfolding sum_list
sum_list-total [] sum valid even small =
    let e : sum ≡ carry_normal (sum + 0) = omega (arith, carry_normal_small (sum + 0)) in ap ok e
sum_list-total (a ∷ v_bal) sum valid even small =
    rw
      (checksum_bigarray_normal a.bytes a.dim sum a_ok.within a_ok.bytes (omega (arith, a_ok.fits)))
      (sum_list-total v_bal (carry_normal (sum + first)) valid.1 (EvenButLast-tail a v_bal even)
          (carry_normal-le (sum + first))
        ∙ ap ok (
            carry_normal-add (sum + first) (total (words (payload v_bal)))
            ∙ ap carry_normal joined))
  where
    a_ok : IsBuffer a
    a_ok = valid.0

    first : ℕ
    first = total (words (take a.dim a.bytes))

    joined : sum + first + total (words (payload v_bal)) ≡ sum + total (words (payload (a ∷ v_bal)))
    joined = omega (arith, total-payload a v_bal a_ok even)

-- The checksum of a list of buffers, each long enough and of so few words that its sum cannot overflow,
-- is the one of the message that they hold together, if all but
-- the last have an even length.
pub checksum_list-payload :
    (v_bal : List Buffer)
    → All IsBuffer v_bal
    → EvenButLast v_bal
    → ones_complement_checksum_list v_bal ≡ ok (65535 - ones_sum (words (payload v_bal)))
unfolding ones_complement_checksum_list
checksum_list-payload v_bal valid even =
    rw (sum_list-total v_bal 0 valid even (omega arith), zero_plus) (ap ok last)
  where
    sum : ℕ
    sum = total (words (payload v_bal))

    last : complement (carry_normal sum) ≡ 65535 - ones_sum (words (payload v_bal))
    last = omega (
      arith,
      carry_normal-le sum,
      total-ones_sum (words (payload v_bal)) (words-le _ (payload-IsBytes v_bal valid)),
    )
