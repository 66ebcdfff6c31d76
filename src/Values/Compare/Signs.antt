-- ===== src/Values/Compare/Signs.antt =====
-- The numbers that `compare_val` returns, and the orders they stand for.
use Prim.Native.Nat.{Ordering, compare}
use mirage_kfreebsd.Base.{
  ℕ, ◌+◌, ◌^◌, ◌≤◌, ◌<◌, ◌≡◌, sym, ◌∙◌, List, [], ◌∷◌, some, none, length, true, false, IsBytes,
  arith, ◌==◌,
}
use mirage_kfreebsd.Base.Int.{ℤ, pos, pos_part, neg_part, ◌-ℤ◌, eqb_ℤ, sub_ℕ}
use mirage_kfreebsd.Values.{intnat}
use mirage_kfreebsd.Values.Compare.{unordered, compare_bytes, size_diff}
use mirage_kfreebsd.Values.Compare.Tree.{order_ℤ, order_text, then_by}

-- A result that stands for an order, and is not UNORDERED.
abbrev pub IsSign : ℤ → Ordering → Type 0
IsSign r o = (order_ℤ r (pos 0) ≡ o) × (eqb_ℤ r unordered ≡ false)

sub_ℕ-IsSign : (a b : ℕ) → a < 2 ^ 63 → b < 2 ^ 63 → IsSign (intnat (sub_ℕ a b)) (compare a b)
unfolding order_ℤ intnat
sub_ℕ-IsSign a b ha hb = ground arith

sub_ℕ-nonzero :
    (a b : ℕ)
    → a < 2 ^ 63
    → b < 2 ^ 63
    → (a == b) ≡ false
    → eqb_ℤ (intnat (sub_ℕ a b)) (pos 0) ≡ false
unfolding intnat
sub_ℕ-nonzero a b ha hb differ = ground arith

pub long-IsSign :
    (a b : ℤ)
    → pos_part a < 2 ^ 62
    → neg_part a ≤ 2 ^ 62
    → pos_part b < 2 ^ 62
    → neg_part b ≤ 2 ^ 62
    → IsSign (intnat (a -ℤ b)) (order_ℤ a b)
unfolding order_ℤ
long-IsSign a b pa na pb nb =
    sub_ℕ-IsSign (pos_part a + neg_part b) (neg_part a + pos_part b) (omega arith) (omega arith)

pub small-IsSign : (a b : ℕ) → a < 2 ^ 62 → b < 2 ^ 62 → IsSign (pos a -ℤ pos b) (compare a b)
unfolding order_ℤ
small-IsSign a b ha hb = ground arith

pub size_diff-IsSign : (a b : ℕ) → a < 2 ^ 62 → b < 2 ^ 62 → IsSign (size_diff a b) (compare a b)
unfolding size_diff order_ℤ intnat
size_diff-IsSign a b ha hb = ground arith

pub order_ℤ_refl : (a : ℤ) → order_ℤ a a ≡ Ordering.eq
unfolding order_ℤ
order_ℤ_refl a = ground arith

pub compare_bytes-some :
    (xs ys : List ℕ) (r : ℤ)
    → IsBytes xs
    → IsBytes ys
    → compare_bytes xs ys ≡ some r
    → IsSign r (order_text xs ys)
unfolding compare_bytes order_text
compare_bytes-some [] [] r hx hy h = cc
compare_bytes-some [] (y ∷ ys) r hx hy h = cc
compare_bytes-some (x ∷ xs) [] r hx hy h = cc
compare_bytes-some (x ∷ xs) (y ∷ ys) r hx hy h =
    ground (arith, small-IsSign x y, compare_bytes-some xs ys r hx.1 hy.1)

pub compare_bytes-none :
    (xs ys : List ℕ)
    → compare_bytes xs ys ≡ none
    → order_text xs ys ≡ compare (length xs) (length ys)
unfolding compare_bytes order_text
compare_bytes-none [] [] h = ground arith
compare_bytes-none [] (y ∷ ys) h = ground arith
compare_bytes-none (x ∷ xs) [] h = ground arith
compare_bytes-none (x ∷ xs) (y ∷ ys) h = ground (arith, compare_bytes-none xs ys)

pub zero-eq : (r : ℤ) {o : Ordering} → IsSign r o → eqb_ℤ r (pos 0) ≡ true → o ≡ Ordering.eq
unfolding order_ℤ
zero-eq r sign none_left = sym sign.0 ∙ ground arith

pub nonzero-then_by :
    (r : ℤ) {o : Ordering} (o' : Ordering) → IsSign r o → eqb_ℤ r (pos 0) ≡ false → then_by o o' ≡ o
unfolding order_ℤ
nonzero-then_by r o' sign other = rw (← sign.0) (ground arith)

pub compare_bytes-nonzero :
    (xs ys : List ℕ) (r : ℤ) → compare_bytes xs ys ≡ some r → eqb_ℤ r (pos 0) ≡ false
unfolding compare_bytes
compare_bytes-nonzero [] [] r h = cc
compare_bytes-nonzero [] (y ∷ ys) r h = cc
compare_bytes-nonzero (x ∷ xs) [] r h = cc
compare_bytes-nonzero (x ∷ xs) (y ∷ ys) r h = ground (arith, compare_bytes-nonzero xs ys r)

pub size_diff-nonzero :
    (a b : ℕ) → a < 2 ^ 62 → b < 2 ^ 62 → (a == b) ≡ false → eqb_ℤ (size_diff a b) (pos 0) ≡ false
unfolding size_diff intnat
size_diff-nonzero a b ha hb differ = ground arith

pub compare-eq : (a b : ℕ) → (a == b) ≡ true → compare a b ≡ Ordering.eq
compare-eq a b same = ground arith

pub long-nonzero :
    (a b : ℤ)
    → pos_part a < 2 ^ 62
    → neg_part a ≤ 2 ^ 62
    → pos_part b < 2 ^ 62
    → neg_part b ≤ 2 ^ 62
    → eqb_ℤ a b ≡ false
    → eqb_ℤ (intnat (a -ℤ b)) (pos 0) ≡ false
long-nonzero a b pa na pb nb differ =
    sub_ℕ-nonzero (pos_part a + neg_part b) (neg_part a + pos_part b) (omega arith) (omega arith)
      (ground arith)
