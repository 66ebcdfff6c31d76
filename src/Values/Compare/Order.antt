-- ===== src/Values/Compare/Order.antt =====
-- The order of trees.
use Prim.Native.Nat.{Ordering, compare}
use mathlib.Core.Path.{ap₂}
use mirage_kfreebsd.Base.{ℕ, ◌≡◌, refl, List, [], ◌∷◌, true, arith, ap}
use mirage_kfreebsd.Base.Int.{ℤ}
use mirage_kfreebsd.Values.{Value, long, ptr, same}
use mirage_kfreebsd.Values.Compare.Tree.{
  Tree, leaf, text, node, Forest, nil, cons, order, order_forest, order_ℤ, order_text, then_by,
  forest_length,
}
use mirage_kfreebsd.Values.Compare.Signs.{order_ℤ_refl}

pub order_text_refl : (xs : List ℕ) → order_text xs xs ≡ Ordering.eq
unfolding order_text
order_text_refl [] = refl
order_text_refl (x ∷ xs) = ground (arith, order_text_refl xs)

mutual
  unfolding order

  pub order_refl : (t : Tree) → order t t ≡ Ordering.eq
  order_refl (leaf a) = order_ℤ_refl a
  order_refl (text xs) = order_text_refl xs
  order_refl (node k ts) = ground (arith, order_forest_refl ts)

  pub order_forest_refl : (ts : Forest) → order_forest ts ts ≡ Ordering.eq
  order_forest_refl nil = refl
  order_forest_refl (cons t ts) = ground (arith, order_refl t, order_forest_refl ts)

order_ℤ-eq : (a b : ℤ) → order_ℤ a b ≡ Ordering.eq → a ≡ b
unfolding order_ℤ
order_ℤ-eq a b h = ground arith

order_text-eq : (xs ys : List ℕ) → order_text xs ys ≡ Ordering.eq → xs ≡ ys
unfolding order_text
order_text-eq [] [] h = refl
order_text-eq [] (y ∷ ys) h = cc
order_text-eq (x ∷ xs) [] h = cc
order_text-eq (x ∷ xs) (y ∷ ys) h = ground (arith, order_text-eq xs ys)

then_by-eq : (a b : Ordering) → then_by a b ≡ Ordering.eq → (a ≡ Ordering.eq) × (b ≡ Ordering.eq)
then_by-eq Ordering.lt b h = cc
then_by-eq Ordering.gt b h = cc
then_by-eq Ordering.eq b h = (refl, h)

eq-compare : (a b : ℕ) → compare a b ≡ Ordering.eq → a ≡ b
eq-compare a b h = ground arith

mutual
  unfolding order forest_length

  -- Trees of which neither comes first are the same.
  pub order-eq : (t u : Tree) → order t u ≡ Ordering.eq → t ≡ u
  order-eq (leaf a) (leaf b) h = ap leaf (order_ℤ-eq a b h)
  order-eq (leaf a) (text ys) h = cc
  order-eq (leaf a) (node l us) h = cc
  order-eq (text xs) (leaf b) h = cc
  order-eq (text xs) (text ys) h = ap text (order_text-eq xs ys h)
  order-eq (text xs) (node l us) h = cc
  order-eq (node k ts) (leaf b) h = cc
  order-eq (node k ts) (text ys) h = cc
  order-eq (node k ts) (node l us) h =
      let (tags, rest) = then_by-eq _ _ h in
      let (sizes, fields) = then_by-eq _ _ rest in
      ap₂ node (eq-compare k l tags) (order_forest-eq ts us (eq-compare _ _ sizes) fields)

  pub order_forest-eq :
      (ts us : Forest)
      → forest_length ts ≡ forest_length us
      → order_forest ts us ≡ Ordering.eq
      → ts ≡ us
  order_forest-eq nil nil n h = refl
  order_forest-eq nil (cons u us) n h = absurd (omega arith)
  order_forest-eq (cons t ts) nil n h = absurd (omega arith)
  order_forest-eq (cons t ts) (cons u us) n h =
      let (first, rest) = then_by-eq _ _ h in
      ap₂ cons (order-eq t u first) (order_forest-eq ts us (omega arith) rest)

pub same-eq : (v w : Value) → same v w ≡ true → v ≡ w
unfolding same
same-eq (long a) (long b) h = ap long (ground arith)
same-eq (long a) (ptr q) h = cc
same-eq (ptr p) (long b) h = cc
same-eq (ptr p) (ptr q) h = ap ptr (ground arith)
