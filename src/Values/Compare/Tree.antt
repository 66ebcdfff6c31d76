-- ===== src/Values/Compare/Tree.antt =====
-- Trees, the abstract view of OCaml data, and their order.
use Prim.Native.Nat.{Ordering, compare, max}
use mirage_kfreebsd.Base.{
  ℕ, suc, ◌+◌, ◌^◌, ◌≤◌, ◌<◌, ◌≡◌, List, [], ◌∷◌, some, length, get_elem?, IsBytes,
}
use mirage_kfreebsd.Base.Int.{ℤ, pos_part, neg_part}
use mirage_kfreebsd.Values.{Value, long, ptr, Block, Heap, forward_tag, closure_tag, string_tag}

-- A number, a string, or a block with its tag and fields.
mutual
  pub data Tree : Type 0 where
    leaf : ℤ → Tree
    text : List ℕ → Tree
    node : ℕ → Forest → Tree

  pub data Forest : Type 0 where
    nil : Forest
    cons : Tree → Forest → Forest

unfoldable pub forest_length : Forest → ℕ
forest_length nil = 0
forest_length (cons t ts) = suc (forest_length ts)

abbrev pub then_by : Ordering → Ordering → Ordering
then_by Ordering.lt o = Ordering.lt
then_by Ordering.gt o = Ordering.gt
then_by Ordering.eq o = o

unfoldable pub order_ℤ : ℤ → ℤ → Ordering
order_ℤ a b = compare (pos_part a + neg_part b) (neg_part a + pos_part b)

-- Strings in the order of a dictionary.
unfoldable pub order_text : List ℕ → List ℕ → Ordering
order_text [] [] = Ordering.eq
order_text [] (y ∷ ys) = Ordering.lt
order_text (x ∷ xs) [] = Ordering.gt
order_text (x ∷ xs) (y ∷ ys) = then_by (compare x y) (order_text xs ys)

-- Numbers come before blocks and strings after them. Blocks go by their tags, then by their sizes, and
-- then by their fields from the first on.
unfoldable mutual
  pub order : Tree → Tree → Ordering
  order (leaf a) (leaf b) = order_ℤ a b
  order (leaf a) (text ys) = Ordering.lt
  order (leaf a) (node k us) = Ordering.lt
  order (text xs) (leaf b) = Ordering.gt
  order (text xs) (text ys) = order_text xs ys
  order (text xs) (node k us) = Ordering.gt
  order (node k ts) (leaf b) = Ordering.gt
  order (node k ts) (text ys) = Ordering.lt
  order (node k ts) (node l us) =
      then_by (compare k l)
        (then_by (compare (forest_length ts) (forest_length us)) (order_forest ts us))

  pub order_forest : Forest → Forest → Ordering
  order_forest (cons t ts) (cons u us) = then_by (order t u) (order_forest ts us)
  order_forest _ _ = Ordering.eq

-- How many items the stack needs: one for each block that is entered before its last field.
unfoldable mutual
  pub height : Tree → ℕ
  height (leaf a) = 0
  height (text xs) = 0
  height (node k ts) = height_forest ts

  pub height_forest : Forest → ℕ
  height_forest nil = 0
  height_forest (cons t nil) = height t
  height_forest (cons t (cons u us)) = max (suc (height t)) (height_forest (cons u us))

-- `Repr heap v t`: v is the data t. Blocks of the tag Forward are passed through.
mutual
  pub data Repr (heap : Heap) : Value → Tree → Type 0 where
    a_long : {n : ℤ} → pos_part n < 2 ^ 62 → neg_part n ≤ 2 ^ 62 → Repr heap (long n) (leaf n)
    a_string :
        {p : ℕ} (b : Block)
        → heap.block p ≡ some b
        → b.tag ≡ string_tag
        → IsBytes b.bytes
        → length b.bytes < 2 ^ 62
        → Repr heap (ptr p) (text b.bytes)
    a_block :
        {p : ℕ} {ts : Forest} (b : Block)
        → heap.block p ≡ some b
        → b.tag < closure_tag
        → length b.fields < 2 ^ 62
        → Reprs heap b.fields ts
        → Repr heap (ptr p) (node b.tag ts)
    a_forward :
        {p : ℕ} {t : Tree} (b : Block) (v : Value)
        → heap.block p ≡ some b
        → b.tag ≡ forward_tag
        → get_elem? b.fields 0 ≡ some v
        → Repr heap v t
        → Repr heap (ptr p) t

  pub data Reprs (heap : Heap) : List Value → Forest → Type 0 where
    no_fields : Reprs heap [] nil
    a_field :
        {v : Value} {vs : List Value} {t : Tree} {ts : Forest}
        → Repr heap v t
        → Reprs heap vs ts
        → Reprs heap (v ∷ vs) (cons t ts)
