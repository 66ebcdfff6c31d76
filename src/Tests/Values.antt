-- ===== src/Tests/Values.antt =====
-- Comparison and hash on two small heaps' worth of values.
use mirage_kfreebsd.Base.{
  ℕ, zero, suc, ◌+◌, ◌^◌, ◌≡◌, ◌≤◌, ◌<◌, ◌↔◌, refl, ap, sym, ◌∙◌, some_inj, ◌%◌, [], ◌∷◌, ok, Bool,
  true, some, none, ◌==◌, if◌then◌else◌, ltb, arith,
}
use mirage_kfreebsd.Base.Int.{pos, ◌-ℤ◌}
use mirage_kfreebsd.Values.{long, ptr, Block, CustomOps, Heap, forward_tag, string_tag}
use mirage_kfreebsd.Values.Compare.{caml_compare, caml_equal}
use mirage_kfreebsd.Values.Compare.Tree.{
  Tree, leaf, text, node, nil, cons, order, height, Repr, a_long, a_string, a_block, a_forward,
  no_fields, a_field,
}
use mirage_kfreebsd.Values.Compare.Laws.{to_int, caml_compare-order, caml_equal-eq}
use mirage_kfreebsd.Values.Hash.{hash_univ_param, hash_variant, hash_variant_loop}
use mirage_kfreebsd.Values.Hash.Ends.{hash_univ_param_total}
use mirage_kfreebsd.Values.Hash.Equal.{caml_equal-hash_univ_param}
use mirage_kfreebsd.Values.Hash.Variant.{polynomial, hash_variant-polynomial}

abbrev word_ab : Block
word_ab = record { tag = string_tag; fields = []; bytes = 97 ∷ 98 ∷ [] }

-- The pair (1, "ab").
abbrev pair : Block
pair = record { tag = 0; fields = long (pos 1) ∷ ptr 8 ∷ []; bytes = [] }

-- The same pair, behind a forwarding block.
abbrev forwarded : Block
forwarded = record { tag = forward_tag; fields = ptr 0 ∷ []; bytes = [] }

abbrev no_ops : CustomOps
no_ops = record { compare = none; hash = none }

abbrev small_heap : Heap
small_heap = record {
  block = λ p.
      if p == 0
      then some pair
      else if p == 8
      then some word_ab
      else if p == 16
      then some forwarded
      else none;
  ops = λ p. no_ops;
  infix_offset = λ p. 0;
}

abbrev pair_tree : Tree
pair_tree = node 0 (cons (leaf (pos 1)) (cons (text (97 ∷ 98 ∷ [])) nil))

pair-Repr : Repr small_heap (ptr 0) pair_tree
pair-Repr = a_block pair refl (omega arith) (omega arith) (
    a_field (a_long (omega arith) (omega arith)) (
      a_field (a_string word_ab refl refl (omega arith, (omega arith, tt)) (omega arith))
        no_fields))

forwarded-Repr : Repr small_heap (ptr 16) pair_tree
forwarded-Repr = a_forward forwarded (ptr 0) refl refl refl pair-Repr

one-Repr : Repr small_heap (long (pos 1)) (leaf (pos 1))
one-Repr = a_long (omega arith) (omega arith)

abbrev always : ℕ → Bool
always n = true

pair_height : height pair_tree < 524288
unfolding height
pair_height = omega arith

caml_compare-order_example :
    (rounds : ℕ) × ((fuel : ℕ)
      → caml_compare small_heap always (ptr 0) (long (pos 1)) (rounds + fuel)
        ≡ ok (to_int (order pair_tree (leaf (pos 1)))))
caml_compare-order_example =
    caml_compare-order small_heap always (λ n. refl) pair-Repr one-Repr pair_height

caml_equal-eq_example :
    (rounds : ℕ) × (answer : Bool) × ((fuel : ℕ)
      → caml_equal small_heap always (ptr 0) (ptr 16) (rounds + fuel) ≡ ok answer)
    × ((answer ≡ true) ↔ (pair_tree ≡ pair_tree))
caml_equal-eq_example =
    caml_equal-eq small_heap always (λ n. refl) pair-Repr forwarded-Repr pair_height

caml_equal-hash_univ_param_example :
    (depth : ℕ) × (n : ℕ) × ((fuel : ℕ)
      → depth ≤ fuel
      → (hash_univ_param small_heap fuel (pos 10) (pos 100) (ptr 0) ≡ ok n)
        × (hash_univ_param small_heap fuel (pos 10) (pos 100) (ptr 16) ≡ ok n))
caml_equal-hash_univ_param_example =
    let (rounds, answer, runs, same) =
      caml_equal-eq small_heap always (λ n. refl) pair-Repr forwarded-Repr pair_height in
    caml_equal-hash_univ_param small_heap always (pos 10) (pos 100) rounds (λ n. refl) pair-Repr
      forwarded-Repr pair_height (λ fuel. runs fuel ∙ ap ok (same.1 refl))

-- A block whose only field is itself.
abbrev ring : Block
ring = record { tag = 0; fields = ptr 0 ∷ []; bytes = [] }

abbrev ring_heap : Heap
ring_heap = record {
  block = λ p. if p == 0 then some ring else none;
  ops = λ p. no_ops;
  infix_offset = λ p. 0;
}

ring_only : (p : ℕ) (b : Block) → ring_heap.block p ≡ some b → b.tag ≡ 0
ring_only zero b e = ap (λ (x : Block). x.tag) (some_inj (sym e))
ring_only (suc p) b e = absurd (ground arith)

hash_univ_param_total_example :
    (n : ℕ) × (hash_univ_param ring_heap 100 (pos 10) (pos 100) (ptr 0) ≡ ok n) × (n < 2 ^ 30)
hash_univ_param_total_example =
    hash_univ_param_total ring_heap (λ p b e k. omega (arith, ring_only p b e))
      (λ p b e k. absurd (omega (arith, ring_only p b e))) (pos 10) (pos 100) (ptr 0) 100
      (omega arith)

-- `Foo.
hash_variant-polynomial_example : hash_variant (70 ∷ 111 ∷ 111 ∷ []) ≡ (
    if ltb 0x3FFFFFFF (polynomial (70 ∷ 111 ∷ 111 ∷ []) 0 % 2 ^ 31)
    then pos (polynomial (70 ∷ 111 ∷ 111 ∷ []) 0 % 2 ^ 31) -ℤ pos (2 ^ 31)
    else pos (polynomial (70 ∷ 111 ∷ 111 ∷ []) 0 % 2 ^ 31))
hash_variant-polynomial_example = hash_variant-polynomial (70 ∷ 111 ∷ 111 ∷ [])

hash_of_foo : hash_variant (70 ∷ 111 ∷ 111 ∷ []) ≡ pos 3505894
unfolding hash_variant hash_variant_loop
hash_of_foo = refl
