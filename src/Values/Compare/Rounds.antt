-- ===== src/Values/Compare/Rounds.antt =====
-- The rounds of `compare_val`, by the kinds of the two values.
use Prim.Native.Nat.{Ordering, compare}
use mirage_kfreebsd.Base.{
  ℕ, ◌+◌, ◌*◌, ◌^◌, ◌≡◌, ◌≢◌, IsBytes, ◌<◌, refl, List, some, get_elem?, arith, some_inj, sym, ◌∙◌,
  ap, ok, Bool, true, false, if◌then◌else◌, Bool-cases, Option-cases, inl, inr, length, ◌==◌, leb,
}
use mirage_kfreebsd.Base.Int.{ℤ, pos, negsuc, eqb_ℤ, ◌-ℤ◌}
use mirage_kfreebsd.Values.{
  Value, long, ptr, Block, Heap, closure_tag, forward_tag, string_tag, same,
}
use mirage_kfreebsd.Values.Compare.{
  Item, again, enter_fields, resize_stack, compare_strings, compare_bytes, compare_fields,
  compare_same_tag, compare_blocks, compare_long_ptr, compare_ptr_long, compare_ptrs,
  compare_values, follow_forward, size_diff,
}
use mirage_kfreebsd.Values.Compare.Tree.{
  Tree, order_text, order_ℤ, Repr, a_long, a_string, a_block, a_forward,
}
use mirage_kfreebsd.Values.Compare.Signs.{
  small-IsSign, size_diff-IsSign, compare_bytes-some, compare_bytes-none, compare_bytes-nonzero,
  size_diff-nonzero, compare-eq,
}
use mirage_kfreebsd.Values.Compare.Order.{order_text_refl, same-eq}
use mirage_kfreebsd.Values.Compare.Run.{finish, Compares, decides}

ptr_inj : {p q : ℕ} → ptr p ≡ ptr q → p ≡ q
ptr_inj e = cc

module _ (heap : Heap) (total : Bool) (malloc : ℕ → Bool) where
  -- A pointer that stands for a tree is in the value area.
  in_area : {p : ℕ} {t : Tree} → Repr heap (ptr p) t → (b : Block) × (heap.block p ≡ some b)
  in_area (a_string b at k s l) = (b, at)
  in_area (a_block b at k l fs) = (b, at)
  in_area (a_forward b v at k g r) = (b, at)

  ptrs-blocks :
      {p q : ℕ} (b c : Block) (sp : List Item) (size : ℕ)
      → heap.block p ≡ some b
      → heap.block q ≡ some c
      → compare_values heap total malloc (ptr p) (ptr q) sp size
        ≡ compare_blocks heap total malloc p q b c sp size
  unfolding compare_values compare_ptrs
  ptrs-blocks b c sp size hb hc = rw (compare_values, compare_ptrs, hb, hc) refl

  pub forward_left :
      {p : ℕ} {b : Block} {v w : Value} {u : Tree} (sp : List Item) (size : ℕ)
      → heap.block p ≡ some b
      → b.tag ≡ forward_tag
      → get_elem? b.fields 0 ≡ some v
      → Repr heap w u
      → compare_values heap total malloc (ptr p) w sp size ≡ ok (again v w sp size)
  unfolding compare_values compare_ptr_long compare_blocks follow_forward
  forward_left sp size at k g (a_long n m) = rw (compare_values, compare_ptr_long, at, k, g) refl
  forward_left {b = b} sp size at k g (a_string c at' k' s l) =
      rw (ptrs-blocks b c sp size at at', k, g) refl
  forward_left {b = b} sp size at k g (a_block c at' k' l fs) =
      rw (ptrs-blocks b c sp size at at', k, g) refl
  forward_left {b = b} sp size at k g (a_forward c w at' k' g' r) =
      rw (ptrs-blocks b c sp size at at', k, g) refl

  pub long-forward :
      {n : ℤ} {q : ℕ} {c : Block} {w : Value} (sp : List Item) (size : ℕ)
      → heap.block q ≡ some c
      → c.tag ≡ forward_tag
      → get_elem? c.fields 0 ≡ some w
      → compare_values heap total malloc (long n) (ptr q) sp size ≡ ok (again (long n) w sp size)
  unfolding compare_values compare_long_ptr follow_forward
  long-forward sp size at k g = rw (compare_values, compare_long_ptr, at, k, g) refl

  pub block-forward :
      {p q : ℕ} {b c : Block} {w : Value} (sp : List Item) (size : ℕ)
      → heap.block p ≡ some b
      → b.tag ≢ forward_tag
      → heap.block q ≡ some c
      → c.tag ≡ forward_tag
      → get_elem? c.fields 0 ≡ some w
      → compare_values heap total malloc (ptr p) (ptr q) sp size ≡ ok (again (ptr p) w sp size)
  unfolding compare_blocks follow_forward
  block-forward {b = b} {c = c} sp size hb other hc k g =
      let not_forward : (b.tag == forward_tag) ≡ false = ground arith in
      rw (ptrs-blocks b c sp size hb hc, not_forward, k, g) refl

  -- Against a block that is not Forward, a number is less.
  pub long-block :
      (n : ℤ) {q : ℕ} {c : Block} (sp : List Item) (size : ℕ)
      → heap.block q ≡ some c
      → c.tag ≢ forward_tag
      → length sp < size
      → Compares heap total malloc
          (compare_values heap total malloc (long n) (ptr q) sp size)
          Ordering.lt
          sp
  unfolding compare_values compare_long_ptr finish order_ℤ
  long-block n {c = c} sp size at other room =
      let not_forward : (c.tag == forward_tag) ≡ false = ground arith in
      decides heap total malloc (negsuc 0) size (refl, refl) room
        (rw (compare_values, compare_long_ptr, at, not_forward) refl)

  pub block-long :
      (n : ℤ) {p : ℕ} {b : Block} (sp : List Item) (size : ℕ)
      → heap.block p ≡ some b
      → b.tag ≢ forward_tag
      → length sp < size
      → Compares heap total malloc
          (compare_values heap total malloc (ptr p) (long n) sp size)
          Ordering.gt
          sp
  unfolding compare_values compare_ptr_long finish order_ℤ
  block-long n {b = b} sp size at other room =
      let not_forward : (b.tag == forward_tag) ≡ false = ground arith in
      decides heap total malloc (pos 1) size (refl, refl) room
        (rw (compare_values, compare_ptr_long, at, not_forward) refl)

  -- Blocks of different tags go by these.
  pub other_tags :
      {p q : ℕ} {b c : Block} (sp : List Item) (size : ℕ)
      → heap.block p ≡ some b
      → b.tag ≢ forward_tag
      → b.tag < 256
      → heap.block q ≡ some c
      → c.tag ≢ forward_tag
      → c.tag < 256
      → b.tag ≢ c.tag
      → length sp < size
      → Compares heap total malloc
          (compare_values heap total malloc (ptr p) (ptr q) sp size)
          (compare b.tag c.tag)
          sp
  unfolding compare_blocks finish
  other_tags {b = b} {c = c} sp size hb fb tb hc fc tc differ room =
      let not_b : (b.tag == forward_tag) ≡ false = ground arith in
      let not_c : (c.tag == forward_tag) ≡ false = ground arith in
      let not_same : (b.tag == c.tag) ≡ false = ground arith in
      let not_zero : eqb_ℤ (pos b.tag -ℤ pos c.tag) (pos 0) ≡ false = ground arith in
      decides heap total malloc (pos b.tag -ℤ pos c.tag) size
        (small-IsSign b.tag c.tag (omega arith) (omega arith)) room
        (rw (ptrs-blocks b c sp size hb hc, not_b, not_c, not_same, not_zero) refl)

  same_tags :
      {p q : ℕ} {b c : Block} (sp : List Item) (size : ℕ)
      → heap.block p ≡ some b
      → heap.block q ≡ some c
      → b.tag ≢ forward_tag
      → b.tag ≡ c.tag
      → compare_values heap total malloc (ptr p) (ptr q) sp size
        ≡ compare_same_tag heap total malloc b.tag p (ptr p) (ptr q) b c sp size
  unfolding compare_blocks
  same_tags {b = b} {c = c} sp size hb hc fb same_tag =
      let not_b : (b.tag == forward_tag) ≡ false = ground arith in
      let not_c : (c.tag == forward_tag) ≡ false = ground arith in
      let equal : (b.tag == c.tag) ≡ true = ground arith in
      rw (ptrs-blocks b c sp size hb hc, not_b, not_c, equal) refl

  strings :
      {p q : ℕ} {b c : Block} (sp : List Item) (size : ℕ)
      → heap.block p ≡ some b
      → IsBytes b.bytes
      → length b.bytes < 2 ^ 62
      → heap.block q ≡ some c
      → IsBytes c.bytes
      → length c.bytes < 2 ^ 62
      → length sp < size
      → Compares heap total malloc
          (compare_strings (ptr p) (ptr q) b c sp size)
          (order_text b.bytes c.bytes)
          sp
  unfolding finish order_ℤ compare_strings
  strings {p} {q} {b} {c} sp size hb sb lb hc sc lc room =
      elim (Bool-cases (same (ptr p) (ptr q))) [
        | inl twice ↦
            let equal : b.bytes ≡ c.bytes =
              ap (λ (x : Block). x.bytes)
                (some_inj
                  (sym hb ∙ ap heap.block (ptr_inj (same-eq (ptr p) (ptr q) twice)) ∙ hc)) in
            decides heap total malloc (pos 0) size
              (rw (equal, order_text_refl c.bytes) (refl, refl)) room
              (rw (compare_strings, twice) refl)
        | inr apart ↦ elim (Option-cases (compare_bytes b.bytes c.bytes)) [
          | inr (r, found) ↦
              decides heap total malloc r size (compare_bytes-some b.bytes c.bytes r sb sc found)
                room
                (rw (compare_strings, apart, found, compare_bytes-nonzero b.bytes c.bytes r found)
                  refl)
          | inl none_found ↦
              let by_size = compare_bytes-none b.bytes c.bytes none_found in
              elim (Bool-cases (length b.bytes == length c.bytes)) [
                | inl equal ↦
                    decides heap total malloc (pos 0) size
                      (rw (by_size, compare-eq _ _ equal) (refl, refl)) room
                      (rw (compare_strings, apart, none_found, equal) refl)
                | inr differ ↦
                    decides heap total malloc (size_diff (length b.bytes) (length c.bytes)) size
                      (rw by_size (size_diff-IsSign _ _ lb lc)) room
                      (rw
                        (
                          compare_strings,
                          apart,
                          none_found,
                          differ,
                          size_diff-nonzero _ _ lb lc differ,
                        )
                        refl)
              ]
        ]
      ]

  pub two_strings :
      {p q : ℕ} {b c : Block} (sp : List Item) (size : ℕ)
      → heap.block p ≡ some b
      → b.tag ≡ string_tag
      → IsBytes b.bytes
      → length b.bytes < 2 ^ 62
      → heap.block q ≡ some c
      → c.tag ≡ string_tag
      → IsBytes c.bytes
      → length c.bytes < 2 ^ 62
      → length sp < size
      → Compares heap total malloc
          (compare_values heap total malloc (ptr p) (ptr q) sp size)
          (order_text b.bytes c.bytes)
          sp
  unfolding compare_same_tag compare_strings
  two_strings {b = b} {c = c} sp size hb kb sb lb hc kc sc lc room =
      rw (same_tags sp size hb hc (omega arith) (kb ∙ sym kc), kb)
        (strings sp size hb sb lb hc sc lc room)

  pub two_blocks :
      {p q : ℕ} {b c : Block} (sp : List Item) (size : ℕ)
      → heap.block p ≡ some b
      → heap.block q ≡ some c
      → b.tag < closure_tag
      → b.tag ≡ c.tag
      → length b.fields ≡ length c.fields
      → compare_values heap total malloc (ptr p) (ptr q) sp size
        ≡ enter_fields malloc b.fields c.fields sp size
  unfolding compare_same_tag compare_fields
  two_blocks {b = b} {c = c} sp size hb hc small same_tag same_size =
      let equal : (length b.fields == length c.fields) ≡ true = ground arith in
      rw (same_tags sp size hb hc (ground arith) same_tag) (ground arith)

  -- Blocks of one tag and different sizes go by these.
  pub other_sizes :
      {p q : ℕ} {b c : Block} (sp : List Item) (size : ℕ)
      → heap.block p ≡ some b
      → heap.block q ≡ some c
      → b.tag < closure_tag
      → b.tag ≡ c.tag
      → length b.fields < 2 ^ 62
      → length c.fields < 2 ^ 62
      → (length b.fields == length c.fields) ≡ false
      → length sp < size
      → Compares heap total malloc
          (compare_values heap total malloc (ptr p) (ptr q) sp size)
          (compare (length b.fields) (length c.fields))
          sp
  unfolding compare_same_tag compare_fields finish
  other_sizes {b = b} {c = c} sp size hb hc small same_tag lb lc differ room =
      decides heap total malloc (size_diff (length b.fields) (length c.fields)) size
        (size_diff-IsSign _ _ lb lc) room
        (rw (same_tags sp size hb hc (omega arith) same_tag, size_diff-nonzero _ _ lb lc differ)
          (ground arith))

  -- The stack has room for one more item, up to its largest size.
  pub grown :
      (sp : List Item) (size : ℕ)
      → ((n : ℕ) → malloc n ≡ true)
      → length sp < size
      → length sp + 1 < 524288
      → (room : ℕ) × (length sp + 1 < room)
        × ((if leb size (length sp + 1) then resize_stack malloc size else ok size) ≡ ok room)
  unfolding resize_stack
  grown sp size given room fits = elim (Bool-cases (leb size (length sp + 1))) [
    | inl full ↦
        let may : leb (1024 * 1024) (2 * size) ≡ false = ground arith in
        (2 * size, ground arith, rw (full, may, given (2 * size)) refl)
    | inr free ↦ (size, ground arith, rw free refl)
  ]
