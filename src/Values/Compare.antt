-- ===== src/Values/Compare.antt =====
-- compare.c, as the kernel compiles it: without the cases of floats.
pub mod Tree
pub mod Signs
pub mod Order
pub mod Unique
pub mod Run
pub mod Rounds
pub mod Loop
pub mod Laws
use mirage_kfreebsd.Base.{
  ℕ, zero, suc, ◌+◌, ◌-◌, ◌*◌, ◌/◌, ◌^◌, ◌≡◌, List, [], ◌∷◌, Result, ok, raise, fault, out_of_fuel,
  out_of_memory, invalid_argument, ◌>>=◌, deref, Bool, true, false, not, ◌&&◌, ◌||◌, Option, none,
  some, ltb, leb, ◌==◌, if◌then◌else◌, length, get_elem?,
}
use mirage_kfreebsd.Base.Int.{ℤ, pos, negsuc, ◌-ℤ◌, ltb_ℤ, leb_ℤ, eqb_ℤ}
use mirage_kfreebsd.Values.{
  Value, long, ptr, Block, Compared, CustomOps, Heap, forward_tag, infix_tag, object_tag,
  closure_tag, abstract_tag, string_tag, custom_tag, same, intnat, half_address, oid_val,
}

-- `struct compare_item`: the fields that are still to be compared.
pub record Item : Type 0 where
  pub v1 : List Value
  pub v2 : List Value

-- `compare_resize_stack`, to the new size. `malloc` says whether so many items are given.
unfoldable pub resize_stack : (ℕ → Bool) → ℕ → Result ℕ
resize_stack malloc size =
    let newsize = 2 * size in
    if leb (1024 * 1024) newsize
    then raise out_of_memory
    else if malloc newsize
    then ok newsize
    else raise out_of_memory

abbrev pub unordered : ℤ
unordered = negsuc (2 ^ 63 - 1)

-- What a round of the loop ends with: `return`, or the next two values with the stack (`sp` down to
-- `compare_stack`) and its size.
pub data Next : Type 0 where
  answer : ℤ → Next
  again : Value → Value → List Item → ℕ → Next

-- `if (--(sp->count) == 0) sp--`.
unfoldable pub put_back : List Value → List Value → List Item → List Item
put_back [] ys sp = sp
put_back (x ∷ xs) ys sp = record { v1 = x ∷ xs; v2 = ys } ∷ sp

pop_fields : List Value → List Value → List Item → ℕ → Result Next
pop_fields (x ∷ xs) (y ∷ ys) sp size = ok (again x y (put_back xs ys sp) size)
pop_fields _ _ sp size = fault

unfoldable pub next_item : List Item → ℕ → Result Next
unfolding pop_fields
next_item [] size = ok (answer (pos 0))
next_item (item ∷ sp) size = pop_fields item.v1 item.v2 sp size

-- The loop over the bytes that both strings have; `none` when they agree.
unfoldable pub compare_bytes : List ℕ → List ℕ → Option ℤ
compare_bytes (b1 ∷ p1) (b2 ∷ p2) =
    if b1 == b2 then compare_bytes p1 p2 else some (pos b1 -ℤ pos b2)
compare_bytes _ _ = none

-- `(intnat)(len1 - len2)` for lengths.
unfoldable pub size_diff : ℕ → ℕ → ℤ
size_diff n m = intnat (pos n -ℤ pos m)

unfoldable pub compare_strings : Value → Value → Block → Block → List Item → ℕ → Result Next
compare_strings v1 v2 b1 b2 sp size =
    if same v1 v2 then next_item sp size else elim (compare_bytes b1.bytes b2.bytes) [
      | some r ↦ ok (answer r)
      | none ↦
          if length b1.bytes == length b2.bytes
          then next_item sp size
          else ok (answer (size_diff (length b1.bytes) (length b2.bytes)))
    ]

unfoldable pub compare_objects : Block → Block → List Item → ℕ → Result Next
compare_objects b1 b2 sp size = oid_val b1 >>= λ oid1. oid_val b2 >>= λ oid2.
    if eqb_ℤ oid1 oid2 then next_item sp size else ok (answer (intnat (oid1 -ℤ oid2)))

unfoldable pub compare_custom : CustomOps → Bool → Value → Value → List Item → ℕ → Result Next
compare_custom ops total v1 v2 sp size = elim ops.compare [
  | none ↦ raise (invalid_argument "equal: abstract value")
  | some compare ↦
      let r = compare v1 v2 in
      if r.unordered && not total
      then ok (answer unordered)
      else if eqb_ℤ r.res (pos 0)
      then next_item sp size
      else ok (answer r.res)
]

-- The last part of the default case: all fields but the first wait on the stack.
unfoldable pub enter_fields : (ℕ → Bool) → List Value → List Value → List Item → ℕ → Result Next
enter_fields malloc (x ∷ []) (y ∷ ys) sp size = ok (again x y sp size)
enter_fields malloc (x ∷ x' ∷ xs) (y ∷ ys) sp size =
    (if leb size (length sp + 1) then resize_stack malloc size else ok size) >>= λ room.
    ok (again x y (record { v1 = x' ∷ xs; v2 = ys } ∷ sp) room)
enter_fields malloc _ _ sp size = next_item sp size

unfoldable pub compare_fields : (ℕ → Bool) → Block → Block → List Item → ℕ → Result Next
compare_fields malloc b1 b2 sp size =
    if length b1.fields == length b2.fields
    then enter_fields malloc b1.fields b2.fields sp size
    else ok (answer (size_diff (length b1.fields) (length b2.fields)))

-- `v = Forward_val(v); continue`.
unfoldable pub follow_forward : Block → (Value → Next) → Result Next
follow_forward b next = deref (get_elem? b.fields 0) >>= λ v. ok (next v)

module _ (heap : Heap) (total : Bool) (malloc : ℕ → Bool) where
  -- Two blocks of one tag, as the `switch` branches.
  unfoldable pub compare_same_tag :
      ℕ → ℕ → Value → Value → Block → Block → List Item → ℕ → Result Next
  compare_same_tag tag p1 v1 v2 b1 b2 sp size =
      if tag == string_tag
      then compare_strings v1 v2 b1 b2 sp size
      else if tag == abstract_tag
      then raise (invalid_argument "equal: abstract value")
      else if tag == closure_tag || tag == infix_tag
      then raise (invalid_argument "equal: functional value")
      else if tag == object_tag
      then compare_objects b1 b2 sp size
      else if tag == custom_tag
      then compare_custom (heap.ops p1) total v1 v2 sp size
      else compare_fields malloc b1 b2 sp size

  unfoldable pub compare_blocks : ℕ → ℕ → Block → Block → List Item → ℕ → Result Next
  compare_blocks p1 p2 b1 b2 sp size =
      if b1.tag == forward_tag
      then follow_forward b1 (λ v1. again v1 (ptr p2) sp size)
      else if b2.tag == forward_tag
      then follow_forward b2 (λ v2. again (ptr p1) v2 sp size)
      else if b1.tag == b2.tag
      then compare_same_tag b1.tag p1 (ptr p1) (ptr p2) b1 b2 sp size
      else ok (answer (pos b1.tag -ℤ pos b2.tag))

  -- Pointers of which one at least is outside the value area.
  unfoldable pub compare_addresses : ℕ → ℕ → List Item → ℕ → Result Next
  compare_addresses p1 p2 sp size =
      if p1 == p2
      then next_item sp size
      else ok (answer (intnat (half_address p1 -ℤ half_address p2)))

  -- A number against a block.
  unfoldable pub compare_long_ptr : Value → ℕ → List Item → ℕ → Result Next
  compare_long_ptr v1 p2 sp size = elim (heap.block p2) [
    | none ↦ ok (answer (negsuc 0))
    | some b ↦
        if b.tag == forward_tag
        then follow_forward b (λ v2. again v1 v2 sp size)
        else ok (answer (negsuc 0))
  ]

  unfoldable pub compare_ptr_long : ℕ → Value → List Item → ℕ → Result Next
  compare_ptr_long p1 v2 sp size = elim (heap.block p1) [
    | none ↦ ok (answer (pos 1))
    | some b ↦
        if b.tag == forward_tag
        then follow_forward b (λ v1. again v1 v2 sp size)
        else ok (answer (pos 1))
  ]

  unfoldable pub compare_ptrs : ℕ → ℕ → List Item → ℕ → Result Next
  compare_ptrs p1 p2 sp size = elim (heap.block p1) [
    | none ↦ compare_addresses p1 p2 sp size
    | some b1 ↦ elim (heap.block p2) [
      | none ↦ compare_addresses p1 p2 sp size
      | some b2 ↦ compare_blocks p1 p2 b1 b2 sp size
    ]
  ]

  -- A round after its first test.
  unfoldable pub compare_values : Value → Value → List Item → ℕ → Result Next
  compare_values (long a) (long b) sp size =
      if eqb_ℤ a b then next_item sp size else ok (answer (intnat (a -ℤ b)))
  compare_values (long a) (ptr p) sp size = compare_long_ptr (long a) p sp size
  compare_values (ptr p) (long b) sp size = compare_ptr_long p (long b) sp size
  compare_values (ptr p) (ptr q) sp size = compare_ptrs p q sp size

  -- One round of `while (1)`.
  unfoldable pub compare_round : Value → Value → List Item → ℕ → Result Next
  compare_round v1 v2 sp size =
      if same v1 v2 && total then next_item sp size else compare_values v1 v2 sp size

  -- The loop, from what a round ended with, in a bounded number of rounds.
  unfoldable pub compare_run : Result Next → ℕ → Result ℤ
  compare_run fault fuel = fault
  compare_run out_of_fuel fuel = out_of_fuel
  compare_run (raise exn) fuel = raise exn
  compare_run (ok (answer r)) fuel = ok r
  compare_run (ok (again v1 v2 sp size)) zero = out_of_fuel
  compare_run (ok (again v1 v2 sp size)) (suc fuel) = compare_run (compare_round v1 v2 sp size) fuel

  unfoldable pub compare_val : Value → Value → ℕ → Result ℤ
  compare_val v1 v2 fuel = compare_run (ok (again v1 v2 [] 256)) fuel

module _ (heap : Heap) (malloc : ℕ → Bool) where
  unfoldable pub caml_compare : Value → Value → ℕ → Result ℤ
  caml_compare v1 v2 fuel = compare_val heap true malloc v1 v2 fuel >>= λ res.
      ok (if ltb_ℤ res (pos 0) then negsuc 0 else if ltb_ℤ (pos 0) res then pos 1 else pos 0)

  unfoldable pub caml_equal : Value → Value → ℕ → Result Bool
  caml_equal v1 v2 fuel = compare_val heap false malloc v1 v2 fuel >>= λ res. ok (eqb_ℤ res (pos 0))

  unfoldable pub caml_notequal : Value → Value → ℕ → Result Bool
  caml_notequal v1 v2 fuel =
      compare_val heap false malloc v1 v2 fuel >>= λ res. ok (not (eqb_ℤ res (pos 0)))

  unfoldable pub caml_lessthan : Value → Value → ℕ → Result Bool
  caml_lessthan v1 v2 fuel = compare_val heap false malloc v1 v2 fuel >>= λ res.
      ok (ltb_ℤ res (pos 0) && not (eqb_ℤ res unordered))

  unfoldable pub caml_lessequal : Value → Value → ℕ → Result Bool
  caml_lessequal v1 v2 fuel = compare_val heap false malloc v1 v2 fuel >>= λ res.
      ok (leb_ℤ res (pos 0) && not (eqb_ℤ res unordered))

  unfoldable pub caml_greaterthan : Value → Value → ℕ → Result Bool
  caml_greaterthan v1 v2 fuel =
      compare_val heap false malloc v1 v2 fuel >>= λ res. ok (ltb_ℤ (pos 0) res)

  unfoldable pub caml_greaterequal : Value → Value → ℕ → Result Bool
  caml_greaterequal v1 v2 fuel =
      compare_val heap false malloc v1 v2 fuel >>= λ res. ok (leb_ℤ (pos 0) res)
