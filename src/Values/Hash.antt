-- ===== src/Values/Hash.antt =====
-- hash.c: the structural hash of OCaml values, and the hash of variant tags.
pub mod Tree
pub mod Laws
pub mod Ends
pub mod Equal
pub mod Variant
use mirage_kfreebsd.Base.{
  ℕ, zero, suc, ◌+◌, ◌-◌, ◌*◌, ◌%◌, ◌^◌, List, [], ◌∷◌, reverse, Result, ok, raise, fault,
  out_of_fuel, ◌>>=◌, deref, Bool, true, false, ◌||◌, Option, none, some, ltb, leb, ◌==◌,
  if◌then◌else◌, u32, u64, take, get_elem?,
}
use mirage_kfreebsd.Base.Int.{ℤ, pos, negsuc, ◌-ℤ◌, ltb_ℤ}
use mirage_kfreebsd.Values.{
  Value, long, ptr, Block, CustomOps, Heap, forward_tag, infix_tag, object_tag, abstract_tag,
  string_tag, double_tag, double_array_tag, custom_tag, oid_val, uintnat,
}

-- `hash_accu`, `hash_univ_limit` and `hash_univ_count`. The two counters lose one at a time, and stay
-- far from the bounds of an `intnat`.
pub record Hashing : Type 0 where
  pub accu : ℕ
  pub limit : ℤ
  pub count : ℤ

-- `Combine`.
unfoldable pub combine : ℤ → Hashing → Hashing
combine new s = record s { accu = u64 (s.accu * 65599 + uintnat new) }

-- `Combine_small`.
unfoldable pub combine_small : ℕ → Hashing → Hashing
combine_small new s = record s { accu = u64 (s.accu * 19 + new) }

-- `hash_univ_count--`.
unfoldable pub counted : Hashing → Hashing
counted s = record s { count = s.count -ℤ pos 1 }

unfoldable pub combine_bytes : List ℕ → Hashing → Hashing
combine_bytes [] s = s
combine_bytes (b ∷ p) s = combine_bytes p (combine_small b s)

unfoldable pub hash_custom : CustomOps → Value → Hashing → Hashing
hash_custom ops v s = elim ops.hash [ none ↦ s | some hash ↦ combine (hash v) (counted s) ]

-- The entry of `hash_aux`; `again` is what follows its label.
unfoldable pub hash_aux : (Value → Hashing → Result Hashing) → Value → Hashing → Result Hashing
hash_aux again v s =
    let left = record s { limit = s.limit -ℤ pos 1 } in
    if ltb_ℤ left.count (pos 0) || ltb_ℤ left.limit (pos 0) then ok left else again v left

-- `while (i != 0) hash_aux(Field(obj, --i))`, on the fields from the last to the first.
unfoldable pub hash_fields :
    (Value → Hashing → Result Hashing) → List Value → Hashing → Result Hashing
hash_fields again [] s = ok s
hash_fields again (v ∷ vs) s = hash_aux again v s >>= hash_fields again vs

unfoldable pub hash_object : Block → Hashing → Result Hashing
hash_object b s = oid_val b >>= λ oid. ok (combine oid (counted s))

module _ (heap : Heap) (again : Value → Hashing → Result Hashing) where
  -- The `switch` on the tag.
  unfoldable pub hash_block : ℕ → ℕ → Block → Hashing → Result Hashing
  hash_block tag p b s =
      if tag == string_tag
      then ok (combine_bytes b.bytes (counted s))
      else if tag == double_tag
      then ok (combine_bytes (take 8 b.bytes) (counted s))
      else if tag == double_array_tag
      then ok (combine_bytes b.bytes (counted s))
      else if tag == abstract_tag
      then ok s
      else if tag == infix_tag
      then hash_aux again (ptr (p - heap.infix_offset p)) s
      else if tag == forward_tag
      then (deref (get_elem? b.fields 0) >>= λ v. again v s)
      else if tag == object_tag
      then hash_object b s
      else if tag == custom_tag
      then ok (hash_custom (heap.ops p) (ptr p) s)
      else hash_fields again (reverse b.fields) (combine_small tag (counted s))

  -- What follows the label `again`, up to the next `goto` or call.
  unfoldable pub hash_value : Value → Hashing → Result Hashing
  hash_value (long n) s = ok (combine n (counted s))
  hash_value (ptr p) s = elim (heap.block p) [
    | none ↦ ok (combine (pos p) s)
    | some b ↦ hash_block b.tag p b s
  ]

-- Calls and jumps nest at most `depth` deep.
unfoldable pub hash_again : Heap → ℕ → Value → Hashing → Result Hashing
hash_again heap zero v s = out_of_fuel
hash_again heap (suc depth) v s = hash_value heap (hash_again heap depth) v s

unfoldable pub hash_univ_param : Heap → ℕ → ℤ → ℤ → Value → Result ℕ
hash_univ_param heap depth count limit obj =
    hash_aux (hash_again heap depth) obj (record { accu = 0; limit = limit; count = count })
    >>= λ s. ok (s.accu % 2 ^ 30)

-- The loop of `caml_hash_variant`, on the bits of the `int` in `accu`.
unfoldable pub hash_variant_loop : List ℕ → ℕ → ℕ
hash_variant_loop [] accu = accu
hash_variant_loop (c ∷ tag) accu = hash_variant_loop tag (u32 (223 * accu + c))

-- The mask on the tagged word keeps 31 bits; the cast to `int32` then makes the uppermost the sign.
unfoldable pub hash_variant : List ℕ → ℤ
hash_variant tag =
    let accu = hash_variant_loop tag 0 % 2 ^ 31 in
    if ltb accu (2 ^ 30) then pos accu else negsuc (2 ^ 31 - accu - 1)
