-- ===== src/Values/Hash/Ends.antt =====
-- How deep the calls of `hash_aux` nest, on any heap: blocks may point back to themselves.
use mirage_kfreebsd.Base.{
  ℕ, zero, suc, ◌%◌, ◌^◌, ◌≡◌, ◌≢◌, ◌<◌, ◌≤◌, refl, List, [], ◌∷◌, reverse, arith, Result, ok, Bool,
  true, false, ◌||◌, Option-cases, inl, inr, if◌then◌else◌, some, ◌==◌, ==_iff,
}
use mirage_kfreebsd.Base.Int.{ℤ, pos, pos_part, ◌-ℤ◌, ltb_ℤ, leb_ℤ}
use mirage_kfreebsd.Values.{
  Value, long, ptr, Block, CustomOps, Heap, forward_tag, object_tag, oid_val, string_tag,
  double_tag, double_array_tag, abstract_tag, infix_tag, custom_tag,
}
use mirage_kfreebsd.Values.Hash.{
  Hashing, combine, combine_small, combine_bytes, counted, hash_custom, hash_aux, hash_fields,
  hash_object, hash_block, hash_value, hash_again, hash_univ_param,
}

-- A run that returns, and has not given limit back.
record Ended (run : Result Hashing) (limit : ℤ) : Type 0 where
  after : Hashing
  runs : run ≡ ok after
  less : leb_ℤ after.limit limit ≡ true

ended : (s : Hashing) → Ended (ok s) s.limit
ended s = record { after = s; runs = refl; less = ground arith }

if-Ended :
    (test : Bool) {one_run other_run : Result Hashing} {limit : ℤ}
    → (test ≡ true → Ended one_run limit)
    → (test ≡ false → Ended other_run limit)
    → Ended (if test then one_run else other_run) limit
if-Ended true one other = one refl
if-Ended false one other = other refl

limit-combine_bytes : (p : List ℕ) (s : Hashing) → (combine_bytes p s).limit ≡ s.limit
unfolding combine_bytes combine_small
limit-combine_bytes [] s = refl
limit-combine_bytes (b ∷ p) s = limit-combine_bytes p (combine_small b s)

bytes-Ended : (p : List ℕ) (s : Hashing) → Ended (ok (combine_bytes p (counted s))) s.limit
unfolding counted
bytes-Ended p s = record {
  after = combine_bytes p (counted s);
  runs = refl;
  less = rw (limit-combine_bytes p (counted s)) (ground arith);
}

custom-Ended :
    (ops : CustomOps) (v : Value) (s : Hashing) → Ended (ok (hash_custom ops v s)) s.limit
unfolding hash_custom combine counted
custom-Ended ops v s = record { after = hash_custom ops v s; runs = refl; less = ground arith }

object-Ended :
    (b : Block) (s : Hashing) {n : ℤ} → oid_val b ≡ ok n → Ended (hash_object b s) s.limit
unfolding hash_object combine counted
object-Ended b s {n} oid = record {
  after = combine n (counted s);
  runs = rw oid refl;
  less = ground arith;
}

-- `again` ends from a limit of at most `bound`, less one.
abbrev EndsBelow : (Value → Hashing → Result Hashing) → ℕ → Type 0
EndsBelow again bound =
    (v : Value) (s : Hashing) → pos_part s.limit < bound → Ended (again v s) s.limit

module _ (again : Value → Hashing → Result Hashing) (bound : ℕ) (ends : EndsBelow again bound) where
  aux-Ended :
      (v : Value) (s : Hashing) → pos_part s.limit ≤ bound → Ended (hash_aux again v s) s.limit
  unfolding hash_aux
  aux-Ended v s small =
      let left = record s { limit = s.limit -ℤ pos 1 } in
      if-Ended (ltb_ℤ left.count (pos 0) || ltb_ℤ left.limit (pos 0))
        (λ used. record { after = left; runs = refl; less = ground arith })
        (λ free.
          let rest = ends v left (ground arith) in
          record { after = rest.after; runs = rest.runs; less = ground (arith, rest.less) })

  fields-Ended :
      (vs : List Value) (s : Hashing)
      → pos_part s.limit ≤ bound
      → Ended (hash_fields again vs s) s.limit
  unfolding hash_fields
  fields-Ended [] s small = ended s
  fields-Ended (v ∷ vs) s small =
      let one = aux-Ended v s small in
      let rest = fields-Ended vs one.after (ground (arith, one.less)) in
      record {
        after = rest.after;
        runs = rw one.runs rest.runs;
        less = ground (arith, one.less, rest.less);
      }

  module _ (heap : Heap)
      (no_forward : (p : ℕ) (b : Block) → heap.block p ≡ some b → b.tag ≢ forward_tag)
      (objects : (p : ℕ) (b : Block)
        → heap.block p ≡ some b
        → b.tag ≡ object_tag
        → (n : ℤ) × (oid_val b ≡ ok n)) where
    block-Ended :
        (p : ℕ) (b : Block) (s : Hashing)
        → heap.block p ≡ some b
        → pos_part s.limit ≤ bound
        → Ended (hash_block heap again b.tag p b s) s.limit
    unfolding hash_block counted combine_small
    block-Ended p b s at small =
        if-Ended (b.tag == string_tag) (λ _. bytes-Ended b.bytes s)
          (λ _.
            if-Ended (b.tag == double_tag) (λ _. bytes-Ended _ s)
              (λ _.
                if-Ended (b.tag == double_array_tag) (λ _. bytes-Ended b.bytes s)
                  (λ _.
                    if-Ended (b.tag == abstract_tag) (λ _. ended s)
                      (λ _.
                        if-Ended (b.tag == infix_tag) (λ _. aux-Ended (ptr _) s small)
                          (λ _.
                            if-Ended (b.tag == forward_tag)
                              (λ k. absurd (no_forward p b at ((==_iff _ _).0 k)))
                              (λ _.
                                if-Ended (b.tag == object_tag)
                                  (λ k. object-Ended b s (objects p b at ((==_iff _ _).0 k)).1)
                                  (λ _.
                                    if-Ended (b.tag == custom_tag) (λ _. custom-Ended _ _ s)
                                      (λ _.
                                        fields-Ended (reverse b.fields)
                                          (combine_small b.tag (counted s)) small))))))))

    value-Ended :
        (v : Value) (s : Hashing)
        → pos_part s.limit ≤ bound
        → Ended (hash_value heap again v s) s.limit
    unfolding hash_value combine counted
    value-Ended (long n) s small = record {
      after = combine n (counted s);
      runs = refl;
      less = ground arith;
    }
    value-Ended (ptr p) s small = elim (Option-cases (heap.block p)) [
      | inl outside ↦ record {
        after = combine (pos p) s;
        runs = rw (hash_value, outside) refl;
        less = ground arith;
      }
      | inr (b, at) ↦ rw (hash_value, at) (block-Ended p b s at small)
    ]

module _ (heap : Heap)
    (no_forward : (p : ℕ) (b : Block) → heap.block p ≡ some b → b.tag ≢ forward_tag)
    (objects : (p : ℕ) (b : Block)
      → heap.block p ≡ some b
      → b.tag ≡ object_tag
      → (n : ℤ) × (oid_val b ≡ ok n)) where
  again-EndsBelow : (depth : ℕ) → EndsBelow (hash_again heap depth) depth
  unfolding hash_again
  again-EndsBelow zero v s small = absurd (omega arith)
  again-EndsBelow (suc depth) v s small =
      value-Ended (hash_again heap depth) depth (again-EndsBelow depth) heap no_forward objects v s
        (omega arith)

  -- On a heap without forwarding blocks, in which objects have their two fields, `caml_hash_univ_param`
  -- returns a number below 2^30 for every value, also a cyclic one: calls nest no deeper than the limit.
  pub hash_univ_param_total :
      (count limit : ℤ) (obj : Value) (depth : ℕ)
      → pos_part limit ≤ depth
      → (n : ℕ) × (hash_univ_param heap depth count limit obj ≡ ok n) × (n < 2 ^ 30)
  unfolding hash_univ_param
  hash_univ_param_total count limit obj depth enough =
      let start : Hashing = record { accu = 0; limit = limit; count = count } in
      let ended_run =
        aux-Ended (hash_again heap depth) depth (again-EndsBelow depth) obj start enough in
      (ended_run.after.accu % 2 ^ 30, rw ended_run.runs refl, omega arith)
