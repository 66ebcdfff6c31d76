-- ===== src/Values/Hash/Laws.antt =====
-- `hash_aux` on values that stand for trees.
use Prim.Native.Nat.{max}
use mathlib.Core.List.{reverse-append}
use mirage_kfreebsd.Base.{
  ℕ, zero, suc, ◌≡◌, ◌<◌, ◌≤◌, refl, ap, ◌∙◌, List, [], ◌∷◌, ◌++◌, reverse, arith, Result, ok,
  raise, fault, out_of_fuel, ◌>>=◌, deref, ◌||◌, Bool-cases, inl, inr, some, get_elem?,
}
use mirage_kfreebsd.Base.Int.{ℤ, pos, ◌-ℤ◌, ltb_ℤ}
use mirage_kfreebsd.Values.{Value, long, ptr, Block, Heap, forward_tag, string_tag, closure_tag}
use mirage_kfreebsd.Values.Hash.{
  Hashing, hash_aux, hash_fields, hash_block, hash_value, hash_again, combine_small, counted,
}
use mirage_kfreebsd.Values.Hash.Tree.{hash_tree, hash_forest}
use mirage_kfreebsd.Values.Compare.Tree.{
  Tree, leaf, text, node, Forest, nil, cons, Repr, a_long, a_string, a_block, a_forward, Reprs,
  no_fields, a_field,
}

>>=_assoc :
    (m : Result Hashing) (f g h : Hashing → Result Hashing)
    → ((s : Hashing) → h s ≡ (f s >>= g))
    → (m >>= h) ≡ (m >>= f >>= g)
>>=_assoc fault f g h e = refl
>>=_assoc out_of_fuel f g h e = refl
>>=_assoc (raise exn) f g h e = refl
>>=_assoc (ok s) f g h e = e s

hash_fields-append :
    (again : Value → Hashing → Result Hashing) (xs ys : List Value) (s : Hashing)
    → hash_fields again (xs ++ ys) s ≡ (hash_fields again xs s >>= hash_fields again ys)
unfolding hash_fields
hash_fields-append again [] ys s = refl
hash_fields-append again (x ∷ xs) ys s =
    >>=_assoc (hash_aux again x s) (hash_fields again xs) (hash_fields again ys)
      (hash_fields again (xs ++ ys)) (hash_fields-append again xs ys)

-- The fields from the last to the first: the first comes at the end.
hash_fields-reverse :
    (again : Value → Hashing → Result Hashing) (x : Value) (xs : List Value) (s : Hashing)
    {s' : Hashing}
    → hash_fields again (reverse xs) s ≡ ok s'
    → hash_fields again (reverse (x ∷ xs)) s ≡ hash_aux again x s'
unfolding hash_fields
hash_fields-reverse again x xs s {s'} run =
    rw (reverse-append (x ∷ []) xs, hash_fields-append again (reverse xs) (x ∷ []) s, run)
      (last (hash_aux again x s'))
  where
    last : (m : Result Hashing) → (m >>= λ s. ok s) ≡ m
    last fault = refl
    last out_of_fuel = refl
    last (raise exn) = refl
    last (ok s) = refl

module _ (heap : Heap) where
  block_value :
      {p : ℕ} {b : Block} (again : Value → Hashing → Result Hashing) (s : Hashing)
      → heap.block p ≡ some b
      → hash_value heap again (ptr p) s ≡ hash_block heap again b.tag p b s
  unfolding hash_value
  block_value again s at = rw (hash_value, at) refl

  default_block :
      (p : ℕ) (again : Value → Hashing → Result Hashing) (b : Block) (s : Hashing)
      → b.tag < closure_tag
      → hash_block heap again b.tag p b s
        ≡ hash_fields again (reverse b.fields) (combine_small b.tag (counted s))
  unfolding hash_block
  default_block p again b s k = ground arith

  unfoldable pub Hashes : Value → Tree → ℕ → Type 0
  Hashes v t depth =
      (fuel : ℕ) (s : Hashing) → depth ≤ fuel → hash_again heap fuel v s ≡ ok (hash_tree t s)

  long-Hashes : (n : ℤ) → Hashes (long n) (leaf n) 1
  unfolding Hashes hash_again hash_value hash_tree
  long-Hashes n zero s h = absurd (omega arith)
  long-Hashes n (suc fuel) s h = refl

  string-Hashes :
      {p : ℕ} (b : Block)
      → heap.block p ≡ some b
      → b.tag ≡ string_tag
      → Hashes (ptr p) (text b.bytes) 1
  unfolding Hashes hash_again hash_tree hash_block
  string-Hashes b at k zero s h = absurd (omega arith)
  string-Hashes {p} b at k (suc fuel) s h =
      block_value (hash_again heap fuel) s at
      ∙ ap (λ tag. hash_block heap (hash_again heap fuel) tag p b s) k

  forward-Hashes :
      {p : ℕ} (t : Tree) (b : Block) (v : Value) (depth : ℕ)
      → heap.block p ≡ some b
      → b.tag ≡ forward_tag
      → get_elem? b.fields 0 ≡ some v
      → Hashes v t depth
      → Hashes (ptr p) t (suc depth)
  unfolding Hashes hash_again hash_block
  forward-Hashes t b v depth at k g run zero s h = absurd (omega arith)
  forward-Hashes {p} t b v depth at k g run (suc fuel) s h =
      block_value (hash_again heap fuel) s at
      ∙ ap (λ tag. hash_block heap (hash_again heap fuel) tag p b s) k
      ∙ ap (λ o. deref o >>= λ w. hash_again heap fuel w s) g
      ∙ run fuel s (omega arith)

  FieldsHash : List Value → Forest → ℕ → Type 0
  FieldsHash vs ts depth =
      (fuel : ℕ) (s : Hashing)
      → depth ≤ fuel
      → hash_fields (hash_again heap fuel) (reverse vs) s ≡ ok (hash_forest ts s)

  block-Hashes :
      {p : ℕ} (ts : Forest) (b : Block) (depth : ℕ)
      → heap.block p ≡ some b
      → b.tag < closure_tag
      → FieldsHash b.fields ts depth
      → Hashes (ptr p) (node b.tag ts) (suc depth)
  unfolding Hashes FieldsHash hash_again hash_tree
  block-Hashes ts b depth at k run zero s h = absurd (omega arith)
  block-Hashes {p} ts b depth at k run (suc fuel) s h =
      block_value (hash_again heap fuel) s at
      ∙ default_block p (hash_again heap fuel) b s k
      ∙ run fuel _ (omega arith)

  nil-FieldsHash : FieldsHash [] nil 0
  unfolding FieldsHash hash_fields hash_tree
  nil-FieldsHash fuel s h = refl

  cons-FieldsHash :
      (v : Value) (vs : List Value) (t : Tree) (ts : Forest) (d ds : ℕ)
      → Hashes v t d
      → FieldsHash vs ts ds
      → FieldsHash (v ∷ vs) (cons t ts) (max d ds)
  unfolding Hashes FieldsHash hash_tree hash_aux
  cons-FieldsHash v vs t ts d ds one rest fuel s h =
      let rest_hash = hash_forest ts s in
      let s' = record rest_hash { limit = rest_hash.limit -ℤ pos 1 } in
      hash_fields-reverse (hash_again heap fuel) v vs s (rest fuel s (omega arith))
      ∙ elim (Bool-cases (ltb_ℤ s'.count (pos 0) || ltb_ℤ s'.limit (pos 0))) [
        | inl done ↦ rw done refl
        | inr more ↦ rw more (one fuel s' (omega arith))
      ]

  mutual
    pub hash_again-tree : {v : Value} {t : Tree} → Repr heap v t → (depth : ℕ) × Hashes v t depth
    hash_again-tree (a_long {n} p q) = (1, long-Hashes n)
    hash_again-tree (a_string b at k l z) = (1, string-Hashes b at k)
    hash_again-tree (a_forward b v at k g r) =
        let (depth, run) = hash_again-tree r in (suc depth, forward-Hashes _ b v depth at k g run)
    hash_again-tree (a_block b at k z rs) =
        let (depth, run) = hash_fields-forest rs in (suc depth, block-Hashes _ b depth at k run)

    hash_fields-forest :
        {vs : List Value} {ts : Forest} → Reprs heap vs ts → (depth : ℕ) × FieldsHash vs ts depth
    hash_fields-forest no_fields = (0, nil-FieldsHash)
    hash_fields-forest (a_field r rs) =
        let (d, run) = hash_again-tree r in
        let (ds, runs) = hash_fields-forest rs in (max d ds, cons-FieldsHash _ _ _ _ d ds run runs)
