-- ===== src/Values/Hash/Equal.antt =====
-- Comparison and hash of OCaml values, together.
use mirage_kfreebsd.Base.{
  ℕ, ◌+◌, ◌%◌, ◌^◌, ◌≡◌, ◌<◌, ◌≤◌, refl, ap, sym, ◌∙◌, arith, ok, ok_inj, Bool, true, ◌||◌,
  Bool-cases, inl, inr, if◌then◌else◌,
}
use Prim.Native.Nat.{max}
use mirage_kfreebsd.Base.Int.{ℤ, pos, ◌-ℤ◌, ltb_ℤ}
use mirage_kfreebsd.Values.{Value, Heap}
use mirage_kfreebsd.Values.Hash.{Hashing, hash_aux, hash_univ_param}
use mirage_kfreebsd.Values.Hash.Tree.{hash_tree}
use mirage_kfreebsd.Values.Hash.Laws.{Hashes, hash_again-tree}
use mirage_kfreebsd.Values.Compare.{caml_equal}
use mirage_kfreebsd.Values.Compare.Tree.{Tree, Repr, height}
use mirage_kfreebsd.Values.Compare.Laws.{caml_equal-eq}

-- The hash of a tree: at a limit of 0, or a negative count, nothing is read.
pub tree_hash : ℤ → ℤ → Tree → ℕ
tree_hash count limit t =
    let s : Hashing = record { accu = 0; limit = limit -ℤ pos 1; count = count } in
    (if ltb_ℤ s.count (pos 0) || ltb_ℤ s.limit (pos 0) then s else hash_tree t s).accu % 2 ^ 30

module _ (heap : Heap) where
  -- `caml_hash_univ_param` on a value that stands for a tree ends, and returns the hash of the tree,
  -- wherever the value's blocks lie and whether or not they are shared or forwarded.
  pub hash_univ_param-tree :
      {v : Value} {t : Tree} (count limit : ℤ)
      → Repr heap v t
      → (depth : ℕ) × ((fuel : ℕ)
          → depth ≤ fuel
          → hash_univ_param heap fuel count limit v ≡ ok (tree_hash count limit t))
  unfolding hash_univ_param tree_hash hash_aux Hashes
  hash_univ_param-tree {v} {t} count limit r =
      let (depth, run) = hash_again-tree heap r in
      let s : Hashing = record { accu = 0; limit = limit -ℤ pos 1; count = count } in
      (
        depth,
        λ fuel enough. elim (Bool-cases (ltb_ℤ s.count (pos 0) || ltb_ℤ s.limit (pos 0))) [
          | inl used ↦ rw used refl
          | inr free ↦ rw (free, run fuel s enough) refl
        ],
      )

  -- If `=` answers that two values are equal, they have the same hash, for all limits: when `caml_equal`
  -- returns true on values that stand for trees, `caml_hash_univ_param` returns one number for both.
  pub caml_equal-hash_univ_param :
      (malloc : ℕ → Bool) {v1 v2 : Value} {t1 t2 : Tree} (count limit : ℤ) (start : ℕ)
      → ((n : ℕ) → malloc n ≡ true)
      → Repr heap v1 t1
      → Repr heap v2 t2
      → height t1 < 524288
      → ((fuel : ℕ) → caml_equal heap malloc v1 v2 (start + fuel) ≡ ok true)
      → (depth : ℕ) × (n : ℕ) × ((fuel : ℕ)
          → depth ≤ fuel
          → (hash_univ_param heap fuel count limit v1 ≡ ok n)
            × (hash_univ_param heap fuel count limit v2 ≡ ok n))
  caml_equal-hash_univ_param malloc {t1 = t1} {t2 = t2} count limit start given r1 r2 fits equal =
      let (rounds, answer, runs, same) = caml_equal-eq heap malloc given r1 r2 fits in
      let (d1, run1) = hash_univ_param-tree count limit r1 in
      let (d2, run2) = hash_univ_param-tree count limit r2 in
      let yes_answer : answer ≡ true =
        ok_inj (sym (runs start) ∙ ap (caml_equal heap malloc _ _) (omega arith) ∙ equal rounds) in
      (
        max d1 d2,
        tree_hash count limit t1,
        λ fuel enough. (
          run1 fuel (omega arith),
          run2 fuel (omega arith)
              ∙ ap (λ t. ok (tree_hash count limit t)) (sym (same.0 yes_answer)),
        ),
      )
