-- ===== src/Values/Compare/Laws.antt =====
-- The primitives of compare.c against the order of trees.
use Prim.Native.Nat.{Ordering}
use mirage_kfreebsd.Base.{
  ℕ, ◌+◌, ◌≡◌, ◌<◌, ◌↔◌, refl, arith, ap, ok, Bool, true, false, not, ◌&&◌, if◌then◌else◌,
}
use mirage_kfreebsd.Base.Int.{ℤ, pos, negsuc, eqb_ℤ, ltb_ℤ, leb_ℤ}
use mirage_kfreebsd.Values.{Value, Heap}
use mirage_kfreebsd.Values.Compare.{
  unordered, caml_compare, caml_equal, caml_notequal, caml_lessthan, caml_lessequal,
  caml_greaterthan, caml_greaterequal,
}
use mirage_kfreebsd.Values.Compare.Tree.{Tree, order, order_ℤ, height, Repr}
use mirage_kfreebsd.Values.Compare.Signs.{IsSign}
use mirage_kfreebsd.Values.Compare.Order.{order_refl, order-eq}
use mirage_kfreebsd.Values.Compare.Loop.{compare_val-Returns}

-- The result of `compare` in OCaml.
unfoldable pub to_int : Ordering → ℤ
to_int Ordering.lt = negsuc 0
to_int Ordering.eq = pos 0
to_int Ordering.gt = pos 1

abbrev pub is_lt : Ordering → Bool
is_lt Ordering.lt = true
is_lt _ = false

abbrev pub is_gt : Ordering → Bool
is_gt Ordering.gt = true
is_gt _ = false

abbrev pub is_eq : Ordering → Bool
is_eq Ordering.eq = true
is_eq _ = false

is_eq-true : (o : Ordering) → is_eq o ≡ true → o ≡ Ordering.eq
is_eq-true Ordering.lt h = cc
is_eq-true Ordering.eq h = refl
is_eq-true Ordering.gt h = cc

sign_to_int :
    (r : ℤ) {o : Ordering}
    → IsSign r o
    → (if ltb_ℤ r (pos 0) then negsuc 0 else if ltb_ℤ (pos 0) r then pos 1 else pos 0) ≡ to_int o
unfolding order_ℤ to_int
sign_to_int r sign = rw (← sign.0) (ground arith)

sign_tests :
    (r : ℤ) {o : Ordering}
    → IsSign r o
    → (eqb_ℤ r (pos 0) ≡ is_eq o)
      × ((ltb_ℤ r (pos 0) && not (eqb_ℤ r unordered)) ≡ is_lt o)
      × ((leb_ℤ r (pos 0) && not (eqb_ℤ r unordered)) ≡ not (is_gt o))
      × (ltb_ℤ (pos 0) r ≡ is_gt o)
      × (leb_ℤ (pos 0) r ≡ not (is_lt o))
unfolding order_ℤ
sign_tests r sign = rw (← sign.0, sign.1) (ground arith)

is_eq-order : (t u : Tree) → (is_eq (order t u) ≡ true) ↔ (t ≡ u)
is_eq-order t u = (λ h. order-eq t u (is_eq-true (order t u) h), λ e. rw (e, order_refl u) refl)

module _ (heap : Heap) (malloc : ℕ → Bool) (given : (n : ℕ) → malloc n ≡ true) where
  -- On values that stand for trees, if the stack can grow and fewer than 524288 items suffice,
  -- `caml_compare` ends, and returns -1, 0 or 1 as the first tree comes before the second, is the same,
  -- or comes after it. Forwarding blocks and shared subtrees make no difference.
  pub caml_compare-order :
      {v1 v2 : Value} {t1 t2 : Tree}
      → Repr heap v1 t1
      → Repr heap v2 t2
      → height t1 < 524288
      → (rounds : ℕ) × ((fuel : ℕ)
          → caml_compare heap malloc v1 v2 (rounds + fuel) ≡ ok (to_int (order t1 t2)))
  unfolding caml_compare
  caml_compare-order r1 r2 fits =
      let c = compare_val-Returns heap true malloc given r1 r2 fits in
      (c.rounds, λ fuel. rw (c.runs fuel) (ap ok (sign_to_int c.res c.sign)))

  -- On such values `=` ends, and is true just when both stand for the same tree.
  pub caml_equal-eq :
      {v1 v2 : Value} {t1 t2 : Tree}
      → Repr heap v1 t1
      → Repr heap v2 t2
      → height t1 < 524288
      → (rounds : ℕ) × (answer : Bool) × ((fuel : ℕ)
          → caml_equal heap malloc v1 v2 (rounds + fuel) ≡ ok answer)
        × ((answer ≡ true) ↔ (t1 ≡ t2))
  unfolding caml_equal
  caml_equal-eq {t1 = t1} {t2 = t2} r1 r2 fits =
      let c = compare_val-Returns heap false malloc given r1 r2 fits in
      (
        c.rounds,
        is_eq (order t1 t2),
        λ fuel. rw (c.runs fuel) (ap ok (sign_tests c.res c.sign).0),
        is_eq-order t1 t2,
      )

  -- On such values `<>`, `<`, `<=`, `>` and `>=` end after the same number of rounds, with the answers
  -- that the order of the trees gives.
  pub comparisons-order :
      {v1 v2 : Value} {t1 t2 : Tree}
      → Repr heap v1 t1
      → Repr heap v2 t2
      → height t1 < 524288
      → (rounds : ℕ) × ((fuel : ℕ)
          → (caml_notequal heap malloc v1 v2 (rounds + fuel) ≡ ok (not (is_eq (order t1 t2))))
            × (caml_lessthan heap malloc v1 v2 (rounds + fuel) ≡ ok (is_lt (order t1 t2)))
            × (caml_lessequal heap malloc v1 v2 (rounds + fuel) ≡ ok (not (is_gt (order t1 t2))))
            × (caml_greaterthan heap malloc v1 v2 (rounds + fuel) ≡ ok (is_gt (order t1 t2)))
            × (caml_greaterequal heap malloc v1 v2 (rounds + fuel)
                ≡ ok (not (is_lt (order t1 t2)))))
  unfolding caml_notequal caml_lessthan caml_lessequal caml_greaterthan caml_greaterequal
  comparisons-order r1 r2 fits =
      let c = compare_val-Returns heap false malloc given r1 r2 fits in
      let (equal, less, most, more, least) = sign_tests c.res c.sign in
      (
        c.rounds,
        λ fuel. rw (c.runs fuel) (rw equal refl, ap ok less, ap ok most, ap ok more, ap ok least),
      )
