-- ===== src/Values/Compare/Loop.antt =====
-- The loop of `compare_val` on trees.
use Prim.Native.Nat.{Ordering, compare}
use mathlib.Core.Path.{subst}
use mirage_kfreebsd.Base.{
  ℕ, suc, ◌+◌, ◌^◌, ◌≡◌, ◌≢◌, ◌<◌, ◌≤◌, refl, List, [], ◌∷◌, some, arith, sym, ◌∙◌, ap, Result, ok,
  Bool, true, Bool-cases, inl, inr, length, ◌==◌,
}
use mirage_kfreebsd.Base.Int.{ℤ, pos_part, neg_part, pos, eqb_ℤ, ◌-ℤ◌}
use mirage_kfreebsd.Values.{Value, long, ptr, Block, Heap, closure_tag, intnat}
use mirage_kfreebsd.Values.Compare.{
  Item, Next, again, put_back, next_item, enter_fields, compare_values, compare_run, compare_val,
}
use mirage_kfreebsd.Values.Compare.Tree.{
  Tree, node, Forest, order, order_forest, forest_length, then_by, height, height_forest, order_ℤ,
  Repr, a_long, a_string, a_block, a_forward, Reprs, no_fields, a_field,
}
use mirage_kfreebsd.Values.Compare.Signs.{IsSign, long-IsSign, long-nonzero, compare-eq}
use mirage_kfreebsd.Values.Compare.Run.{
  finish, Compares, decides, one_round, same_first, next_after,
}
use mirage_kfreebsd.Values.Compare.Rounds.{
  forward_left, long-forward, block-forward, long-block, block-long, other_tags, two_strings,
  two_blocks, other_sizes, grown,
}

pub Reprs-length :
    {heap : Heap} {vs : List Value} {ts : Forest} → Reprs heap vs ts → length vs ≡ forest_length ts
unfolding forest_length
Reprs-length no_fields = refl
Reprs-length (a_field r rs) = ap suc (Reprs-length rs)

then_by_refl : (o : Ordering) → then_by o Ordering.eq ≡ o
then_by_refl Ordering.lt = refl
then_by_refl Ordering.eq = refl
then_by_refl Ordering.gt = refl

other-then_by : {a b : ℕ} (o : Ordering) → a ≢ b → then_by (compare a b) o ≡ compare a b
other-then_by o differ = ground arith

equal-compare : {a b : ℕ} → a ≡ b → compare a b ≡ Ordering.eq
equal-compare e = ground arith

-- The first fields, with the others on the stack, and how many items that makes.
start_fields : List Value → List Value → List Item → ℕ → Result Next
start_fields (x ∷ xs) (y ∷ ys) sp size = ok (again x y (put_back xs ys sp) size)
start_fields _ _ sp size = next_item sp size

abbrev waiting : List Value → List Item → ℕ
waiting [] sp = length sp
waiting (x ∷ []) sp = length sp
waiting (x ∷ y ∷ xs) sp = suc (length sp)

waiting-put_back :
    (x : Value) (xs ys : List Value) (sp : List Item) {size : ℕ}
    → length (put_back xs ys sp) < size
    → waiting (x ∷ xs) sp < size
unfolding put_back
waiting-put_back z [] ys sp h = h
waiting-put_back z (x ∷ xs) ys sp h = h

zero_only : (r : ℤ) → eqb_ℤ r (pos 0) ≡ true → pos 0 ≡ r
zero_only r none_first = ground arith

module _ (heap : Heap) (total : Bool) (malloc : ℕ → Bool) (given : (n : ℕ) → malloc n ≡ true) where
  enter :
      {v1 v2 : Value} {t1 t2 : Tree} (sp : List Item) (size : ℕ)
      → Repr heap v1 t1
      → Repr heap v2 t2
      → length sp < size
      → Compares heap total malloc (compare_values heap total malloc v1 v2 sp size) (order t1 t2) sp
      → Compares heap total malloc (ok (again v1 v2 sp size)) (order t1 t2) sp
  enter sp size r1 r2 room c =
      one_round heap total malloc (same_first heap total malloc sp size r1 r2 room c)

  two_longs :
      (a b : ℤ) (sp : List Item) (size : ℕ)
      → pos_part a < 2 ^ 62
      → neg_part a ≤ 2 ^ 62
      → pos_part b < 2 ^ 62
      → neg_part b ≤ 2 ^ 62
      → length sp < size
      → Compares heap total malloc
          (compare_values heap total malloc (long a) (long b) sp size)
          (order_ℤ a b)
          sp
  unfolding finish order_ℤ compare_values
  two_longs a b sp size pa na pb nb room = elim (Bool-cases (eqb_ℤ a b)) [
    | inl equal ↦
        let none_first : order_ℤ a b ≡ Ordering.eq = ground arith in
        decides heap total malloc (pos 0) size (rw none_first (refl, refl)) room (rw equal refl)
    | inr differ ↦
        decides heap total malloc (intnat (a -ℤ b)) size (long-IsSign a b pa na pb nb) room
          (rw (differ, long-nonzero a b pa na pb nb differ) refl)
  ]

  -- Blocks whose tags are below those of the special blocks, from their fields.
  blocks :
      {p q : ℕ} {b c : Block} {ts us : Forest} (sp : List Item) (size : ℕ)
      → heap.block p ≡ some b
      → b.tag < closure_tag
      → length b.fields < 2 ^ 62
      → Reprs heap b.fields ts
      → heap.block q ≡ some c
      → c.tag < closure_tag
      → length c.fields < 2 ^ 62
      → Reprs heap c.fields us
      → length sp < size
      → (forest_length ts ≡ forest_length us
          → Compares heap total malloc
              (enter_fields malloc b.fields c.fields sp size)
              (order_forest ts us)
              sp)
      → Compares heap total malloc
          (compare_values heap total malloc (ptr p) (ptr q) sp size)
          (order (node b.tag ts) (node c.tag us))
          sp
  unfolding order
  blocks {b = b} {c = c} sp size hb tb lb rb hc tc lc rc room inside =
      elim (Bool-cases (b.tag == c.tag)) [
        | inr differ ↦ rw (other-then_by {a = b.tag} {b = c.tag} _ (ground arith)) (
            other_tags heap total malloc sp size hb (omega arith) (omega arith) hc (omega arith)
              (omega arith) (ground arith) room)
        | inl one_tag ↦
            rw (compare-eq b.tag c.tag one_tag, ← Reprs-length rb, ← Reprs-length rc)
              (elim (Bool-cases (length b.fields == length c.fields)) [
                | inr differ ↦
                    rw (other-then_by {a = length b.fields} {b = length c.fields} _ (ground arith))
                      (other_sizes heap total malloc sp size hb hc tb (ground arith) lb lc differ
                        room)
                | inl one_size ↦
                    rw
                      (
                        compare-eq _ _ one_size,
                        two_blocks heap total malloc sp size hb hc tb (ground arith) (ground arith),
                      )
                      (inside (sym (Reprs-length rb) ∙ ground arith ∙ Reprs-length rc))
              ])
      ]

  -- The stack has grown where the first field is not the last.
  entered :
      {vs ws : List Value} {ts us : Forest} (sp : List Item) (size : ℕ)
      → Reprs heap vs ts
      → Reprs heap ws us
      → forest_length ts ≡ forest_length us
      → length sp < size
      → length sp + height_forest ts < 524288
      → (full : ℕ) × (waiting vs sp < full)
        × (enter_fields malloc vs ws sp size ≡ start_fields vs ws sp full)
  unfolding enter_fields start_fields height forest_length put_back
  entered sp size no_fields no_fields n room fits = (size, room, refl)
  entered sp size no_fields (a_field r' rs') n room fits = absurd (omega arith)
  entered sp size (a_field r rs) no_fields n room fits = absurd (omega arith)
  entered sp size (a_field r no_fields) (a_field r' no_fields) n room fits = (size, room, refl)
  entered sp size (a_field r no_fields) (a_field r' (a_field q' qs')) n room fits =
      absurd (omega arith)
  entered sp size (a_field r (a_field q qs)) (a_field r' no_fields) n room fits =
      absurd (omega arith)
  entered sp size (a_field r (a_field q qs)) (a_field r' (a_field q' qs')) n room fits =
      let (full, more, run) = grown heap total malloc sp size given room (omega arith) in
      (full, omega arith, rw run refl)

  in_order :
      {start : Result Next} {o o' : Ordering} {sp : List Item}
      → o ≡ o'
      → Compares heap total malloc start o sp
      → Compares heap total malloc start o' sp
  in_order {start} {sp = sp} = subst (λ o. Compares heap total malloc start o sp)

  mutual
    unfolding order height forest_length put_back start_fields finish order_ℤ

    values :
        {v1 v2 : Value} {t1 t2 : Tree} (sp : List Item) (size : ℕ)
        → Repr heap v1 t1
        → Repr heap v2 t2
        → length sp < size
        → length sp + height t1 < 524288
        → Compares heap total malloc
            (compare_values heap total malloc v1 v2 sp size)
            (order t1 t2)
            sp
    values sp size (a_long p n) (a_long p' n') room fits = two_longs _ _ sp size p n p' n' room
    values sp size (a_long p n) (a_string c at k s l) room fits =
        long-block heap total malloc _ sp size at (omega arith) room
    values sp size (a_long p n) (a_block c at k l rs) room fits =
        long-block heap total malloc _ sp size at (omega arith) room
    values sp size (a_long p n) (a_forward c w at k g r) room fits =
        rw (long-forward heap total malloc sp size at k g)
          (enter sp size (a_long p n) r room (values sp size (a_long p n) r room fits))
    values sp size (a_forward b v at k g r) r2 room fits =
        rw (forward_left heap total malloc sp size at k g r2)
          (enter sp size r r2 room (values sp size r r2 room fits))
    values sp size (a_string b at k s l) (a_long p n) room fits =
        block-long heap total malloc _ sp size at (omega arith) room
    values sp size (a_block b at k l rs) (a_long p n) room fits =
        block-long heap total malloc _ sp size at (omega arith) room
    values sp size (a_string b at k s l) (a_forward c w at' k' g r) room fits =
        rw (block-forward heap total malloc sp size at (omega arith) at' k' g) (
          enter sp size (a_string b at k s l) r room
            (values sp size (a_string b at k s l) r room fits))
    values sp size (a_block b at k l rs) (a_forward c w at' k' g r) room fits =
        rw (block-forward heap total malloc sp size at (omega arith) at' k' g) (
          enter sp size (a_block b at k l rs) r room
            (values sp size (a_block b at k l rs) r room fits))
    values sp size (a_string b at k s l) (a_string c at' k' s' l') room fits =
        two_strings heap total malloc sp size at k s l at' k' s' l' room
    values sp size (a_string b at k s l) (a_block c at' k' l' rs) room fits =
        let later : compare b.tag c.tag ≡ Ordering.gt = ground arith in
        in_order later (
          other_tags heap total malloc sp size at (omega arith) (omega arith) at' (omega arith)
            (omega arith) (λ e. omega (arith, e)) room)
    values sp size (a_block b at k l rs) (a_string c at' k' s l') room fits =
        let first : compare b.tag c.tag ≡ Ordering.lt = ground arith in
        in_order first (
          other_tags heap total malloc sp size at (omega arith) (omega arith) at' (omega arith)
            (omega arith) (λ e. omega (arith, e)) room)
    values sp size (a_block b at k l rs) (a_block c at' k' l' rs') room fits =
        blocks sp size at k l rs at' k' l' rs' room (λ n.
          let (full, more, run) = entered sp size rs rs' n room fits in
          rw run (fields sp full rs rs' n more fits))

    fields :
        {vs ws : List Value} {ts us : Forest} (sp : List Item) (size : ℕ)
        → Reprs heap vs ts
        → Reprs heap ws us
        → forest_length ts ≡ forest_length us
        → waiting vs sp < size
        → length sp + height_forest ts < 524288
        → Compares heap total malloc (start_fields vs ws sp size) (order_forest ts us) sp
    fields sp size no_fields no_fields n room fits =
        decides heap total malloc (pos 0) size (refl, refl) room refl
    fields sp size no_fields (a_field r' rs') n room fits = absurd (omega arith)
    fields sp size (a_field r rs) no_fields n room fits = absurd (omega arith)
    fields sp size (a_field r no_fields) (a_field r' no_fields) n room fits =
        rw (then_by_refl (order _ _)) (enter sp size r r' room (values sp size r r' room fits))
    fields sp size (a_field r no_fields) (a_field r' (a_field q' qs')) n room fits =
        absurd (omega arith)
    fields sp size (a_field r (a_field q qs)) (a_field r' no_fields) n room fits =
        absurd (omega arith)
    fields sp size (a_field r (a_field q qs)) (a_field r' (a_field q' qs')) n room fits =
        next_after heap total malloc
          (enter _ size r r' room (values _ size r r' room (omega arith)))
          (λ full more.
            fields sp full (a_field q qs) (a_field q' qs') (omega arith)
              (waiting-put_back (ptr 0) _ _ sp more) (omega arith))

  -- `compare_val` returns a result with the sign of the order of the trees, after enough rounds.
  pub record Returns (v1 v2 : Value) (o : Ordering) : Type 0 where
    pub rounds : ℕ
    pub res : ℤ
    pub sign : IsSign res o
    pub runs : (fuel : ℕ) → compare_val heap total malloc v1 v2 (rounds + fuel) ≡ ok res

  pub compare_val-Returns :
      {v1 v2 : Value} {t1 t2 : Tree}
      → Repr heap v1 t1
      → Repr heap v2 t2
      → height t1 < 524288
      → Returns v1 v2 (order t1 t2)
  unfolding compare_val finish next_item compare_run
  compare_val-Returns r1 r2 fits =
      let c = enter [] 256 r1 r2 (omega arith) (values [] 256 r1 r2 (omega arith) (omega arith)) in
      elim (Bool-cases (eqb_ℤ c.res (pos 0))) [
        | inl equal ↦ record {
          rounds = c.rounds;
          res = c.res;
          sign = c.sign;
          runs = λ fuel. rw (c.runs fuel, equal) (ap ok (zero_only c.res equal));
        }
        | inr differ ↦ record {
          rounds = c.rounds;
          res = c.res;
          sign = c.sign;
          runs = λ fuel. rw (c.runs fuel, differ) refl;
        }
      ]
