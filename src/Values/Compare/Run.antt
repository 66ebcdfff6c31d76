-- ===== src/Values/Compare/Run.antt =====
-- The loop of `compare_val` on values that stand for trees.
use Prim.Native.Nat.{Ordering}
use native.Mathlib.Nat.{add_assoc}
use mirage_kfreebsd.Base.{
  ℕ, suc, ◌+◌, ◌≡◌, ◌<◌, refl, List, [], ◌∷◌, arith, Result, ok, Bool, ◌&&◌, if◌then◌else◌,
  Bool-cases, inl, inr, length,
}
use mirage_kfreebsd.Base.Int.{ℤ, pos, eqb_ℤ}
use mirage_kfreebsd.Values.{Value, Heap, same}
use mirage_kfreebsd.Values.Compare.{
  Item, Next, answer, again, put_back, next_item, compare_values, compare_round, compare_run,
}
use mirage_kfreebsd.Values.Compare.Tree.{Tree, order, then_by, order_ℤ, Repr}
use mirage_kfreebsd.Values.Compare.Signs.{IsSign, zero-eq, nonzero-then_by}
use mirage_kfreebsd.Values.Compare.Order.{order_refl, same-eq}
use mirage_kfreebsd.Values.Compare.Unique.{Repr-unique}

-- After a comparison whose result is r, with the stack as it was.
unfoldable pub finish : ℤ → List Item → ℕ → Result Next
finish r sp size = if eqb_ℤ r (pos 0) then next_item sp size else ok (answer r)

put_back-length :
    (xs ys : List Value) (sp : List Item) {size : ℕ}
    → suc (length sp) < size
    → length (put_back xs ys sp) < size
unfolding put_back
put_back-length [] ys sp h = omega arith
put_back-length (x ∷ xs) ys sp h = h

module _ (heap : Heap) (total : Bool) (malloc : ℕ → Bool) where
  -- From `start` the loop compares what has the order o, and goes on with the stack.
  pub record Compares (start : Result Next) (o : Ordering) (sp : List Item) : Type 0 where
    pub rounds : ℕ
    pub res : ℤ
    pub sign : IsSign res o
    pub new_size : ℕ
    pub room : length sp < new_size
    pub runs :
        (fuel : ℕ)
        → compare_run heap total malloc start (rounds + fuel)
          ≡ compare_run heap total malloc (finish res sp new_size) fuel

  -- A round that decides.
  pub decides :
      {start : Result Next} {o : Ordering} {sp : List Item} (r : ℤ) (size : ℕ)
      → IsSign r o
      → length sp < size
      → start ≡ finish r sp size
      → Compares start o sp
  decides r size sign room e = record {
    rounds = 0;
    res = r;
    sign = sign;
    new_size = size;
    room = room;
    runs = λ fuel. let none_left : 0 + fuel ≡ fuel = omega arith in rw (none_left, e) refl;
  }

  -- A round that goes on with other values.
  pub one_round :
      {o : Ordering} {sp : List Item} {v1 v2 : Value} {stack : List Item} {size : ℕ}
      → Compares (compare_round heap total malloc v1 v2 stack size) o sp
      → Compares (ok (again v1 v2 stack size)) o sp
  unfolding compare_run
  one_round c = record {
    rounds = suc c.rounds;
    res = c.res;
    sign = c.sign;
    new_size = c.new_size;
    room = c.room;
    runs = λ fuel.
        let one_more : suc c.rounds + fuel ≡ suc (c.rounds + fuel) = omega arith in
        rw one_more (c.runs fuel);
  }

  -- A round starts with the test for the same word.
  pub same_first :
      {v1 v2 : Value} {t1 t2 : Tree} (sp : List Item) (size : ℕ)
      → Repr heap v1 t1
      → Repr heap v2 t2
      → length sp < size
      → Compares (compare_values heap total malloc v1 v2 sp size) (order t1 t2) sp
      → Compares (compare_round heap total malloc v1 v2 sp size) (order t1 t2) sp
  unfolding compare_round finish order_ℤ
  same_first {v1} {v2} {t1} {t2} sp size r1 r2 room c = elim (Bool-cases (same v1 v2 && total)) [
    | inl twice ↦
        let equal : t1 ≡ t2 = Repr-unique heap r1 (rw (same-eq v1 v2 (ground arith)) r2) in
        decides (pos 0) size (rw (equal, order_refl t2) (refl, refl)) room (rw twice refl)
    | inr apart ↦ rw apart c
  ]

  -- The comparison goes on after one that found no difference, or ends.
  pub next_after :
      {start : Result Next} {o o' : Ordering} {x y : Value} {xs ys : List Value} {sp : List Item}
      → (c : Compares start o (record { v1 = x ∷ xs; v2 = y ∷ ys } ∷ sp))
      → ((size : ℕ)
          → length (put_back xs ys sp) < size
          → Compares (ok (again x y (put_back xs ys sp) size)) o' sp)
      → Compares start (then_by o o') sp
  unfolding finish next_item
  next_after {o = o} {o' = o'} {xs = xs} {ys = ys} {sp = sp} c rest =
      elim (Bool-cases (eqb_ℤ c.res (pos 0))) [
        | inl equal ↦
            let d = rest c.new_size (put_back-length xs ys sp c.room) in
            rw (zero-eq c.res c.sign equal) (record {
              rounds = c.rounds + d.rounds;
              res = d.res;
              sign = d.sign;
              new_size = d.new_size;
              room = d.room;
              runs = λ fuel.
                  rw (add_assoc c.rounds d.rounds fuel, c.runs (d.rounds + fuel), equal)
                    (d.runs fuel);
            })
        | inr apart ↦ rw (nonzero-then_by c.res o' c.sign apart) (record {
          rounds = c.rounds;
          res = c.res;
          sign = c.sign;
          new_size = c.new_size;
          room = omega (arith, c.room);
          runs = λ fuel. rw (c.runs fuel, apart) refl;
        })
      ]
