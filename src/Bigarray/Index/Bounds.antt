-- ===== src/Bigarray/Index/Bounds.antt =====
-- `caml_ba_offset` for an index within the bounds, and for one that is not.
use mirage_kfreebsd.Base.{
  ℕ, ◌+◌, ◌*◌, ◌≤◌, ◌<◌, ◌^◌, ◌≡◌, List, [], ◌∷◌, map, reverse, ok, raise, bound_error, false,
  arith, leb, length, if◌then◌else◌, u64, ap, ◌∙◌, Bool-cases, inl, inr,
}
use mirage_kfreebsd.Bigarray.{BaArray, is_c_layout}
use mirage_kfreebsd.Bigarray.Alloc.Multov.{product}
use mirage_kfreebsd.Bigarray.Index.{offset_loop, offset, pred64}
use mirage_kfreebsd.Bigarray.Index.Linear.{
  linear, InBounds, linear-lt, product_pos, product-reverse,
}

next_small : (acc d i p : ℕ) → i < d → (acc + 1) * (d * p) ≤ 2 ^ 64 → (acc * d + i + 1) * p ≤ 2 ^ 64
next_small acc d i p h k =
    let a : (acc * d + i + 1) * p ≤ (acc * d + d) * p = grind arith in omega (arith, a)

word_small : (n p : ℕ) → 1 ≤ p → (n + 1) * p ≤ 2 ^ 64 → n < 2 ^ 64
word_small n p h k = let a : (n + 1) * 1 ≤ (n + 1) * p = grind arith in omega (arith, a)

offset_loop-linear :
    (dim index : List ℕ) (acc : ℕ)
    → InBounds dim index
    → (acc + 1) * product dim ≤ 2 ^ 64
    → offset_loop dim index acc ≡ ok (acc * product dim + linear dim index)
unfolding offset_loop
offset_loop-linear [] [] acc h small = let e : acc ≡ acc * 1 + 0 = omega arith in ap ok e
offset_loop-linear [] (i ∷ index) acc h small = absurd h
offset_loop-linear (d ∷ dim) [] acc h small = absurd h
offset_loop-linear (d ∷ dim) (i ∷ index) acc h small =
    let small' = next_small acc d i (product dim) h.0 small in
    let word = word_small (acc * d + i) (product dim) (product_pos dim index h.1) small' in
    let inside : leb d i ≡ false = ground arith in
    let same : u64 (acc * d + i) ≡ acc * d + i = omega arith in
    rw (inside, same) (offset_loop-linear dim index (acc * d + i) h.1 small' ∙ ap ok joined)
  where
    joined :
        (acc * d + i) * product dim + linear dim index
        ≡ acc * (d * product dim) + (i * product dim + linear dim index)
    joined = omega arith

offset_loop_error :
    (dim index : List ℕ) (acc : ℕ)
    → length index ≡ length dim
    → ¬ InBounds dim index
    → offset_loop dim index acc ≡ raise bound_error
unfolding offset_loop
offset_loop_error [] [] acc same out = absurd (out tt)
offset_loop_error [] (i ∷ index) acc same out = absurd (omega arith)
offset_loop_error (d ∷ dim) [] acc same out = absurd (omega arith)
offset_loop_error (d ∷ dim) (i ∷ index) acc same out = elim (Bool-cases (leb d i)) [
  | inl over ↦ rw over
  | inr inside ↦
      rw inside
        (offset_loop_error dim index (u64 (acc * d + i)) (omega arith) (λ h. out (ground arith, h)))
]

-- The order in which the layout counts: C from the first index at 0, Fortran from the last at 1.
abbrev pub ordered_dims : BaArray → List ℕ
ordered_dims b = if is_c_layout b.flags then b.dim else reverse b.dim

abbrev pub ordered_index : BaArray → List ℕ → List ℕ
ordered_index b index = if is_c_layout b.flags then index else map pred64 (reverse index)

product-ordered_dims : (b : BaArray) → product (ordered_dims b) ≡ product b.dim
product-ordered_dims b = elim (Bool-cases (is_c_layout b.flags)) [
  | inl c ↦ rw c
  | inr fortran ↦ rw fortran (product-reverse b.dim)
]

offset-ordered :
    (b : BaArray) (index : List ℕ)
    → offset b index ≡ offset_loop (ordered_dims b) (ordered_index b index) 0
unfolding offset
offset-ordered b index = elim (Bool-cases (is_c_layout b.flags)) [
  | inl c ↦ rw c
  | inr fortran ↦ rw fortran
]

-- In either layout the offset of an element within the bounds is its position in the order of the
-- layout, which is below the number of elements; an array of up to 2^64 elements has no wrap.
pub offset-linear :
    (b : BaArray) (index : List ℕ)
    → InBounds (ordered_dims b) (ordered_index b index)
    → product b.dim ≤ 2 ^ 64
    → (offset b index ≡ ok (linear (ordered_dims b) (ordered_index b index)))
      × (linear (ordered_dims b) (ordered_index b index) < product b.dim)
offset-linear b index h small =
    let total = product-ordered_dims b in
    let lt = linear-lt (ordered_dims b) (ordered_index b index) h in
    let start : 0 * product (ordered_dims b) + linear (ordered_dims b) (ordered_index b index)
        ≡ linear (ordered_dims b) (ordered_index b index) =
      omega arith in
    (
      offset-ordered b index
          ∙ offset_loop-linear (ordered_dims b) (ordered_index b index) 0 h (omega (arith, total))
          ∙ ap ok start,
      omega (arith, total, lt),
    )

-- With as many indices as dimensions and an index out of bounds, whichever it is, the access raises and touches no element.
pub offset_out_of_bounds :
    (b : BaArray) (index : List ℕ)
    → length (ordered_index b index) ≡ length (ordered_dims b)
    → ¬ InBounds (ordered_dims b) (ordered_index b index)
    → offset b index ≡ raise bound_error
offset_out_of_bounds b index same out =
    offset-ordered b index ∙ offset_loop_error (ordered_dims b) (ordered_index b index) 0 same out
