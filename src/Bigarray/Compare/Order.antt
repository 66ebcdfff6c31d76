-- ===== src/Bigarray/Compare/Order.antt =====
-- `caml_ba_compare` as an order on the contents.
use mirage_kfreebsd.Base.{
  ℕ, zero, suc, ◌+◌, ◌-◌, ◌^◌, ◌++◌, ltb, length-append, ◌<◌, ◌≡◌, ◌≢◌, refl, sym, ap, ◌∙◌, inl,
  inr, List, [], ◌∷◌, Bool, true, false, none, some, arith, ◌==◌, if◌then◌else◌, length, Bool-cases,
}
use mathlib.Core.Path.{ap₂, subst}
use mirage_kfreebsd.Base.Int.{ℤ, pos, negsuc, ltb_ℤ, sub_ℕ}
use mirage_kfreebsd.Bigarray.Access.Bytes.{signed}
use mirage_kfreebsd.Bigarray.Access.{decode, read_elt}
use mirage_kfreebsd.Bigarray.{
  Kind, sint8, uint8, sint16, uint16, int32, int64, caml_int, native_int, kind_of, BaArray,
  num_dims, num_elts, mul_dims,
}
use mirage_kfreebsd.Bigarray.Compare.{
  value_of, element, compare_elements, compare_dims, is_zero, compare_contents, compare,
}

ltb_ℤ_asym : (a b : ℤ) → ltb_ℤ a b ≡ true → ltb_ℤ b a ≡ false
ltb_ℤ_asym a b h = ground arith

ltb_ℤ_total : (a b : ℤ) → ltb_ℤ a b ≡ false → ltb_ℤ b a ≡ false → a ≡ b
ltb_ℤ_total (pos a) (pos b) h k = ap pos (ground arith)
ltb_ℤ_total (pos a) (negsuc b) h k = absurd (ground arith)
ltb_ℤ_total (negsuc a) (pos b) h k = absurd (ground arith)
ltb_ℤ_total (negsuc a) (negsuc b) h k = ap negsuc (ground arith)

zero_tests :
    (p q : Bool) (x : ℤ)
    → (if p then negsuc 0 else if q then pos 1 else x) ≡ pos 0
    → (p ≡ false) × (q ≡ false) × (x ≡ pos 0)
zero_tests true q x h = cc
zero_tests false true x h = ground arith
zero_tests false false x h = (refl, refl, h)

neither :
    (e1 e2 x : ℤ)
    → (if ltb_ℤ e1 e2 then negsuc 0 else if ltb_ℤ e2 e1 then pos 1 else x) ≡ pos 0
    → (e1 ≡ e2) × (x ≡ pos 0)
neither e1 e2 x h =
    let (no_less, no_more, rest) = zero_tests (ltb_ℤ e1 e2) (ltb_ℤ e2 e1) x h in
    (ltb_ℤ_total e1 e2 no_less no_more, rest)

compare_elements_zero :
    (k : Kind) (b1 b2 : BaArray) (i left j : ℕ) (bytes : ℕ → ℕ)
    → compare_elements k b1 b2 i left bytes ≡ pos 0
    → j < left
    → element k b1 (i + j) bytes ≡ element k b2 (i + j) bytes
unfolding compare_elements
compare_elements_zero k b1 b2 i zero j bytes h hj = absurd (omega arith)
compare_elements_zero k b1 b2 i (suc left) zero bytes h hj =
    ap (λ n. element k b1 n bytes) (omega arith)
    ∙ (neither (element k b1 i bytes) (element k b2 i bytes) _ h).0
    ∙ ap (λ n. element k b2 n bytes) (omega arith)
compare_elements_zero k b1 b2 i (suc left) (suc j) bytes h hj =
    ap (λ n. element k b1 n bytes) (omega arith)
    ∙ compare_elements_zero k b1 b2 (i + 1) left j bytes
        (neither (element k b1 i bytes) (element k b2 i bytes) _ h).1 (omega arith)
    ∙ ap (λ n. element k b2 n bytes) (omega arith)

compare_dims_zero : (x y : List ℕ) → length x ≡ length y → is_zero (compare_dims x y) ≡ true → x ≡ y
unfolding compare_dims
compare_dims_zero [] [] n h = refl
compare_dims_zero [] (e ∷ y) n h = absurd (omega arith)
compare_dims_zero (d ∷ x) [] n h = absurd (omega arith)
compare_dims_zero (d ∷ x) (e ∷ y) n h =
    ap₂ (λ a l. a ∷ l) (ground arith) (compare_dims_zero x y (omega arith) (ground arith))

compare_same_dims :
    (b1 b2 : BaArray) (bytes : ℕ → ℕ)
    → length b1.dim ≡ length b2.dim
    → compare b1 b2 bytes ≡ (
        if is_zero (compare_dims b1.dim b2.dim)
        then compare_contents b1 b2 bytes
        else compare_dims b1.dim b2.dim)
unfolding compare
compare_same_dims b1 b2 bytes h = ground arith

compare_other_dims :
    (b1 b2 : BaArray) (bytes : ℕ → ℕ)
    → length b1.dim ≢ length b2.dim
    → compare b1 b2 bytes ≡ sub_ℕ (num_dims b2) (num_dims b1)
unfolding compare
compare_other_dims b1 b2 bytes h = ground arith

sub_ℕ_zero : (a b : ℕ) → sub_ℕ a b ≡ pos 0 → a ≡ b
sub_ℕ_zero a b h = ground arith

-- If `caml_ba_compare` of an array of a known kind with another gives 0, they have the same
-- dimensions and the same elements, read as that kind.
pub compare_zero :
    (b1 b2 : BaArray) (k : Kind) (j : ℕ) (bytes : ℕ → ℕ)
    → compare b1 b2 bytes ≡ pos 0
    → kind_of b1.flags ≡ some k
    → j < num_elts b1
    → (b1.dim ≡ b2.dim) × (element k b1 j bytes ≡ element k b2 j bytes)
unfolding compare_contents
compare_zero b1 b2 k j bytes h kind inside = elim (Bool-cases (length b1.dim == length b2.dim)) [
  | inl same ↦
      let h' = sym (compare_same_dims b1 b2 bytes (ground arith)) ∙ h in
      elim (Bool-cases (is_zero (compare_dims b1.dim b2.dim))) [
        | inl zero_dims ↦ (
          compare_dims_zero b1.dim b2.dim (ground arith) zero_dims,
          elements (contents (compare_dims b1.dim b2.dim) zero_dims h'),
        )
        | inr differ ↦ absurd (not_zero (compare_dims b1.dim b2.dim) differ h')
      ]
  | inr other ↦ absurd (
      ground (
        arith,
        sub_ℕ_zero (num_dims b2) (num_dims b1)
            (sym (compare_other_dims b1 b2 bytes (ground arith)) ∙ h),
      ))
]
  where
    contents :
        (c : ℤ)
        → is_zero c ≡ true
        → (if is_zero c then compare_contents b1 b2 bytes else c) ≡ pos 0
        → compare_contents b1 b2 bytes ≡ pos 0
    contents (pos zero) z h = h
    contents (pos (suc n)) z h = cc
    contents (negsuc n) z h = cc

    not_zero :
        (c : ℤ)
        → is_zero c ≡ false
        → (if is_zero c then compare_contents b1 b2 bytes else c) ≢ pos 0
    not_zero (pos zero) z h = cc
    not_zero (pos (suc n)) z h = ground arith
    not_zero (negsuc n) z h = cc

    elements : compare_contents b1 b2 bytes ≡ pos 0 → element k b1 j bytes ≡ element k b2 j bytes
    elements h =
        subst (λ n. element k b1 n bytes ≡ element k b2 n bytes) (omega arith)
          (compare_elements_zero k b1 b2 0 (num_elts b1) j bytes
            (sym (
                ap
                  (λ o. elim o [
                    | none ↦ pos 0
                    | some k ↦ compare_elements k b1 b2 0 (num_elts b1) bytes
                  ])
                  kind)
              ∙ h)
            inside)

-- The comparison reads an element as `get` does, of every kind but `caml_int`.
element-read_elt :
    (k : Kind) (b : BaArray) (i : ℕ) (bytes : ℕ → ℕ)
    → k ≢ caml_int
    → element k b i bytes ≡ read_elt k b i bytes
unfolding element read_elt value_of decode
element-read_elt sint8 b i bytes h = refl
element-read_elt uint8 b i bytes h = refl
element-read_elt sint16 b i bytes h = refl
element-read_elt uint16 b i bytes h = refl
element-read_elt int32 b i bytes h = refl
element-read_elt int64 b i bytes h = refl
element-read_elt caml_int b i bytes h = absurd (h refl)
element-read_elt native_int b i bytes h = refl

ltb_ℤ_irrefl : (a : ℤ) → ltb_ℤ a a ≡ false
ltb_ℤ_irrefl a = ground arith

compare_elements_first :
    (k : Kind) (b1 b2 : BaArray) (i left j : ℕ) (bytes : ℕ → ℕ)
    → j < left
    → ((n : ℕ) → n < i + j → element k b1 n bytes ≡ element k b2 n bytes)
    → ltb_ℤ (element k b1 (i + j) bytes) (element k b2 (i + j) bytes) ≡ true
    → (compare_elements k b1 b2 i left bytes ≡ negsuc 0)
      × (compare_elements k b2 b1 i left bytes ≡ pos 1)
unfolding compare_elements
compare_elements_first k b1 b2 i zero j bytes h same less = absurd (omega arith)
compare_elements_first k b1 b2 i (suc left) zero bytes h same less =
    let here : ltb_ℤ (element k b1 i bytes) (element k b2 i bytes) ≡ true =
      subst (λ n. ltb_ℤ (element k b1 n bytes) (element k b2 n bytes) ≡ true) (omega arith) less in
    (rw here refl, rw (ltb_ℤ_asym _ _ here, here) refl)
compare_elements_first k b1 b2 i (suc left) (suc j) bytes h same less =
    let here = same i (omega arith) in
    let none_less = ltb_ℤ_irrefl (element k b2 i bytes) in
    let (down, up) =
      compare_elements_first k b1 b2 (i + 1) left j bytes (omega arith)
        (λ n m. same n (omega arith))
        (subst (λ n. ltb_ℤ (element k b1 n bytes) (element k b2 n bytes) ≡ true) (omega arith)
          less) in
    (rw (here, none_less) down, rw (here, none_less) up)

compare_dims_self : (x : List ℕ) → compare_dims x x ≡ pos 0
unfolding compare_dims
compare_dims_self [] = refl
compare_dims_self (d ∷ x) =
    let same : (d == d) ≡ true = ground arith in rw same (compare_dims_self x)

-- Two arrays of one kind, but `caml_int`, and of the same dimensions: where their elements, as `get` reads
-- them, first differ, `caml_ba_compare` gives -1 if that of the first array is less, and 1 if the arrays
-- are swapped.
pub compare_first_element :
    (b1 b2 : BaArray) (k : Kind) (j : ℕ) (bytes : ℕ → ℕ)
    → kind_of b1.flags ≡ some k
    → kind_of b2.flags ≡ some k
    → k ≢ caml_int
    → b1.dim ≡ b2.dim
    → j < num_elts b1
    → ((n : ℕ) → n < j → read_elt k b1 n bytes ≡ read_elt k b2 n bytes)
    → ltb_ℤ (read_elt k b1 j bytes) (read_elt k b2 j bytes) ≡ true
    → (compare b1 b2 bytes ≡ negsuc 0) × (compare b2 b1 bytes ≡ pos 1)
unfolding compare_contents
compare_first_element b1 b2 k j bytes kind1 kind2 plain dims inside same less =
    let (down, up) =
      compare_elements_first k b1 b2 0 (num_elts b1) j bytes inside
        (λ n h. read b1 n ∙ same n (omega arith) ∙ sym (read b2 n)) first in
    (
      compare_same_dims b1 b2 bytes (ap length dims)
          ∙ only_contents b1 b2 dims
          ∙ rw (compare_contents, kind1) down,
      compare_same_dims b2 b1 bytes (ap length (sym dims))
          ∙ only_contents b2 b1 (sym dims)
          ∙ rw (compare_contents, kind2, sym same_count) up,
    )
  where
    read : (b : BaArray) (n : ℕ) → element k b n bytes ≡ read_elt k b n bytes
    read b n = element-read_elt k b n bytes plain

    first : ltb_ℤ (element k b1 (0 + j) bytes) (element k b2 (0 + j) bytes) ≡ true
    first =
        let from_0 : j ≡ 0 + j = omega arith in
        subst (λ n. ltb_ℤ (element k b1 n bytes) (element k b2 n bytes) ≡ true) from_0
          (rw (read b1 j, read b2 j) less)

    same_count : num_elts b1 ≡ num_elts b2
    same_count = unfold num_elts in ap (mul_dims 1) dims

    only_contents :
        (a c : BaArray)
        → a.dim ≡ c.dim
        → (if is_zero (compare_dims a.dim c.dim)
            then compare_contents a c bytes
            else compare_dims a.dim c.dim)
          ≡ compare_contents a c bytes
    only_contents a c e =
        let none_differ : compare_dims a.dim c.dim ≡ pos 0 =
          ap (λ l. compare_dims l c.dim) e ∙ compare_dims_self c.dim in
        rw none_differ refl

abbrev int64_of : ℕ → ℤ
int64_of d = if ltb d (2 ^ 63) then pos d else negsuc (2 ^ 64 - d - 1)

signed_int64 : (d : ℕ) → signed 18446744073709551616 d ≡ int64_of d
signed_int64 d = refl

less_differs :
    (d e : ℕ) → ltb_ℤ (int64_of d) (int64_of e) ≡ true → ((d == e) ≡ false) × ((e == d) ≡ false)
less_differs d e less = elim (Bool-cases (d == e)) [
  | inl same ↦
      let at : d ≡ e = ground arith in
      absurd (
        true-false (
          sym (subst (λ n. ltb_ℤ (int64_of n) (int64_of e) ≡ true) at less)
          ∙ ltb_ℤ_irrefl (int64_of e)))
  | inr other ↦ (other, ground arith)
]
  where
    true-false : true ≢ false
    true-false h = cc

compare_dims_first :
    (p x y : List ℕ) (d e : ℕ)
    → ltb_ℤ (int64_of d) (int64_of e) ≡ true
    → (compare_dims (p ++ d ∷ x) (p ++ e ∷ y) ≡ negsuc 0)
      × (compare_dims (p ++ e ∷ y) (p ++ d ∷ x) ≡ pos 1)
unfolding compare_dims
compare_dims_first [] x y d e less =
    let (other, other') = less_differs d e less in
    let more = ltb_ℤ_asym (int64_of d) (int64_of e) less in
    (
      rw (other, signed_int64 d, signed_int64 e, less) refl,
      rw (other', signed_int64 e, signed_int64 d, more) refl,
    )
compare_dims_first (a ∷ p) x y d e less =
    let same : (a == a) ≡ true = ground arith in rw same (compare_dims_first p x y d e less)

-- Two arrays of as many dimensions: where these first differ, `caml_ba_compare` gives -1 if that of the
-- first array is less, as a signed number of 64 bits, and 1 if the arrays are swapped, whatever follows.
pub compare_first_dim :
    (b1 b2 : BaArray) (p x y : List ℕ) (d e : ℕ) (bytes : ℕ → ℕ)
    → b1.dim ≡ p ++ d ∷ x
    → b2.dim ≡ p ++ e ∷ y
    → length x ≡ length y
    → ltb_ℤ (int64_of d) (int64_of e) ≡ true
    → (compare b1 b2 bytes ≡ negsuc 0) × (compare b2 b1 bytes ≡ pos 1)
compare_first_dim b1 b2 p x y d e bytes dims1 dims2 same less =
    let (down, up) = compare_dims_first p x y d e less in
    let first : compare_dims b1.dim b2.dim ≡ negsuc 0 = rw (dims1, dims2) down in
    let second : compare_dims b2.dim b1.dim ≡ pos 1 = rw (dims1, dims2) up in
    let count : length b1.dim ≡ length b2.dim =
      ap length dims1
      ∙ length-append p (d ∷ x)
      ∙ ap (λ n. length p + suc n) same
      ∙ sym (ap length dims2 ∙ length-append p (e ∷ y)) in
    (
      compare_same_dims b1 b2 bytes count ∙ rw first refl,
      compare_same_dims b2 b1 bytes (sym count) ∙ rw second refl,
    )
