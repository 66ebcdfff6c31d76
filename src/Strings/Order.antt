-- ===== src/Strings/Order.antt =====
-- `caml_string_compare` against the order of a dictionary.
use Prim.Native.Nat.{Ordering, compare, min}
use mathlib.Core.List.{append_assoc}
use mirage_kfreebsd.Base.{
  ℕ, zero, suc, ◌≡◌, refl, ap, sym, List, [], ◌∷◌, ◌++◌, ok, not, Bool-cases, inl, inr, length,
  replicate, arith, leb, ◌==◌, ==_iff, if◌then◌else◌,
}
use mirage_kfreebsd.Base.Int.{pos, ltb_ℤ, leb_ℤ}
use mirage_kfreebsd.Values.Compare.Tree.{order_text, order_ℤ, then_by}
use mirage_kfreebsd.Values.Compare.Order.{order_text_refl}
use mirage_kfreebsd.Values.Compare.Laws.{to_int, is_lt, is_gt}
use mirage_kfreebsd.Strings.{
  StringBlock, memcmp, compare_contents, string_compare, string_lessthan, string_lessequal,
  string_greaterthan, string_greaterequal,
}
use mirage_kfreebsd.Strings.Padding.{Holds, string_length-Holds}
use mirage_kfreebsd.Strings.Equal.{contents_unique}

-- The bytes that both have come first, then the lengths.
memcmp-order_text :
    (c d x y : List ℕ) (n : ℕ)
    → n ≡ min (length c) (length d)
    → order_text c d
      ≡ then_by (order_ℤ (memcmp n (c ++ x) (d ++ y)) (pos 0)) (compare (length c) (length d))
unfolding memcmp order_text order_ℤ
memcmp-order_text [] [] x y zero e = ground arith
memcmp-order_text [] (b ∷ d) x y zero e = ground arith
memcmp-order_text (a ∷ c) [] x y zero e = ground arith
memcmp-order_text (a ∷ c) (b ∷ d) x y zero e = absurd (omega arith)
memcmp-order_text [] d x y (suc n) e = absurd (omega arith)
memcmp-order_text (a ∷ c) [] x y (suc n) e = absurd (omega arith)
memcmp-order_text (a ∷ c) (b ∷ d) x y (suc n) e = ground (arith, memcmp-order_text c d x y n)

compare_contents-to_int :
    (len1 len2 : ℕ) (p1 p2 : List ℕ)
    → compare_contents len1 len2 p1 p2
      ≡ to_int (
          then_by
            (order_ℤ (memcmp (if leb len1 len2 then len1 else len2) p1 p2) (pos 0))
            (compare len1 len2))
unfolding compare_contents to_int order_ℤ
compare_contents-to_int len1 len2 p1 p2 = ground arith

to_int-eq : pos 0 ≡ to_int Ordering.eq
unfolding to_int
to_int-eq = refl

tests :
    (o : Ordering)
    → (ok (ltb_ℤ (to_int o) (pos 0)) ≡ ok (is_lt o))
      × (ok (leb_ℤ (to_int o) (pos 0)) ≡ ok (not (is_gt o)))
      × (ok (ltb_ℤ (pos 0) (to_int o)) ≡ ok (is_gt o))
      × (ok (leb_ℤ (pos 0) (to_int o)) ≡ ok (not (is_lt o)))
unfolding to_int
tests Ordering.lt = (refl, refl, refl, refl)
tests Ordering.eq = (refl, refl, refl, refl)
tests Ordering.gt = (refl, refl, refl, refl)

order_text-contents :
    {s t c d : List ℕ}
    → Holds s c
    → Holds t d
    → compare_contents (length c) (length d) s t ≡ to_int (order_text c d)
order_text-contents {c = c} {d = d} one other =
    let pad = replicate {A = ℕ} one.padding 0 in
    let pad' = replicate {A = ℕ} other.padding 0 in
    let n = if leb (length c) (length d) then length c else length d in
    rw
      (
        compare_contents-to_int (length c) (length d) _ _,
        one.layout,
        other.layout,
        append_assoc c pad (one.padding ∷ []),
        append_assoc d pad' (other.padding ∷ []),
      )
      (ap to_int (
        sym (
          memcmp-order_text c d (pad ++ one.padding ∷ []) (pad' ++ other.padding ∷ []) n
            (ground arith))))

-- `caml_string_compare` returns -1, 0 or 1 as the contents of the first string come before those of the
-- second in the order of a dictionary, are the same, or come after them; so it agrees with the
-- polymorphic `caml_compare` on strings.
pub string_compare-order_text :
    (s t : StringBlock) {c d : List ℕ}
    → Holds s.bytes c
    → Holds t.bytes d
    → (s.addr ≡ t.addr → s.bytes ≡ t.bytes)
    → string_compare s t ≡ ok (to_int (order_text c d))
unfolding string_compare
string_compare-order_text s t {c} {d} one other alias = elim (Bool-cases (s.addr == t.addr)) [
  | inl at ↦
      let same = contents_unique one other (alias ((==_iff _ _).0 at)) in
      rw (at, same, order_text_refl d) (ap ok to_int-eq)
  | inr apart ↦
      rw (apart, string_length-Holds one, string_length-Holds other)
        (ap ok (order_text-contents one other))
]

-- `<`, `<=`, `>` and `>=` on strings are the tests of that order.
pub string_comparisons-order_text :
    (s t : StringBlock) {c d : List ℕ}
    → Holds s.bytes c
    → Holds t.bytes d
    → (s.addr ≡ t.addr → s.bytes ≡ t.bytes)
    → (string_lessthan s t ≡ ok (is_lt (order_text c d)))
      × (string_lessequal s t ≡ ok (not (is_gt (order_text c d))))
      × (string_greaterthan s t ≡ ok (is_gt (order_text c d)))
      × (string_greaterequal s t ≡ ok (not (is_lt (order_text c d))))
unfolding string_lessthan string_lessequal string_greaterthan string_greaterequal
string_comparisons-order_text s t {c} {d} one other alias =
    rw (string_compare-order_text s t one other alias) (tests (order_text c d))
