-- ===== src/Tests/Strings.antt =====
-- Strings of a few bytes.
use mirage_kfreebsd.Base.{
  ℕ, ◌%◌, ◌≡◌, ◌<◌, ◌↔◌, refl, List, [], ◌∷◌, ok, raise, bound_error, true, set, arith,
}
use mirage_kfreebsd.Base.Int.{ℤ, pos, negsuc}
use mirage_kfreebsd.Values.{uintnat}
use mirage_kfreebsd.Values.Compare.Tree.{order_text}
use mirage_kfreebsd.Values.Compare.Laws.{to_int}
use mirage_kfreebsd.Strings.{
  StringBlock, create_string, string_length, string_get, string_set, string_equal, string_compare,
  string_index, compare_contents, memcmp,
}
use mirage_kfreebsd.Strings.Padding.{Holds}
use mirage_kfreebsd.Strings.Equal.{string_equal-contents}
use mirage_kfreebsd.Strings.Order.{string_compare-order_text}
use mirage_kfreebsd.Strings.Access.{at_index, string_get-string_set, create_string-Holds}

-- "ab", with five bytes of padding.
abbrev ab : StringBlock
ab = record { addr = 8; bytes = 97 ∷ 98 ∷ 0 ∷ 0 ∷ 0 ∷ 0 ∷ 0 ∷ 5 ∷ [] }

-- "abc".
abbrev abc : StringBlock
abc = record { addr = 24; bytes = 97 ∷ 98 ∷ 99 ∷ 0 ∷ 0 ∷ 0 ∷ 0 ∷ 4 ∷ [] }

ab-Holds : Holds ab.bytes (97 ∷ 98 ∷ [])
ab-Holds = record {
  padding = 5;
  small = omega arith;
  whole = refl;
  layout = refl;
  fits = omega arith;
}

abc-Holds : Holds abc.bytes (97 ∷ 98 ∷ 99 ∷ [])
abc-Holds = record {
  padding = 4;
  small = omega arith;
  whole = refl;
  layout = refl;
  fits = omega arith;
}

string_equal-contents_example :
    (string_equal ab abc ≡ true) ↔ (◌≡◌ {A = List ℕ} (97 ∷ 98 ∷ []) (97 ∷ 98 ∷ 99 ∷ []))
string_equal-contents_example =
    string_equal-contents ab abc ab-Holds abc-Holds (omega arith) (omega arith)
      (λ e. absurd (omega (arith, e)))

string_compare-order_text_example :
    string_compare ab abc ≡ ok (to_int (order_text (97 ∷ 98 ∷ []) (97 ∷ 98 ∷ 99 ∷ [])))
string_compare-order_text_example =
    string_compare-order_text ab abc ab-Holds abc-Holds (λ e. absurd (omega (arith, e)))

string_get-string_set_example :
    (s' : List ℕ) × (string_set ab.bytes (pos 1) (pos 66) ≡ ok s')
    × (string_length s' ≡ ok 2)
    × ((index : ℤ)
        → string_get s' index ≡ at_index (set (97 ∷ 98 ∷ []) 1 (uintnat (pos 66) % 256)) index)
string_get-string_set_example = string_get-string_set 1 (pos 66) ab-Holds (omega arith)

create_string-Holds_example :
    (s : List ℕ) × (create_string (λ i. 0) (pos 11) ≡ ok s)
    × (string_length s ≡ ok 11)
    × ((i : ℕ) → i < 11 → (b : ℕ) × (string_get s (pos i) ≡ ok b))
create_string-Holds_example = create_string-Holds (λ i. 0) 11 (omega arith)

get_in_range : string_get abc.bytes (pos 2) ≡ ok 99
unfolding string_get string_index string_length
get_in_range = refl

get_padding : string_get abc.bytes (pos 3) ≡ raise bound_error
unfolding string_get string_index string_length
get_padding = refl

less : string_compare ab abc ≡ ok (negsuc 0)
unfolding string_compare string_length compare_contents memcmp
less = refl
