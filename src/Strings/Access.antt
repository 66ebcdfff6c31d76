-- ===== src/Strings/Access.antt =====
-- Making strings, and their bytes one at a time.
use mathlib.Core.List.{append_assoc}
use mirage_kfreebsd.Base.{
  ℕ, zero, suc, ◌%◌, ◌^◌, ◌≡◌, ◌<◌, ◌≤◌, refl, ap, sym, ◌∙◌, List, [], ◌∷◌, ◌++◌, Result, ok, raise,
  bound_error, invalid_argument, deref, true, false, ◌||◌, Bool-cases, inl, inr, some, none, length,
  get_elem?, set, replicate, arith, leb, ltb, length-set,
}
use mirage_kfreebsd.Base.Int.{ℤ, pos, negsuc, pos_part, neg_part, ltb_ℤ}
use mirage_kfreebsd.Values.{uintnat}
use mirage_kfreebsd.Strings.{
  create_string, max_string_size, alloc_string, string_length, string_index, string_get, string_set,
}
use mirage_kfreebsd.Strings.Padding.{
  Holds, string_length-Holds, length-allocated, alloc_string-Holds,
}

-- The byte at an index of a list, or the exception of a bad index.
pub at_index : List ℕ → ℤ → Result ℕ
at_index c (negsuc i) = raise bound_error
at_index c (pos i) = elim (get_elem? c i) [ none ↦ raise bound_error | some b ↦ ok b ]

get_elem?-append : (c x : List ℕ) (i : ℕ) → i < length c → get_elem? (c ++ x) i ≡ get_elem? c i
get_elem?-append [] x i h = absurd (omega arith)
get_elem?-append (b ∷ c) x zero h = refl
get_elem?-append (b ∷ c) x (suc i) h = get_elem?-append c x i (omega arith)

set-append : (c x : List ℕ) (i v : ℕ) → i < length c → set (c ++ x) i v ≡ set c i v ++ x
set-append [] x i v h = absurd (omega arith)
set-append (b ∷ c) x zero v h = refl
set-append (b ∷ c) x (suc i) v h = ap (λ l. b ∷ l) (set-append c x i v (omega arith))

get_elem?-none : (c : List ℕ) (i : ℕ) → length c ≤ i → get_elem? c i ≡ none
get_elem?-none [] i h = refl
get_elem?-none (b ∷ c) zero h = absurd (omega arith)
get_elem?-none (b ∷ c) (suc i) h = get_elem?-none c i (omega arith)

deref-in_range :
    (c : List ℕ) (i : ℕ)
    → i < length c
    → deref (get_elem? c i) ≡ elim (get_elem? c i) [ none ↦ raise bound_error | some b ↦ ok b ]
deref-in_range [] i h = absurd (omega arith)
deref-in_range (b ∷ c) zero h = refl
deref-in_range (b ∷ c) (suc i) h = deref-in_range c i (omega arith)

module _ {s c : List ℕ} (holds : Holds s c) where
  index_in : (i : ℕ) → i < length c → string_index s (pos i) ≡ ok i
  unfolding string_index
  index_in i h =
      let inside : (ltb_ℤ (pos i) (pos 0) || leb (length c) i) ≡ false = ground arith in
      rw (string_length-Holds holds, inside) refl

  index_out : (i : ℕ) → length c ≤ i → string_index s (pos i) ≡ raise bound_error
  unfolding string_index
  index_out i h =
      let outside : (ltb_ℤ (pos i) (pos 0) || leb (length c) i) ≡ true = ground arith in
      rw (string_length-Holds holds, outside) refl

  index_negative : (i : ℕ) → string_index s (negsuc i) ≡ raise bound_error
  unfolding string_index
  index_negative i = rw (string_length-Holds holds) (ground arith)

  get_elem?-Holds : (i : ℕ) → i < length c → get_elem? s i ≡ get_elem? c i
  get_elem?-Holds i h =
      ap (λ l. get_elem? l i)
        (holds.layout ∙ append_assoc c (replicate {A = ℕ} holds.padding 0) (holds.padding ∷ []))
      ∙ get_elem?-append c (replicate holds.padding 0 ++ holds.padding ∷ []) i h

  -- `caml_string_get` returns the byte of the contents at an index, and raises the exception of a bad
  -- index where there is none: it never reads the padding.
  pub string_get-at_index : (index : ℤ) → string_get s index ≡ at_index c index
  unfolding string_get at_index
  string_get-at_index (negsuc i) = rw (index_negative i) refl
  string_get-at_index (pos i) = elim (Bool-cases (ltb i (length c))) [
    | inl inside ↦
        rw (index_in i (ground arith), get_elem?-Holds i (ground arith))
          (deref-in_range c i (ground arith))
    | inr outside ↦
        rw (index_out i (ground arith), at_index, get_elem?-none c i (ground arith)) refl
  ]

get_elem?-some : (c : List ℕ) (i : ℕ) → i < length c → (b : ℕ) × (get_elem? c i ≡ some b)
get_elem?-some [] i h = absurd (omega arith)
get_elem?-some (b ∷ c) zero h = (b, refl)
get_elem?-some (b ∷ c) (suc i) h = get_elem?-some c i (omega arith)

string_get-some :
    {s c : List ℕ} → Holds s c → (i : ℕ) → i < length c → (b : ℕ) × (string_get s (pos i) ≡ ok b)
unfolding at_index
string_get-some {c = c} holds i inside =
    let (b, found) = get_elem?-some c i inside in
    (b, string_get-at_index holds (pos i) ∙ rw (at_index, found) refl)

module _ {s c : List ℕ} (holds : Holds s c) (i : ℕ) (inside : i < length c) where
  set-Holds : (b : ℕ) → Holds (set s i b) (set c i b)
  set-Holds b =
      let pad = replicate {A = ℕ} holds.padding 0 in
      let tail = pad ++ holds.padding ∷ [] in
      let same_length = length-set c i b in
      record {
        padding = holds.padding;
        small = holds.small;
        whole = rw same_length holds.whole;
        layout =
            ap (λ l. set l i b) (holds.layout ∙ append_assoc c pad (holds.padding ∷ []))
            ∙ set-append c tail i b inside
            ∙ sym (append_assoc (set c i b) pad (holds.padding ∷ []));
        fits = rw same_length holds.fits;
      }

-- `caml_string_set` at an index of the contents stores the low 8 bits of the value there; afterwards
-- `caml_string_get` returns that byte at this index and the old one at every other, and the string keeps
-- its length.
pub string_get-string_set :
    {s c : List ℕ} (i : ℕ) (newval : ℤ)
    → Holds s c
    → i < length c
    → (s' : List ℕ) × (string_set s (pos i) newval ≡ ok s')
      × (string_length s' ≡ ok (length c))
      × ((index : ℤ) → string_get s' index ≡ at_index (set c i (uintnat newval % 256)) index)
unfolding string_set
string_get-string_set {s} {c} i newval holds inside =
    let b = uintnat newval % 256 in
    let after = set-Holds holds i inside b in
    (
      set s i b,
      rw (index_in holds i inside) refl,
      string_length-Holds after ∙ ap ok (length-set c i b),
      string_get-at_index after,
    )

-- `caml_create_string` makes a string of the length that it is asked for, if this is from 0 up to the
-- largest size; what the bytes are is left open.
pub create_string-Holds :
    (memory : ℕ → ℕ) (len : ℕ)
    → len ≤ max_string_size
    → (s : List ℕ) × (create_string memory (pos len) ≡ ok s)
      × (string_length s ≡ ok len)
      × ((i : ℕ) → i < len → (b : ℕ) × (string_get s (pos i) ≡ ok b))
unfolding create_string uintnat
create_string-Holds memory len fits =
    let holds = alloc_string-Holds memory len (omega arith) in
    let size : len % 2 ^ 64 ≡ len = omega arith in
    let allowed : ltb max_string_size len ≡ false = ground arith in
    (
      alloc_string memory len,
      rw (size, allowed) refl,
      string_length-Holds holds ∙ ap ok (length-allocated memory len),
      λ i inside. string_get-some holds i (omega (arith, length-allocated memory len)),
    )

-- A negative length, and one above the largest size, raise `Invalid_argument "String.create"`.
pub create_string_refuses :
    (memory : ℕ → ℕ) (len : ℤ)
    → (ltb_ℤ len (pos 0) || ltb_ℤ (pos max_string_size) len) ≡ true
    → pos_part len < 2 ^ 62
    → neg_part len ≤ 2 ^ 62
    → create_string memory len ≡ raise (invalid_argument "String.create")
unfolding create_string uintnat
create_string_refuses memory len bad small big = ground arith
