-- ===== src/Values.antt =====
-- The values of OCaml as mlvalues.h lays them out: immediate numbers, and pointers to blocks with a tag.
pub mod Compare
pub mod Hash
use mirage_kfreebsd.Base.{
  ℕ, zero, suc, ◌+◌, ◌-◌, ◌*◌, ◌/◌, ◌%◌, ◌^◌, List, Bool, true, false, Option, none, some, Result,
  ok, fault, get_elem?, ltb, ◌==◌, if◌then◌else◌,
}
use mirage_kfreebsd.Base.Int.{ℤ, pos, negsuc, eqb_ℤ}

-- A `value`: `long n` is the word 2n + 1, and `ptr p` the address p.
pub data Value : Type 0 where
  long : ℤ → Value
  ptr : ℕ → Value

-- The contents of a block that the code reads: the fields of a block that is scanned, the bytes of one
-- that is not (for a string, those in front of the padding).
pub record Block : Type 0 where
  pub tag : ℕ
  pub fields : List Value
  pub bytes : List ℕ

-- What a custom comparison returns, and the flag `caml_compare_unordered` that it may set.
pub record Compared : Type 0 where
  pub res : ℤ
  pub unordered : Bool

-- The operations of a custom block that a program may leave out (NULL).
pub record CustomOps : Type 0 where
  pub compare : Option (Value → Value → Compared)
  pub hash : Option (Value → ℤ)

-- `block p` is `none` where p is outside the value area; `ops p` is `Custom_ops_val`, and
-- `infix_offset p` is `Infix_offset_val`, in bytes.
pub record Heap : Type 0 where
  pub block : ℕ → Option Block
  pub ops : ℕ → CustomOps
  pub infix_offset : ℕ → ℕ

abbrev pub no_scan_tag : ℕ
no_scan_tag = 251

abbrev pub forward_tag : ℕ
forward_tag = 250

abbrev pub infix_tag : ℕ
infix_tag = 249

abbrev pub object_tag : ℕ
object_tag = 248

abbrev pub closure_tag : ℕ
closure_tag = 247

abbrev pub abstract_tag : ℕ
abstract_tag = 251

abbrev pub string_tag : ℕ
string_tag = 252

abbrev pub double_tag : ℕ
double_tag = 253

abbrev pub double_array_tag : ℕ
double_array_tag = 254

abbrev pub custom_tag : ℕ
custom_tag = 255

-- `v1 == v2` on the words.
unfoldable pub same : Value → Value → Bool
same (long a) (long b) = eqb_ℤ a b
same (ptr p) (ptr q) = p == q
same _ _ = false

-- The cast to `intnat`.
unfoldable pub intnat : ℤ → ℤ
intnat (pos n) = let m = n % 2 ^ 64 in if ltb m (2 ^ 63) then pos m else negsuc (2 ^ 64 - m - 1)
intnat (negsuc n) = let m = n % 2 ^ 64 in if ltb m (2 ^ 63) then negsuc m else pos (2 ^ 64 - m - 1)

-- `p >> 1` of an address, which is signed as an `intnat`.
unfoldable pub half_address : ℕ → ℤ
half_address p = if ltb p (2 ^ 63) then pos (p / 2) else negsuc ((2 ^ 64 - p - 1) / 2)

-- `Oid_val`.
unfoldable pub oid_val : Block → Result ℤ
oid_val b = elim (get_elem? b.fields 1) [
  | none ↦ fault
  | some v ↦ elim v [ long n ↦ ok n | ptr p ↦ ok (half_address p) ]
]

-- The cast to `uintnat`.
unfoldable pub uintnat : ℤ → ℕ
uintnat (pos n) = n % 2 ^ 64
uintnat (negsuc n) = 2 ^ 64 - n % 2 ^ 64 - 1

-- `Int_val`: the cast to a 32-bit `int`.
unfoldable pub int_of : ℤ → ℤ
int_of (pos n) = let m = n % 2 ^ 32 in if ltb m (2 ^ 31) then pos m else negsuc (2 ^ 32 - m - 1)
int_of (negsuc n) = let m = n % 2 ^ 32 in if ltb m (2 ^ 31) then negsuc m else pos (2 ^ 32 - m - 1)

-- The number that `Val_long` keeps of an `intnat`: one bit less.
unfoldable pub int63 : ℤ → ℤ
int63 (pos n) = let m = n % 2 ^ 63 in if ltb m (2 ^ 62) then pos m else negsuc (2 ^ 63 - m - 1)
int63 (negsuc n) = let m = n % 2 ^ 63 in if ltb m (2 ^ 62) then negsuc m else pos (2 ^ 63 - m - 1)
