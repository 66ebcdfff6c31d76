-- ===== src/Strings.antt =====
-- str.c and `caml_alloc_string` of alloc.c. A string fills whole words: its last byte says how many
-- bytes of the last word lie between the contents and that byte, and those are zero.
pub mod Padding
pub mod Equal
pub mod Order
pub mod Access
use mirage_kfreebsd.Base.{
  ℕ, zero, suc, ◌+◌, ◌-◌, ◌*◌, ◌/◌, ◌%◌, ◌^◌, List, [], ◌∷◌, ◌++◌, Result, ok, raise, fault,
  invalid_argument, bound_error, ◌>>=◌, deref, Bool, true, false, not, ◌&&◌, ◌||◌, ltb, leb, ◌==◌,
  if◌then◌else◌, u64, length, get_elem?, set, take, drop, replicate,
}
use mirage_kfreebsd.Base.Int.{ℤ, pos, negsuc, pos_part, ltb_ℤ, leb_ℤ}
use mirage_kfreebsd.Values.{uintnat, int_of}

-- A string: the address of its block, and all bytes of the block.
pub record StringBlock : Type 0 where
  pub addr : ℕ
  pub bytes : List ℕ

-- What memory holds before it is written.
unfoldable pub fresh : (ℕ → ℕ) → ℕ → List ℕ
fresh memory zero = []
fresh memory (suc n) = memory n ∷ fresh memory n

-- `Field (result, wosize - 1) = 0` and the padding byte; the bytes in front are left as they were.
unfoldable pub alloc_string : (ℕ → ℕ) → ℕ → List ℕ
alloc_string memory len =
    let wosize = (len + 8) / 8 in
    let offset_index = wosize * 8 - 1 in
    fresh memory (8 * (wosize - 1)) ++ replicate 7 0 ++ (offset_index - len) % 256 ∷ []

unfoldable pub string_length : List ℕ → Result ℕ
string_length s =
    let temp = length s - 1 in
    deref (get_elem? s temp) >>= λ padding. ok (u64 (2 ^ 64 + temp - padding))

unfoldable pub ml_string_length : List ℕ → Result ℤ
ml_string_length s = string_length s >>= λ len. ok (pos len)

-- `Bsize_wsize (Max_wosize) - 1`.
abbrev pub max_string_size : ℕ
max_string_size = 8 * (2 ^ 54 - 1) - 1

unfoldable pub create_string : (ℕ → ℕ) → ℤ → Result (List ℕ)
create_string memory len =
    let size = uintnat len in
    if ltb max_string_size size
    then raise (invalid_argument "String.create")
    else ok (alloc_string memory size)

-- `if (idx < 0 || idx >= caml_string_length(str)) caml_array_bound_error()`.
unfoldable pub string_index : List ℕ → ℤ → Result ℕ
string_index str index = string_length str >>= λ len.
    if ltb_ℤ index (pos 0) || leb len (pos_part index)
    then raise bound_error
    else ok (pos_part index)

unfoldable pub string_get : List ℕ → ℤ → Result ℕ
string_get str index = string_index str index >>= λ idx. deref (get_elem? str idx)

unfoldable pub string_set : List ℕ → ℤ → ℤ → Result (List ℕ)
string_set str index newval =
    string_index str index >>= λ idx. ok (set str idx (uintnat newval % 256))

-- The word at the head of the bytes.
unfoldable pub word : ℕ → List ℕ → ℕ
word zero p = 0
word (suc n) [] = 0
word (suc n) (b ∷ p) = b + 256 * word n p

unfoldable pub same_words : ℕ → List ℕ → List ℕ → Bool
same_words zero p1 p2 = true
same_words (suc sz) p1 p2 =
    let rest = same_words sz (drop 8 p1) (drop 8 p2) in
    if word 8 p1 == word 8 p2 then rest else false

unfoldable pub string_equal : StringBlock → StringBlock → Bool
string_equal s1 s2 =
    let sz1 = length s1.bytes / 8 in
    let sz2 = length s2.bytes / 8 in
    if s1.addr == s2.addr
    then true
    else if sz1 == sz2
    then same_words sz1 s1.bytes s2.bytes
    else false

unfoldable pub string_notequal : StringBlock → StringBlock → Bool
string_notequal s1 s2 = not (string_equal s1 s2)

-- The sign of `memcmp`.
unfoldable pub memcmp : ℕ → List ℕ → List ℕ → ℤ
memcmp (suc n) (b1 ∷ p1) (b2 ∷ p2) =
    if b1 == b2 then memcmp n p1 p2 else if ltb b1 b2 then negsuc 0 else pos 1
memcmp _ _ _ = pos 0

unfoldable pub compare_contents : ℕ → ℕ → List ℕ → List ℕ → ℤ
compare_contents len1 len2 p1 p2 =
    let res = memcmp (if leb len1 len2 then len1 else len2) p1 p2 in
    if ltb_ℤ res (pos 0)
    then negsuc 0
    else if ltb_ℤ (pos 0) res
    then pos 1
    else if ltb len1 len2
    then negsuc 0
    else if ltb len2 len1
    then pos 1
    else pos 0

unfoldable pub string_compare : StringBlock → StringBlock → Result ℤ
string_compare s1 s2 =
    if s1.addr == s2.addr
    then ok (pos 0)
    else string_length s1.bytes >>= λ len1.
        string_length s2.bytes >>= λ len2. ok (compare_contents len1 len2 s1.bytes s2.bytes)

unfoldable pub string_lessthan : StringBlock → StringBlock → Result Bool
string_lessthan s1 s2 = string_compare s1 s2 >>= λ res. ok (ltb_ℤ res (pos 0))

unfoldable pub string_lessequal : StringBlock → StringBlock → Result Bool
string_lessequal s1 s2 = string_compare s1 s2 >>= λ res. ok (leb_ℤ res (pos 0))

unfoldable pub string_greaterthan : StringBlock → StringBlock → Result Bool
string_greaterthan s1 s2 = string_compare s1 s2 >>= λ res. ok (ltb_ℤ (pos 0) res)

unfoldable pub string_greaterequal : StringBlock → StringBlock → Result Bool
string_greaterequal s1 s2 = string_compare s1 s2 >>= λ res. ok (leb_ℤ (pos 0) res)

-- `memmove` from one block, or from the same, to n bytes of a block. Outside of the blocks it is undefined.
unfoldable pub blit_string : List ℕ → ℤ → List ℕ → ℤ → ℤ → Result (List ℕ)
blit_string s1 ofs1 s2 ofs2 n =
    let from = uintnat ofs1 in
    let to = uintnat ofs2 in
    let count = uintnat (int_of n) in
    if leb (from + count) (length s1) && leb (to + count) (length s2)
    then ok (take to s2 ++ take count (drop from s1) ++ drop (to + count) s2)
    else fault

unfoldable pub fill_string : List ℕ → ℤ → ℤ → ℤ → Result (List ℕ)
fill_string s offset len init =
    let to = uintnat offset in
    let count = uintnat len in
    if leb (to + count) (length s)
    then ok (take to s ++ replicate count (uintnat init % 256) ++ drop (to + count) s)
    else fault

-- `isprint` in the C locale.
unfoldable pub is_printable : ℤ → Bool
is_printable chr = leb_ℤ (pos 32) (int_of chr) && leb_ℤ (int_of chr) (pos 126)

-- `Byte_u(bv, pos >> 3) & (1 << (pos & 7))`.
unfoldable pub bitvect_test : List ℕ → ℤ → Result ℕ
bitvect_test bv n =
    let i = int_of n in
    if ltb_ℤ i (pos 0)
    then fault
    else deref (get_elem? bv (pos_part i / 8)) >>= λ byte.
        ok (byte / 2 ^ (pos_part i % 8) % 2 * 2 ^ (pos_part i % 8))
