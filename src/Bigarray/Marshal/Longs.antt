-- ===== src/Bigarray/Marshal/Longs.antt =====
-- `caml_ba_serialize_longarray` and `caml_ba_deserialize_longarray`: 32 bits an element when they
-- suffice.
use mirage_kfreebsd.Base.{
  ℕ, zero, suc, ◌+◌, ◌*◌, ◌%◌, ◌^◌, ◌<◌, ◌≡◌, refl, ap, ◌∙◌, inl, inr, List, ◌++◌, ok, ◌>>=◌, Bool,
  true, ◌&&◌, arith, Bool-cases,
}
use mathlib.Core.List.{append_assoc}
use mathlib.Core.Path.{subst}
use native.Mathlib.Nat.{pow-suc}
use mirage_kfreebsd.Base.Int.{ℤ, pos, negsuc, leb_ℤ}
use mirage_kfreebsd.Bigarray.Access.Bytes.{
  read_le, store_le, signed, read_le-store_le, read_le_ext, store_le_outside,
}
use mirage_kfreebsd.Bigarray.Marshal.Blocks.{Same, block-Same}
use mirage_kfreebsd.Bigarray.Marshal.{
  all_within, serialize_longs, serialize_longarray, extend32, deserialize_longs,
  deserialize_longarray,
}
use mirage_kfreebsd.Bigarray.Marshal.Stream.{
  serialize_int_1, serialize_int_4, deserialize_uint_1, deserialize_uint_4,
}

-- Every cell of the memory is a byte.
abbrev pub IsMemory : (ℕ → ℕ) → Type 0
IsMemory f = (x : ℕ) → f x < 256

pub read_le-lt : (n a : ℕ) (f : ℕ → ℕ) → IsMemory f → read_le n a f < 256 ^ n
unfolding read_le
read_le-lt zero a f h = omega arith
read_le-lt (suc n) a f h = omega (arith, h a, read_le-lt n (a + 1) f h, pow-suc 256 n)

uint_4-low :
    (i : ℕ) (src : List ℕ) → deserialize_uint_4 (serialize_int_4 i ++ src) ≡ ok (i % 2 ^ 32, src)
unfolding deserialize_uint_4 serialize_int_4
uint_4-low i src = ap (λ n. ok (n, src)) (omega arith)

-- The words of 8 bytes from `a` on are those that stood from `b` on; below `a` nothing has changed.
record SameLongs (n a b : ℕ) (f g g' : ℕ → ℕ) : Type 0 where
  inside : (i : ℕ) → i < n → read_le 8 (a + i * 8) g' ≡ read_le 8 (b + i * 8) f
  below : (x : ℕ) → x < a → g' x ≡ g x

word_behind :
    (n a b : ℕ) (f g g' : ℕ → ℕ)
    → IsMemory f
    → SameLongs n (a + 8) (b + 8) f (store_le 8 a (read_le 8 b f) g) g'
    → (i : ℕ) → i < suc n
    → read_le 8 (a + i * 8) g' ≡ read_le 8 (b + i * 8) f
word_behind n a b f g g' mem same zero h =
    ap (λ c. read_le 8 c g') (omega arith)
    ∙ read_le_ext 8 a g' (store_le 8 a (read_le 8 b f) g) (λ x p q. same.below x q)
    ∙ read_le-store_le 8 a (read_le 8 b f) g (read_le-lt 8 b f mem)
    ∙ ap (λ c. read_le 8 c f) (omega arith)
word_behind n a b f g g' mem same (suc i) h =
    ap (λ c. read_le 8 c g') (omega arith)
    ∙ same.inside i (omega arith)
    ∙ ap (λ c. read_le 8 c f) (omega arith)

SameLongs-cons :
    (n a b : ℕ) (f g g' : ℕ → ℕ)
    → IsMemory f
    → SameLongs n (a + 8) (b + 8) f (store_le 8 a (read_le 8 b f) g) g'
    → SameLongs (suc n) a b f g g'
SameLongs-cons n a b f g g' mem same = record {
  inside = word_behind n a b f g g' mem same;
  below = λ x h. same.below x (omega arith) ∙ store_le_outside 8 a (read_le 8 b f) x g (inl h);
}

longs-longs :
    (a b n : ℕ) (f g : ℕ → ℕ) (src : List ℕ)
    → IsMemory f
    → ((i : ℕ) → i < n → extend32 (read_le 8 (b + i * 8) f % 2 ^ 32) ≡ read_le 8 (b + i * 8) f)
    → (g' : ℕ → ℕ) × (deserialize_longs a n (serialize_longs b n f ++ src) g ≡ ok (g', src))
      × SameLongs n a b f g g'
unfolding deserialize_longs serialize_longs
longs-longs a b zero f g src mem fits =
    (g, refl, record { inside = λ i h. absurd (omega arith); below = λ x h. refl })
longs-longs a b (suc n) f g src mem fits =
    let w = read_le 8 b f in
    let (g', run, same) = longs-longs (a + 8) (b + 8) n f (store_le 8 a w g) src mem (λ i h.
      subst (λ c. extend32 (read_le 8 c f % 2 ^ 32) ≡ read_le 8 c f) (omega arith)
        (fits (i + 1) (omega arith))) in
    (
      g',
      ap
            (λ l. deserialize_uint_4 l >>= λ r.
              deserialize_longs (a + 8) n r.1 (store_le 8 a (extend32 r.0) g))
            (append_assoc (serialize_int_4 w) (serialize_longs (b + 8) n f) src)
          ∙ ap (λ m. m >>= λ r. deserialize_longs (a + 8) n r.1 (store_le 8 a (extend32 r.0) g))
              (uint_4-low w (serialize_longs (b + 8) n f ++ src))
          ∙ ap
              (λ v.
                deserialize_longs (a + 8) n (serialize_longs (b + 8) n f ++ src) (store_le 8 a v g))
              (subst (λ c. extend32 (read_le 8 c f % 2 ^ 32) ≡ read_le 8 c f) (omega arith)
                (fits 0 (omega arith)))
          ∙ run,
      SameLongs-cons n a b f g g' mem same,
    )

and_true : (p q r : Bool) → (p && q && r) ≡ true → (p ≡ true) × (q ≡ true)
and_true p q r h = ground arith

and_rest : (p q r : Bool) → (p && q && r) ≡ true → r ≡ true
and_rest p q r h = ground arith

all_within_at :
    (lo hi : ℤ) (b n i : ℕ) (f : ℕ → ℕ)
    → all_within lo hi b n f ≡ true
    → i < n
    → (leb_ℤ lo (signed (2 ^ 64) (read_le 8 (b + i * 8) f)) ≡ true)
      × (leb_ℤ (signed (2 ^ 64) (read_le 8 (b + i * 8) f)) hi ≡ true)
unfolding all_within
all_within_at lo hi b zero i f h hi' = absurd (omega arith)
all_within_at lo hi b (suc n) zero f h hi' = and_true _ _ _ (
    ap
      (λ c.
        leb_ℤ lo (signed (2 ^ 64) (read_le 8 c f))
        && leb_ℤ (signed (2 ^ 64) (read_le 8 c f)) hi
        && all_within lo hi (b + 8) n f)
      (omega arith)
    ∙ h)
all_within_at lo hi b (suc n) (suc i) f h hi' =
    subst
      (λ c.
        (leb_ℤ lo (signed (2 ^ 64) (read_le 8 c f)) ≡ true)
        × (leb_ℤ (signed (2 ^ 64) (read_le 8 c f)) hi ≡ true))
      (omega arith)
      (all_within_at lo hi (b + 8) n i f
        (and_rest (leb_ℤ lo (signed (2 ^ 64) (read_le 8 b f)))
          (leb_ℤ (signed (2 ^ 64) (read_le 8 b f)) hi) (all_within lo hi (b + 8) n f) h)
        (omega arith))

-- In this range 32 bits suffice.
pub low_bits :
    (w m : ℕ)
    → w < 2 ^ 64
    → m < 2 ^ 31
    → leb_ℤ (negsuc m) (signed (2 ^ 64) w) ≡ true
    → leb_ℤ (signed (2 ^ 64) w) (pos m) ≡ true
    → extend32 (w % 2 ^ 32) ≡ w
low_bits w m small h lo hi = ground arith

pub no_value :
    (w : ℕ)
    → leb_ℤ (pos 0x80000000) (signed (2 ^ 64) w) ≡ true
    → leb_ℤ (signed (2 ^ 64) w) (pos 0x7FFFFFFF) ≡ true
    → extend32 (w % 2 ^ 32) ≡ w
no_value w lo hi = absurd (ground arith)

-- The element of either format.
pub longarray-longarray :
    (a b n : ℕ) (lo hi : ℤ) (f g : ℕ → ℕ) (src : List ℕ)
    → IsMemory f
    → ((w : ℕ)
        → w < 2 ^ 64
        → leb_ℤ lo (signed (2 ^ 64) w) ≡ true
        → leb_ℤ (signed (2 ^ 64) w) hi ≡ true
        → extend32 (w % 2 ^ 32) ≡ w)
    → (g' : ℕ → ℕ) × (deserialize_longarray a n (serialize_longarray b n lo hi f ++ src) g
        ≡ ok (g', src))
      × Same 8 n a b f g'
unfolding deserialize_longarray serialize_longarray serialize_int_1 deserialize_uint_1
longarray-longarray a b n lo hi f g src mem low = elim (Bool-cases (all_within lo hi b n f)) [
  | inl fits ↦
      let (g', run, same) = longs-longs a b n f g src mem (λ i h.
        let (above, under) = all_within_at lo hi b n i f fits h in
        low (read_le 8 (b + i * 8) f) (read_le-lt 8 (b + i * 8) f mem) above under) in
      (g', rw (fits) run, same.inside)
  | inr large ↦ let (g', run, same) = block-Same 8 a b n f g src in (g', rw (large) run, same)
]
