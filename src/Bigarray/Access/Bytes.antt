-- ===== src/Bigarray/Access/Bytes.antt =====
-- Little-endian words in memory, and the bit patterns of signed integers.
use mirage_kfreebsd.Base.{
  ℕ, zero, suc, ◌+◌, ◌-◌, ◌*◌, ◌/◌, ◌%◌, ◌≤◌, ◌<◌, ◌^◌, ◌≡◌, refl, ◌⊎◌, arith, ltb, ◌==◌,
  if◌then◌else◌,
}
use mirage_kfreebsd.Base.Int.{ℤ, pos, negsuc}
use native.Mathlib.Nat.{pow-suc}

unfoldable pub read_le : ℕ → ℕ → (ℕ → ℕ) → ℕ
read_le zero a bytes = 0
read_le (suc n) a bytes = bytes a + 256 * read_le n (a + 1) bytes

unfoldable pub store_le : ℕ → ℕ → ℕ → (ℕ → ℕ) → ℕ → ℕ
store_le zero a w bytes x = bytes x
store_le (suc n) a w bytes x = if x == a then w % 256 else store_le n (a + 1) (w / 256) bytes x

-- Two's complement modulo `m`.
abbrev pub signed : ℕ → ℕ → ℤ
signed m w = if ltb w (m / 2) then pos w else negsuc (m - w - 1)

abbrev pub pattern : ℕ → ℤ → ℕ
pattern m (pos n) = n % m
pattern m (negsuc n) = m - 1 - n % m

pub store_le_outside :
    (n a w x : ℕ) (bytes : ℕ → ℕ) → (x < a) ⊎ (a + n ≤ x) → store_le n a w bytes x ≡ bytes x
unfolding store_le
store_le_outside zero a w x bytes h = refl
store_le_outside (suc n) a w x bytes h =
    ground (arith, store_le_outside n (a + 1) (w / 256) x bytes)

pub read_le_ext :
    (n a : ℕ) (f g : ℕ → ℕ)
    → ((x : ℕ) → a ≤ x → x < a + n → f x ≡ g x)
    → read_le n a f ≡ read_le n a g
unfolding read_le
read_le_ext zero a f g h = refl
read_le_ext (suc n) a f g h = omega (
  arith,
  h a (omega arith) (omega arith),
  read_le_ext n (a + 1) f g (λ x p q. h x (omega arith) (omega arith)),
)

store_le_later :
    (n a w : ℕ) (bytes : ℕ → ℕ) (x : ℕ)
    → a + 1 ≤ x
    → x < a + 1 + n
    → store_le (suc n) a w bytes x ≡ store_le n (a + 1) (w / 256) bytes x
unfolding store_le
store_le_later n a w bytes x p q = ground arith

pub read_le-store_le :
    (n a w : ℕ) (bytes : ℕ → ℕ) → w < 256 ^ n → read_le n a (store_le n a w bytes) ≡ w
unfolding read_le store_le
read_le-store_le zero a w bytes h = omega arith
read_le-store_le (suc n) a w bytes h = ground (
  arith,
  read_le_ext n (a + 1) (store_le (suc n) a w bytes) (store_le n (a + 1) (w / 256) bytes)
      (store_le_later n a w bytes),
  read_le-store_le n (a + 1) (w / 256) bytes (omega (arith, pow-suc 256 n)),
)

pub read_le-store_le_disjoint :
    (n a m b w : ℕ) (bytes : ℕ → ℕ)
    → (a + n ≤ b) ⊎ (b + m ≤ a)
    → read_le n a (store_le m b w bytes) ≡ read_le n a bytes
read_le-store_le_disjoint n a m b w bytes h =
    read_le_ext n a _ _ (λ x p q. store_le_outside m b w x bytes (ground arith))
