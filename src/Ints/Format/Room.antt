-- ===== src/Ints/Format/Room.antt =====
-- The buffers of the formatting functions.
use mirage_kfreebsd.Base.{ℕ, ◌≡◌, ◌==◌, false}
use mirage_kfreebsd.Ints.Format.{Format, is_digit}

-- A byte that the search for the first digit passes.
abbrev pub IsPassed : ℕ → Type 0
IsPassed c = ((c == 0) ≡ false) × (is_digit c ≡ false)
