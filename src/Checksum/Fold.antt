-- ===== src/Checksum/Fold.antt =====
-- The end-around carry: what `while (sum >> 16)` computes, as arithmetic modulo 65535.
use mirage_kfreebsd.Base.{
  ℕ, suc, ◌+◌, ◌-◌, ◌/◌, ◌%◌, ◌≤◌, ◌<◌, ◌≡◌, ok, arith, ltb, ◌==◌, if◌then◌else◌, ap, ◌∙◌, sym, inl,
  inr, Bool-cases, tests, ltb→lt,
}
use mirage_kfreebsd.Checksum.{fold_carries}

-- The representative from 1 to 65535 of a number modulo 65535; 0 stands for itself alone.
unfoldable pub carry_normal : ℕ → ℕ
carry_normal s = if s == 0 then 0 else (s - 1) % 65535 + 1

pub carry_normal-le : (s : ℕ) → carry_normal s ≤ 65535
unfolding carry_normal
carry_normal-le s = ground arith

pub carry_normal-add : (a b : ℕ) → carry_normal (carry_normal a + b) ≡ carry_normal (a + b)
unfolding carry_normal
carry_normal-add a b = ground arith

pub carry_normal_small : (s : ℕ) → s ≤ 65535 → carry_normal s ≡ s
unfolding carry_normal
carry_normal_small s h = ground arith

carry_normal_step : (s : ℕ) → carry_normal (s % 65536 + s / 65536) ≡ carry_normal s
unfolding carry_normal
carry_normal_step s = ground arith

fold_done : (n s : ℕ) → s < 65536 → fold_carries (suc n) s ≡ ok s
unfolding fold_carries
fold_done n s h = ground arith

fold_step :
    (n s : ℕ)
    → 65536 ≤ s
    → s < 4294967296
    → fold_carries (suc n) s ≡ fold_carries n (s % 65536 + s / 65536)
unfolding fold_carries
fold_step n s h k = ground arith

fold_twice : (s : ℕ) → s ≤ 131070 → fold_carries 2 s ≡ ok (carry_normal s)
fold_twice s h = elim (Bool-cases (ltb s 65536)) [
  | inl small ↦ fold_done 1 s (ltb→lt _ _ small) ∙ ap ok (sym (carry_normal_small s (omega tests)))
  | inr big ↦
      fold_step 1 s (ground arith) (omega arith)
      ∙ fold_done 0 (s % 65536 + s / 65536) (omega arith)
      ∙ ap ok (sym (carry_normal_small _ (omega arith)) ∙ carry_normal_step s)
]

-- Three tests are enough for any `uint32_t`, and the result is the normal form.
pub fold_carries_normal : (s : ℕ) → s < 4294967296 → fold_carries 3 s ≡ ok (carry_normal s)
fold_carries_normal s h = elim (Bool-cases (ltb s 65536)) [
  | inl small ↦ fold_done 2 s (ltb→lt _ _ small) ∙ ap ok (sym (carry_normal_small s (omega tests)))
  | inr big ↦
      fold_step 2 s (ground arith) h
      ∙ fold_twice (s % 65536 + s / 65536) (omega arith)
      ∙ ap ok (carry_normal_step s)
]
