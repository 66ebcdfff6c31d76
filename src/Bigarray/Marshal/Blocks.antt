-- ===== src/Bigarray/Marshal/Blocks.antt =====
-- Blocks of elements of 1, 2, 4 or 8 bytes, from extern.c to intern.c.
use mirage_kfreebsd.Base.{
  ℕ, zero, suc, ◌+◌, ◌-◌, ◌*◌, ◌≤◌, ◌<◌, ◌≡◌, refl, ap, ◌∙◌, ◌⊎◌, inl, inr, List, ◌++◌, ok, ◌>>=◌,
  arith, ltb, mul_mono, Bool-cases,
}
use mathlib.Core.List.{append_assoc}
use mathlib.Core.Path.{ap₂, subst}
use mirage_kfreebsd.Bigarray.{update}
use mirage_kfreebsd.Bigarray.Access.Bytes.{read_le}
use mirage_kfreebsd.Bigarray.Marshal.Stream.{
  serialize_block, reverse_out, deserialize_block, reverse_in,
}

-- `n` bytes at `a` are the `n` bytes that stood at `b`, and nothing else has changed.
pub record Copied (n a b : ℕ) (f g g' : ℕ → ℕ) : Type 0 where
  pub inside : (i : ℕ) → i < n → g' (a + i) ≡ f (b + i)
  pub outside : (x : ℕ) → (x < a) ⊎ (a + n ≤ x) → g' x ≡ g x

reverse_in-out :
    (n a b : ℕ) (f g : ℕ → ℕ) (src : List ℕ)
    → (g' : ℕ → ℕ) × (reverse_in n a (reverse_out n b f ++ src) g ≡ ok (g', src))
      × Copied n a b f g g'
unfolding reverse_in reverse_out
reverse_in-out zero a b f g src =
    (g, refl, record { inside = λ i h. absurd (omega arith); outside = λ x h. refl })
reverse_in-out (suc n) a b f g src =
    let (g', run, copy) = reverse_in-out n a b f (update g (a + n) (f (b + n))) src in
    (
      g',
      run,
      record {
        inside = λ i h. ground (arith, copy.inside i, copy.outside (a + i));
        outside = λ x h. ground (arith, copy.outside x);
      },
    )

Copied-join :
    (n m a b : ℕ) (f g g1 g2 : ℕ → ℕ)
    → Copied n a b f g g1
    → Copied m (a + n) (b + n) f g1 g2
    → Copied (n + m) a b f g g2
Copied-join n m a b f g g1 g2 one two = record {
  inside = λ i h. elim (Bool-cases (ltb i n)) [
    | inl near ↦ two.outside (a + i) (inl (ground arith)) ∙ one.inside i (ground arith)
    | inr far ↦ ap g2 (ground arith) ∙ two.inside (i - n) (ground arith) ∙ ap f (ground arith)
  ];
  outside = λ x h. ground (arith, one.outside x, two.outside x);
}

block-block :
    (n a b len : ℕ) (f g : ℕ → ℕ) (src : List ℕ)
    → (g' : ℕ → ℕ) × (deserialize_block n a len (serialize_block n b len f ++ src) g ≡ ok (g', src))
      × Copied (len * n) a b f g g'
unfolding deserialize_block serialize_block
block-block n a b zero f g src =
    (g, refl, record { inside = λ i h. absurd (omega arith); outside = λ x h. refl })
block-block n a b (suc len) f g src =
    let (g1, run1, copy1) = reverse_in-out n a b f g (serialize_block n (b + n) len f ++ src) in
    let (g2, run2, copy2) = block-block n (a + n) (b + n) len f g1 src in
    (
      g2,
      ap (λ l. reverse_in n a l g >>= λ r. deserialize_block n (a + n) len r.1 r.0)
            (append_assoc (reverse_out n b f) (serialize_block n (b + n) len f) src)
          ∙ ap (λ m. m >>= λ r. deserialize_block n (a + n) len r.1 r.0) run1
          ∙ run2,
      subst (λ k. Copied k a b f g g2) (omega arith)
          (Copied-join n (len * n) a b f g g1 g2 copy1 copy2),
    )

read_le_shift :
    (n p q : ℕ) (f g : ℕ → ℕ)
    → ((j : ℕ) → j < n → g (p + j) ≡ f (q + j))
    → read_le n p g ≡ read_le n q f
unfolding read_le
read_le_shift zero p q f g h = refl
read_le_shift (suc n) p q f g h =
    ap₂ (λ x y. x + 256 * y) (ap g (omega arith) ∙ h 0 (omega arith) ∙ ap f (omega arith))
      (read_le_shift n (p + 1) (q + 1) f g
        (λ j hj. ap g (omega arith) ∙ h (j + 1) (omega arith) ∙ ap f (omega arith)))

-- `n` elements of `size` bytes from `a` on are those that stood from `b` on.
abbrev pub Same : ℕ → ℕ → ℕ → ℕ → (ℕ → ℕ) → (ℕ → ℕ) → Type 0
Same size n a b f g =
    (i : ℕ) → i < n → read_le size (a + i * size) g ≡ read_le size (b + i * size) f

Copied-Same :
    (size n a b : ℕ) (f g g' : ℕ → ℕ) → Copied (n * size) a b f g g' → Same size n a b f g'
Copied-Same size n a b f g g' copy i h =
    read_le_shift size (a + i * size) (b + i * size) f g' (λ j hj.
      ap g' (omega arith)
      ∙ copy.inside (i * size + j) (omega (arith, mul_mono (i + 1) n size (omega arith)))
      ∙ ap f (omega arith))

pub block-Same :
    (size a b n : ℕ) (f g : ℕ → ℕ) (src : List ℕ)
    → (g' : ℕ → ℕ) × (deserialize_block size a n (serialize_block size b n f ++ src) g
        ≡ ok (g', src))
      × Same size n a b f g'
block-Same size a b n f g src =
    let (g', run, copy) = block-block size a b n f g src in
    (g', run, Copied-Same size n a b f g g' copy)
