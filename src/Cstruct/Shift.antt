-- ===== src/Cstruct/Shift.antt =====
-- `caml_bigarray_shift_left`: when it succeeds, and what it then changes.
use mathlib.Core.Path.{ap₂}
use mirage_kfreebsd.Base.{
  ℕ, zero, suc, ◌+◌, ◌-◌, ◌^◌, ◌≤◌, ◌<◌, ◌≡◌, ◌≢◌, refl, ap, ◌∙◌, [], ◌∷◌, Result, ok, Bool, true,
  false, not, some, arith, leb, ◌==◌, if◌then◌else◌, Bool-cases, inl, inr,
}
use mirage_kfreebsd.Base.Int.{ℤ, pos, negsuc, ltb_ℤ, neg_ℕ}
use mirage_kfreebsd.Values.{intnat, int63}
use mirage_kfreebsd.Bigarray.{BaArray, Store, Proxy}
use mirage_kfreebsd.Cstruct.{distance, base_offset, shift_left, int_val, add_word, sub_word}

int_val_pos : (n : ℕ) → n < 2 ^ 31 → int_val (pos n) ≡ pos n
unfolding int_val
int_val_pos n h = ground arith

int_val_neg : (n : ℕ) → n < 2 ^ 31 → int_val (negsuc n) ≡ negsuc n
unfolding int_val
int_val_neg n h = ground arith

-- A distance that is not too large is exact, also as an OCaml integer.
distance_lem : (a b n : ℕ) → a ≡ b + n → n < 2 ^ 63 → distance a b ≡ pos n
unfolding intnat
distance_lem a b n place small = ground (arith, place)

int63_lem : (n : ℕ) → n < 2 ^ 62 → int63 (pos n) ≡ pos n
unfolding int63
int63_lem n small = ground arith

shift_left-proxy :
    (ba : BaArray) (v_len : ℤ) (s : Store) (d : ℕ) (p : Proxy)
    → ba.dim ≡ d ∷ []
    → ba.proxy ≢ 0
    → s.proxies ba.proxy ≡ some p
    → shift_left ba v_len s ≡ (
        if ltb_ℤ (distance ba.base p.base) (int_val v_len)
        then ok (false, ba)
        else ok (
          true,
          record ba {
            base = sub_word ba.base (int_val v_len);
            dim = add_word d (int_val v_len) ∷ [];
          },
        ))
unfolding shift_left
shift_left-proxy ba v_len s d p shape shared found = rw (shift_left, shape, no_null, found) refl
  where
    no_null : (ba.proxy == 0) ≡ false
    no_null = ground (arith, shared)

base_offset-proxy :
    (ba : BaArray) (s : Store) (p : Proxy)
    → ba.proxy ≢ 0
    → s.proxies ba.proxy ≡ some p
    → base_offset ba s ≡ ok (int63 (distance ba.base p.base))
unfolding base_offset
base_offset-proxy ba s p shared found = rw (base_offset, no_null, found) refl
  where
    no_null : (ba.proxy == 0) ≡ false
    no_null = ground (arith, shared)

-- `caml_bigarray_shift_left` by `n`, below 2^31, of an array of one dimension `d` behind a proxy, of
-- which it lies `avail` bytes behind the start, below 2^62: `caml_bigarray_base_offset` gives `avail`,
-- and if `n` is at most `avail`, the shift succeeds, the array then starts `n` before, so not before the
-- start of the buffer, and its dimension is larger by `n`, so its end (counted in bytes, below 2^64) is
-- where it was; if `n` is larger, it fails and leaves the array unchanged.
pub shift_left_lem :
    (ba : BaArray) (n : ℕ) (s : Store) (d avail : ℕ) (p : Proxy)
    → ba.dim ≡ d ∷ []
    → ba.proxy ≢ 0
    → s.proxies ba.proxy ≡ some p
    → ba.base ≡ p.base + avail
    → ba.base + d < 2 ^ 64
    → avail < 2 ^ 62
    → n < 2 ^ 31
    → (base_offset ba s ≡ ok (pos avail))
      × (shift_left ba (pos n) s ≡ (
          if leb n avail
          then ok (true, record ba { base = p.base + (avail - n); dim = (d + n) ∷ [] })
          else ok (false, ba)))
shift_left_lem ba n s d avail p shape shared found place small near short = (
  offset,
  shift_left-proxy ba (pos n) s d p shape shared found
      ∙ rw (int_val_pos n short, fits, place)
          (elim (Bool-cases (leb n avail)) [
            | inl enough ↦ rw (enough) (moved (ground arith))
            | inr few ↦ rw (few) refl
          ]),
)
  where
    fits : ltb_ℤ (distance ba.base p.base) (pos n) ≡ not (leb n avail)
    fits = rw (distance_lem ba.base p.base avail place (omega (arith, near))) (ground arith)

    offset : base_offset ba s ≡ ok (pos avail)
    offset =
        base_offset-proxy ba s p shared found
        ∙ ap (λ o. ok (int63 o)) (distance_lem ba.base p.base avail place (omega (arith, near)))
        ∙ ap ok (int63_lem avail near)

    moved :
        n ≤ avail
        → ◌≡◌ {A = Result (Bool × BaArray)}
            (ok (
              true,
              record ba { base = sub_word (p.base + avail) (pos n); dim = add_word d (pos n) ∷ [] },
            ))
            (ok (true, record ba { base = p.base + (avail - n); dim = (d + n) ∷ [] }))
    moved h =
        ap₂ (λ a e. ok (true, record ba { base = a; dim = e ∷ [] }))
          (omega (arith, place, small, short, h)) (omega (arith, place, small, short, h))

-- `caml_bigarray_shift_left` by a negative number, -`n` with `n` at most 2^31, of an array of one
-- dimension `d` behind a proxy, at or behind the start of its buffer: it always succeeds, and moves
-- the start to the right by `n`, also when `n` is larger than `d`; the dimension is then negative.
pub shift_left_negative :
    (ba : BaArray) (n : ℕ) (s : Store) (d : ℕ) (p : Proxy)
    → ba.dim ≡ d ∷ []
    → ba.proxy ≢ 0
    → s.proxies ba.proxy ≡ some p
    → p.base ≤ ba.base
    → ba.base + n < 2 ^ 63
    → d < 2 ^ 63
    → 1 ≤ n
    → n ≤ 2 ^ 31
    → shift_left ba (neg_ℕ n) s
      ≡ ok (
        true,
        record ba { base = ba.base + n; dim = (if leb n d then d - n else 2 ^ 64 - (n - d)) ∷ [] },
      )
shift_left_negative ba zero s d p shape shared found place small shortd some_n short =
    absurd (omega arith)
shift_left_negative ba (suc n) s d p shape shared found place small shortd some_n short =
    shift_left-proxy ba (negsuc n) s d p shape shared found
    ∙ rw (int_val_neg n (omega arith), fits)
        (ap₂ (λ a e. ok (true, record ba { base = a; dim = e ∷ [] })) (omega arith) (ground arith))
  where
    fits : ltb_ℤ (distance ba.base p.base) (negsuc n) ≡ false
    fits =
        rw
          (distance_lem ba.base p.base (ba.base - p.base) (omega (arith, place))
            (omega (arith, small)))
          (ground arith)
