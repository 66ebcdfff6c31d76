-- ===== src/Bigarray/Index.antt =====
-- `caml_ba_offset`: the index of an element, with the bounds checked.
pub mod Linear
pub mod Bounds
use mirage_kfreebsd.Base.{
  ℕ, zero, suc, ◌+◌, ◌-◌, ◌*◌, List, [], ◌∷◌, map, reverse, Result, ok, raise, fault, bound_error,
  Bool, leb, if◌then◌else◌, u64,
}
use mirage_kfreebsd.Bigarray.{BaArray, is_c_layout}

-- `for (i ...) { if (index[i] >= dim[i]) error; offset = offset * dim[i] + index[i]; }`
unfoldable pub offset_loop : List ℕ → List ℕ → ℕ → Result ℕ
offset_loop [] [] offset = ok offset
offset_loop (d ∷ dim) (i ∷ index) offset =
    let rest = offset_loop dim index (u64 (offset * d + i)) in
    if leb d i then raise bound_error else rest
offset_loop _ _ offset = fault

-- `index[i] - 1`, as `uintnat`.
abbrev pub pred64 : ℕ → ℕ
pred64 i = u64 (i + 18446744073709551615)

-- The Fortran loop runs from the last dimension down to the first.
unfoldable pub offset : BaArray → List ℕ → Result ℕ
offset b index =
    if is_c_layout b.flags
    then offset_loop b.dim index 0
    else offset_loop (reverse b.dim) (map pred64 (reverse index)) 0
