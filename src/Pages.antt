-- ===== src/Pages.antt =====
-- packages/mirage-platform/runtime/kernel/page_stubs.c: pages for packets.
use mirage_kfreebsd.Base.{ℕ, ◌-◌, ◌*◌, [], ◌∷◌, Result, raise, failure, ◌==◌, if◌then◌else◌, u64}
use mirage_kfreebsd.Base.Int.{ℤ, pos, negsuc}
use mirage_kfreebsd.Bigarray.{BaArray, Store}
use mirage_kfreebsd.Bigarray.Alloc.{Malloc, alloc}
use mirage_kfreebsd.Cstruct.{int_val}

abbrev pub page_size : ℕ
page_size = 4096

-- A signed number as a `size_t`.
abbrev pub size_t : ℤ → ℕ
size_t (pos n) = u64 n
size_t (negsuc n) = 18446744073709551615 - n

-- `CAML_BA_UINT8 | CAML_BA_C_LAYOUT | CAML_BA_MANAGED`.
abbrev pub page_flags : ℕ
page_flags = 0x201

-- `contigmalloc` is the kernel's: from a size to an address, 0 if there is no memory.
unfoldable pub alloc_pages : (ℕ → ℕ) → Malloc → ℤ → Store → Result (BaArray × Store)
alloc_pages contigmalloc m n_pages s =
    let len = size_t (int_val n_pages) in
    let block = contigmalloc (u64 (page_size * len)) in
    if block == 0
    then raise (failure "contigmalloc")
    else alloc m page_flags (u64 (page_size * len) ∷ []) block s
