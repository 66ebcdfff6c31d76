-- ===== src/Tests/Bigarray.antt =====
-- packages/mirage-platform/runtime/ocaml/bigarray_stubs.c on small arrays.
use mirage_kfreebsd.Base.{
  ℕ, ◌*◌, ◌%◌, ◌^◌, ◌<◌, ◌≡◌, ◌≢◌, refl, ap, arith, ok, none, inl, List, [], ◌∷◌,
}
use mirage_kfreebsd.Base.Int.{pos, negsuc}
use mirage_kfreebsd.Bigarray.{sint16, kind_of, is_c_layout, element_size, BaArray, Store}
use mirage_kfreebsd.Bigarray.Alloc.{multov, total_size, count_elts, partial_overflow}
use mirage_kfreebsd.Bigarray.Alloc.Multov.{total_size_exact, product}
use mirage_kfreebsd.Bigarray.Index.{offset, offset_loop}
use mirage_kfreebsd.Bigarray.Index.Linear.{linear}
use mirage_kfreebsd.Bigarray.Index.Bounds.{offset-linear, ordered_dims, ordered_index}
use mirage_kfreebsd.Bigarray.Access.{get_n, set_aux, write_elt, fill, blit, read_elt}
use mirage_kfreebsd.Bigarray.Access.Laws.{get-set_self, get-set_ne}
use mirage_kfreebsd.Bigarray.Access.Bulk.{fill_all, blit_all}

-- Two dimensions of signed 16-bit numbers, in the layout of C.
abbrev matrix : BaArray
matrix = record { base = 4096; data2 = 64; flags = 0x202; proxy = 0; dim = 2 ∷ 3 ∷ [] }

abbrev other_matrix : BaArray
other_matrix = record { base = 4100; data2 = 72; flags = 0x202; proxy = 0; dim = 2 ∷ 3 ∷ [] }

abbrev memory : Store
memory = record {
  bytes = λ x. x % 256;
  counters = λ x. none;
  proxies = λ x. none;
  mtod = λ x. x;
  freed = [];
}

matrix_size : total_size 0x202 (2 ∷ 3 ∷ []) ≡ ok 12
unfolding total_size count_elts multov partial_overflow kind_of element_size
matrix_size = refl

total_size_exact_example :
    (12 ≡ product (2 ∷ 3 ∷ []) * element_size sint16)
    × (product (2 ∷ 3 ∷ []) * element_size sint16 < 2 ^ 64)
unfolding kind_of
total_size_exact_example =
    total_size_exact 0x202 (2 ∷ 3 ∷ []) sint16 (omega arith, (omega arith, tt)) refl 12 matrix_size

offset-linear_example :
    (offset matrix (1 ∷ 2 ∷ [])
      ≡ ok (linear (ordered_dims matrix) (ordered_index matrix (1 ∷ 2 ∷ []))))
    × (linear (ordered_dims matrix) (ordered_index matrix (1 ∷ 2 ∷ [])) < product matrix.dim)
unfolding is_c_layout
offset-linear_example =
    offset-linear matrix (1 ∷ 2 ∷ []) (omega arith, (omega arith, tt)) (omega arith)

get-set_self_example :
    (s' : Store) × (set_aux matrix (1 ∷ 2 ∷ []) (negsuc 4) memory ≡ ok s')
    × (get_n matrix (1 ∷ 2 ∷ []) s' ≡ ok (negsuc 4))
unfolding is_c_layout kind_of
get-set_self_example =
    get-set_self matrix sint16 refl (omega arith) (1 ∷ 2 ∷ []) (negsuc 4) memory
      (refl, (omega arith, (omega arith, tt))) (omega arith, omega arith)

abbrev written : Store
written = record memory { bytes = write_elt sint16 matrix 5 (negsuc 4) memory.bytes }

writes : set_aux matrix (1 ∷ 2 ∷ []) (negsuc 4) memory ≡ ok written
unfolding set_aux offset offset_loop is_c_layout kind_of
writes = refl

get-set_ne_example : get_n matrix (1 ∷ 1 ∷ []) written ≡ get_n matrix (1 ∷ 1 ∷ []) memory
unfolding is_c_layout kind_of element_size
get-set_ne_example =
    get-set_ne matrix sint16 refl (omega arith) (1 ∷ 2 ∷ []) (1 ∷ 1 ∷ []) (negsuc 4) memory written
      (refl, (omega arith, (omega arith, tt))) (refl, (omega arith, (omega arith, tt)))
      (λ e. two_one (ap last e)) (omega arith) writes
  where
    last : List ℕ → ℕ
    last (a ∷ b ∷ _) = b
    last _ = 0

    two_one : last (1 ∷ 2 ∷ []) ≢ last (1 ∷ 1 ∷ [])
    two_one e = omega arith

fill_all_example :
    (s' : Store) × (fill matrix (pos 7) memory ≡ ok s')
    × (read_elt sint16 matrix 5 s'.bytes ≡ pos 7)
unfolding kind_of element_size
fill_all_example =
    fill_all matrix sint16 refl (omega arith) (omega arith) (pos 7) memory 5
      (omega arith, omega arith) (omega arith)

-- The two matrices overlap.
blit_all_example :
    (s' : Store) × (blit matrix other_matrix memory ≡ ok s')
    × (read_elt sint16 other_matrix 5 s'.bytes ≡ read_elt sint16 matrix 5 memory.bytes)
    × (s'.bytes 4097 ≡ memory.bytes 4097)
unfolding kind_of element_size
blit_all_example =
    blit_all matrix other_matrix sint16 refl (omega arith) refl (omega arith) (omega arith)
      (omega arith) memory 5 4097 (omega arith) (inl (omega arith))
