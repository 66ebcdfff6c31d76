-- ===== src/Tests/Views.antt =====
-- packages/mirage-platform/runtime/ocaml/bigarray_stubs.c: views, marshalling, comparison and
-- finalization of small arrays.
use mirage_kfreebsd.Base.{
  ℕ, zero, suc, ◌==◌, ◌<◌, if◌then◌else◌, ◌+◌, ◌*◌, ◌%◌, ◌≤◌, ◌≡◌, refl, arith, ok, none, some, [],
  ◌∷◌, ◌++◌,
}
use mirage_kfreebsd.Base.Int.{pos, negsuc}
use mirage_kfreebsd.Bigarray.{
  uint8, kind_of, is_c_layout, managed_of, element_size, BaArray, Store, update, num_elts, mul_dims,
}
use mirage_kfreebsd.Bigarray.Alloc.{Malloc, alloc, contents_of, sum_dims}
use mirage_kfreebsd.Bigarray.Alloc.Multov.{product}
use mirage_kfreebsd.Bigarray.Access.{decode, read_elt}
use mirage_kfreebsd.Bigarray.Access.Bytes.{read_le}
use mirage_kfreebsd.Bigarray.View.{
  sub, from_zero, step_size, changed_dim, bad_range, update_proxy, update_size, attach, proxy_size,
}
use mirage_kfreebsd.Bigarray.View.Sub.{sub_inside}
use mirage_kfreebsd.Bigarray.Compare.{
  compare, compare_dims, compare_contents, compare_elements, element, value_of,
}
use mirage_kfreebsd.Bigarray.Compare.Order.{compare_first_element, compare_first_dim, compare_zero}
use mirage_kfreebsd.Bigarray.Marshal.{serialize, deserialize, Read}
use mirage_kfreebsd.Bigarray.Marshal.RoundTrip.{deserialize-serialize}

-- A page of bytes that is 16 bytes long, managed, in the layout of C.
abbrev page : BaArray
page = record { base = 4096; data2 = 64; flags = 0x201; proxy = 0; dim = 16 ∷ [] }

abbrev memory : Store
memory = record {
  bytes = λ x. x % 256;
  counters = λ x. none;
  proxies = λ x. none;
  mtod = λ x. x + 24;
  freed = [];
}

abbrev room : Malloc
room = record { contents = 0; counter = 72 }

abbrev page_shared : BaArray
page_shared = record page { proxy = 96 }

abbrev view : BaArray
view = record { base = 4100; data2 = 72; flags = 0x201; proxy = 96; dim = 8 ∷ [] }

abbrev counted : Store
counted = record memory {
  counters = update memory.counters 72 (some (record { refcount = 1; size = 16 }));
}

abbrev shared : Store
shared = record memory {
  counters = update counted.counters 72 (some (record { refcount = 1; size = 8 }));
  proxies = update memory.proxies 96 (some (record { refcount = 2; base = 4096; size = 0 }));
}

subs : sub room 96 page 4 8 memory ≡ ok (page_shared, view, shared)
unfolding sub from_zero step_size changed_dim bad_range update_proxy update_size attach proxy_size
    alloc contents_of is_c_layout managed_of kind_of element_size mul_dims sum_dims
subs = refl

sub_inside_example :
    (4 + 8 ≤ 16)
    × (view.dim ≡ 8 ∷ [])
    × (page.base ≤ view.base)
    × (view.base + product (8 ∷ []) * element_size uint8
        ≤ page.base + product (16 ∷ []) * element_size uint8)
    × (read_elt uint8 view 3 shared.bytes ≡ read_elt uint8 page (4 * product [] + 3) memory.bytes)
unfolding is_c_layout managed_of kind_of element_size
sub_inside_example =
    sub_inside room 96 page 4 8 memory page_shared view shared 16 [] uint8 3 subs refl refl refl
      (λ e. omega arith) (λ e. omega arith) (λ e. omega arith) (omega arith) (omega arith)
      (omega arith) (omega arith)

-- The same over a received mbuf: the view's data pointer is no address of the packet.
abbrev packet : BaArray
packet = record { base = 4096; data2 = 4072; flags = 0x801; proxy = 0; dim = 16 ∷ [] }

abbrev packet_shared : BaArray
packet_shared = record packet { proxy = 96 }

abbrev packet_view : BaArray
packet_view = record { base = 4124; data2 = 4100; flags = 0x801; proxy = 96; dim = 8 ∷ [] }

abbrev packet_memory : Store
packet_memory = record memory {
  proxies = update memory.proxies 96 (some (record { refcount = 2; base = 4096; size = 0 }));
}

subs_packet : sub room 96 packet 4 8 memory ≡ ok (packet_shared, packet_view, packet_memory)
unfolding sub from_zero step_size changed_dim bad_range update_proxy update_size attach proxy_size
    alloc contents_of is_c_layout managed_of kind_of element_size mul_dims sum_dims
subs_packet = refl

-- Three mbufs refer to the page by its counter.
abbrev in_flight : Store
in_flight = record shared {
  counters = update shared.counters 64 (some (record { refcount = 4; size = 16 }));
}

-- Two arrays of four bytes, which differ in the third.
abbrev four : ℕ → BaArray
four base = record { base = base; data2 = 64; flags = 0x201; proxy = 0; dim = 4 ∷ [] }

abbrev one_seven : ℕ → ℕ
one_seven x = if x == 5002 then 7 else 0

compare_first_element_example :
    (compare (four 4096) (four 5000) one_seven ≡ negsuc 0)
    × (compare (four 5000) (four 4096) one_seven ≡ pos 1)
unfolding kind_of num_elts mul_dims read_elt decode read_le element_size
compare_first_element_example =
    compare_first_element (four 4096) (four 5000) uint8 2 one_seven refl refl (λ e. cc) refl
      (omega arith) equal_before refl
  where
    equal_before :
        (n : ℕ)
        → n < 2
        → read_elt uint8 (four 4096) n one_seven ≡ read_elt uint8 (four 5000) n one_seven
    equal_before zero h = refl
    equal_before (suc zero) h = refl
    equal_before (suc (suc n)) h = absurd (omega arith)

compare_first_dim_example :
    (compare (record page { dim = 3 ∷ 16 ∷ [] }) (record page { dim = 3 ∷ 17 ∷ [] }) memory.bytes
      ≡ negsuc 0)
    × (compare (record page { dim = 3 ∷ 17 ∷ [] }) (record page { dim = 3 ∷ 16 ∷ [] }) memory.bytes
        ≡ pos 1)
compare_first_dim_example =
    compare_first_dim (record page { dim = 3 ∷ 16 ∷ [] }) (record page { dim = 3 ∷ 17 ∷ [] })
      (3 ∷ []) [] [] 16 17 memory.bytes refl refl refl refl

compares : compare page page memory.bytes ≡ pos 0
unfolding compare compare_dims compare_contents compare_elements kind_of num_elts mul_dims element
    value_of read_le element_size
compares = refl

compare_zero_example :
    (page.dim ≡ page.dim) × (element uint8 page 5 memory.bytes ≡ element uint8 page 5 memory.bytes)
unfolding kind_of num_elts mul_dims
compare_zero_example = compare_zero page page uint8 5 memory.bytes compares refl (omega arith)

deserialize-serialize_example :
    (r : Read) × (deserialize 8192 3 0
        ((serialize page memory.bytes).0 ++ (1 ∷ 2 ∷ []))
        memory.bytes
      ≡ ok r)
    × (r.rest ≡ 1 ∷ 2 ∷ [])
    × (kind_of r.array.flags ≡ some uint8)
    × (is_c_layout r.array.flags ≡ is_c_layout page.flags)
    × (r.array.dim ≡ page.dim)
    × (read_elt uint8 r.array 5 r.bytes ≡ read_elt uint8 page 5 memory.bytes)
unfolding kind_of num_elts mul_dims element_size
deserialize-serialize_example =
    deserialize-serialize page uint8 memory.bytes memory.bytes 8192 3 0 5 (1 ∷ 2 ∷ []) refl
      (λ e. cc) (λ x. omega arith) (omega arith, tt) (omega arith) (omega arith) (λ e. omega arith)
      (omega arith) (omega arith) (omega arith) (omega arith)

abbrev longs : BaArray
longs = record { base = 4096; data2 = 64; flags = 0x205; proxy = 0; dim = 2 ∷ [] }
