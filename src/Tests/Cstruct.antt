-- ===== src/Tests/Cstruct.antt =====
-- packages/mirage-platform/runtime/ocaml/cstruct_stubs.c on a view 20 bytes behind its buffer.
use mirage_kfreebsd.Base.{
  ◌+◌, ◌-◌, ◌≡◌, refl, arith, [], ◌∷◌, ok, true, false, none, some, leb, if◌then◌else◌,
}
use mirage_kfreebsd.Base.Int.{pos}
use mirage_kfreebsd.Bigarray.{BaArray, Store, Proxy, update}
use mirage_kfreebsd.Cstruct.{base_offset, shift_left}
use mirage_kfreebsd.Cstruct.Shift.{shift_left_lem}

abbrev payload : BaArray
payload = record { base = 4116; data2 = 64; flags = 0x201; proxy = 96; dim = 100 ∷ [] }

abbrev buffer : Proxy
buffer = record { refcount = 2; base = 4096; size = 0 }

abbrev memory : Store
memory = record {
  bytes = λ x. 0;
  counters = λ x. none;
  proxies = update (λ x. none) 96 (some buffer);
  mtod = λ x. x;
  freed = [];
}

shift_left_lem_example :
    (base_offset payload memory ≡ ok (pos 20))
    × (shift_left payload (pos 14) memory ≡ (
        if leb 14 20
        then ok (true, record payload { base = 4096 + (20 - 14); dim = (100 + 14) ∷ [] })
        else ok (false, payload)))
shift_left_lem_example =
    shift_left_lem payload 14 memory 100 20 buffer refl (λ e. omega arith) refl refl (omega arith)
      (omega arith) (omega arith)
