-- ===== src/Base/Results.antt =====
-- What a primitive of the run-time does: it returns, it raises an OCaml exception, it touches memory
-- that is not its own (undefined in C), or a bounded loop of the model runs out of rounds.
use Prim.Native.String.{String}
use mathlib.Core.Path.{◌≡◌, refl}
use mathlib.Core.Bool.{Bool, true, false}
use mathlib.Core.Option.{Option, none, some}

pub data Exn : Type 0 where
  failure : String → Exn
  invalid_argument : String → Exn
  out_of_memory : Exn
  bound_error : Exn
  zero_divide : Exn

pub data Result {ℓ} (A : Type ℓ) : Type ℓ where
  fault : Result A
  out_of_fuel : Result A
  raise : Exn → Result A
  ok : A → Result A

module _ {ℓ κ} {A : Type ℓ} {B : Type κ} where
  infixl 5 ◌>>=◌
  abbrev pub ◌>>=◌ : Result A → (A → Result B) → Result B
  fault >>= next = fault
  out_of_fuel >>= next = out_of_fuel
  raise exn >>= next = raise exn
  ok value >>= next = next value

  -- Inversion of a bind that returned.
  pub >>=-eq-ok :
      (first : Result A) (next : A → Result B) {last : B}
      → (first >>= next) ≡ ok last
      → (value : A) × (first ≡ ok value) × (next value ≡ ok last)
  >>=-eq-ok fault next run = cc
  >>=-eq-ok out_of_fuel next run = cc
  >>=-eq-ok (raise exn) next run = cc
  >>=-eq-ok (ok value) next run = (value, refl, run)

infixl 5 ◌>>◌
abbrev pub ◌>>◌ {ℓ} : {B : Type ℓ} → Result (Unit {0}) → Result B → Result B
first >> rest = first >>= λ done. rest

-- `if (!test) raise e`.
abbrev pub guard : Bool → Exn → Result (Unit {0})
guard false exn = raise exn
guard true exn = ok tt

-- A value that is missing is a read out of bounds.
abbrev pub deref {ℓ} : {A : Type ℓ} → Option A → Result A
deref none = fault
deref (some a) = ok a

pub guard-eq-ok {ℓ} :
    {B : Type ℓ} (test : Bool) (exn : Exn) (rest : Result B) {last : B}
    → (guard test exn >> rest) ≡ ok last
    → (test ≡ true) × (rest ≡ ok last)
guard-eq-ok false exn rest run = cc
guard-eq-ok true exn rest run = (refl, run)

pub deref-eq-ok {ℓ} : {A : Type ℓ} (o : Option A) {a : A} → deref o ≡ ok a → o ≡ some a
deref-eq-ok none h = cc
deref-eq-ok (some x) h = cc

pub some_inj {ℓ} : {A : Type ℓ} {a b : A} → some a ≡ some b → a ≡ b
some_inj h = cc

pub ok_inj {ℓ} : {A : Type ℓ} {a b : A} → ok a ≡ ok b → a ≡ b
ok_inj h = cc
