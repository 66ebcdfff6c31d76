-- ===== src/Values/Compare/Unique.antt =====
-- A value stands for one tree.
use mathlib.Core.Path.{ap₂}
use mirage_kfreebsd.Base.{ℕ, ◌≡◌, refl, List, ◌∷◌, some, get_elem?, arith, some_inj, sym, ◌∙◌, ap}
use mirage_kfreebsd.Values.{Value, ptr, Block, Heap}
use mirage_kfreebsd.Values.Compare.Tree.{
  Tree, text, node, Forest, cons, Repr, a_long, a_string, a_block, a_forward, Reprs, no_fields,
  a_field,
}

head_inj : {v w : Value} {vs ws : List Value} → v ∷ vs ≡ w ∷ ws → v ≡ w
head_inj e = cc

tail_inj : {v w : Value} {vs ws : List Value} → v ∷ vs ≡ w ∷ ws → vs ≡ ws
tail_inj e = cc

module _ (heap : Heap) where
  same_block :
      {p q : ℕ} {b c : Block}
      → ptr p ≡ ptr q
      → heap.block p ≡ some b
      → heap.block q ≡ some c
      → b ≡ c
  same_block e hb hc = cc

  same_tag :
      {p q : ℕ} {b c : Block}
      → ptr p ≡ ptr q
      → heap.block p ≡ some b
      → heap.block q ≡ some c
      → b.tag ≡ c.tag
  same_tag e hb hc = ap (λ (x : Block). x.tag) (same_block e hb hc)

  mutual
    Repr-at : {v w : Value} {t u : Tree} → v ≡ w → Repr heap v t → Repr heap w u → t ≡ u
    Repr-at e (a_long p n) (a_long p' n') = cc
    Repr-at e (a_long p n) (a_string c f k s l) = cc
    Repr-at e (a_long p n) (a_block c f k l fs) = cc
    Repr-at e (a_long p n) (a_forward c w f k g r) = cc
    Repr-at e (a_string b h k s l) (a_long p n) = cc
    Repr-at e (a_block b h k l fs) (a_long p n) = cc
    Repr-at e (a_forward b v h k g r) (a_long p n) = cc
    Repr-at e (a_string b h k s l) (a_string c f k' s' l') =
        ap (λ (x : Block). text x.bytes) (same_block e h f)
    Repr-at e (a_string b h k s l) (a_block c f k' l' fs) = absurd (omega (arith, same_tag e h f))
    Repr-at e (a_string b h k s l) (a_forward c w f k' g r) = absurd (omega (arith, same_tag e h f))
    Repr-at e (a_block b h k l fs) (a_string c f k' s' l') = absurd (omega (arith, same_tag e h f))
    Repr-at e (a_block b h k l fs) (a_forward c w f k' g r) = absurd (omega (arith, same_tag e h f))
    Repr-at e (a_forward b v h k g r) (a_string c f k' s' l') =
        absurd (omega (arith, same_tag e h f))
    Repr-at e (a_forward b v h k g r) (a_block c f k' l' gs) =
        absurd (omega (arith, same_tag e h f))
    Repr-at e (a_block b h k l fs) (a_block c f k' l' gs) =
        ap₂ node (same_tag e h f) (Reprs-at (ap (λ (x : Block). x.fields) (same_block e h f)) fs gs)
    Repr-at e (a_forward b v h k g r) (a_forward c w f k' g' r') =
        Repr-at
          (some_inj (sym g ∙ ap (λ (x : Block). get_elem? x.fields 0) (same_block e h f) ∙ g')) r r'

    Reprs-at :
        {vs ws : List Value} {ts us : Forest}
        → vs ≡ ws
        → Reprs heap vs ts
        → Reprs heap ws us
        → ts ≡ us
    Reprs-at e no_fields no_fields = refl
    Reprs-at e no_fields (a_field r rs) = cc
    Reprs-at e (a_field r rs) no_fields = cc
    Reprs-at e (a_field r rs) (a_field r' rs') =
        ap₂ cons (Repr-at (head_inj e) r r') (Reprs-at (tail_inj e) rs rs')

  pub Repr-unique : {v : Value} {t u : Tree} → Repr heap v t → Repr heap v u → t ≡ u
  Repr-unique = Repr-at refl
