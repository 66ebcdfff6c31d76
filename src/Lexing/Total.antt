-- ===== src/Lexing/Total.antt =====
-- The engine without memory on the tables of a generator: its accesses are in bounds, and it ends.
use mirage_kfreebsd.Base.{
  ℕ, zero, suc, ◌+◌, ◌-◌, ◌≡◌, ◌<◌, ◌≤◌, refl, ap, ◌∙◌, List, [], ◌∷◌, Result, ok, ◌>>=◌, deref,
  Bool, true, false, Bool-cases, inl, inr, Option, none, some, length, leb, if◌then◌else◌, ◌==◌,
  get_elem?, arith,
}
use mirage_kfreebsd.Base.Int.{ℤ, pos, negsuc, ◌+ℤ◌, eqb_ℤ}
use mirage_kfreebsd.Lexing.{
  LexBuffer, LexTable, Answer, returned, Round, stop, next_state, short, note_backtrack, next_char,
  lookup_move, backtrack, erase_eof, move_to, read_and_move, in_state, lex_round, lex_loop,
  enter_state, lex_engine,
}

module _ {ℓ} {A : Type ℓ} where
  has_elem : (xs : List A) (i : ℕ) → i < length xs → (x : A) × (get_elem? xs i ≡ some x)
  has_elem [] i h = elim h [ ]
  has_elem (x ∷ xs) zero h = (x, refl)
  has_elem (x ∷ xs) (suc i) h = has_elem xs i (omega arith)

pos_plus : (b c : ℕ) → pos b +ℤ pos c ≡ pos (b + c)
pos_plus b c = grind arith

short_pos : (tbl : List ℤ) (i : ℕ) {v : ℤ} → get_elem? tbl i ≡ some v → short tbl (pos i) ≡ ok v
unfolding short
short_pos tbl i found = ap deref found

short_at :
    (tbl : List ℤ) (b c : ℕ) {v : ℤ}
    → get_elem? tbl (b + c) ≡ some v
    → short tbl (pos b +ℤ pos c) ≡ ok v
short_at tbl b c found = ap (short tbl) (pos_plus b c) ∙ short_pos tbl (b + c) found

-- The tables of an automaton of `states` states, whose transitions stay among them.
pub record WellFormed (tbl : LexTable) (states : ℕ) : Type 0 where
  pub base_size : states ≤ length tbl.lex_base
  pub backtrk_size : states ≤ length tbl.lex_backtrk
  pub default_size : states ≤ length tbl.lex_default
  pub check_size :
      (s b : ℕ) → get_elem? tbl.lex_base s ≡ some (pos b) → b + 256 < length tbl.lex_check
  pub trans_size :
      (s b : ℕ) → get_elem? tbl.lex_base s ≡ some (pos b) → b + 256 < length tbl.lex_trans
  pub trans_target : (i s : ℕ) → get_elem? tbl.lex_trans i ≡ some (pos s) → s < states
  pub default_target : (i s : ℕ) → get_elem? tbl.lex_default i ≡ some (pos s) → s < states

-- The buffer holds as many bytes as it says.
pub record Filled (lexbuf : LexBuffer) : Type 0 where
  pub enough : lexbuf.lex_buffer_len ≤ length lexbuf.lex_buffer
  pub byte : (i c : ℕ) → get_elem? lexbuf.lex_buffer i ≡ some c → c < 256

abbrev pub eof_round : Bool → ℕ
eof_round false = 0
eof_round true = 1

-- The characters that are left, the one at the end of the input included.
abbrev pub chars_left : LexBuffer → ℕ
chars_left lexbuf = lexbuf.lex_buffer_len - lexbuf.lex_curr_pos + eof_round lexbuf.lex_eof_reached

data Advances (states : ℕ) (lexbuf : LexBuffer) : Round → Type 0 where
  stops : {answer : Answer} {after : LexBuffer} → Advances states lexbuf (stop answer after)
  moves :
      {s : ℕ} {after : LexBuffer}
      → s < states
      → Filled after
      → chars_left after < chars_left lexbuf
      → Advances states lexbuf (next_state s after)

-- What `next_char` gives: the characters that are left after it are fewer than the bound.
data Reads (bound : ℕ) : Result (Option (ℕ × LexBuffer)) → Type 0 where
  refill : Reads bound (ok none)
  read_char :
      {c : ℕ} {after : LexBuffer}
      → c ≤ 256
      → Filled after
      → chars_left (erase_eof c after) < bound
      → Reads bound (ok (some (c, after)))

chars_left-erase_eof :
    (c : ℕ) (lexbuf : LexBuffer) → chars_left (erase_eof c lexbuf) ≤ chars_left lexbuf
unfolding erase_eof
chars_left-erase_eof c lexbuf = elim (Bool-cases (c == 256)) [
  | inl at_end ↦ rw at_end (omega arith)
  | inr inside ↦ rw inside (omega arith)
]

end_erased :
    (lexbuf : LexBuffer)
    → lexbuf.lex_eof_reached ≡ true
    → chars_left (erase_eof 256 lexbuf) < chars_left lexbuf
unfolding erase_eof
end_erased lexbuf at_end = simp at_end (omega arith)

next_char-Reads :
    (lexbuf : LexBuffer) {bound : ℕ}
    → Filled lexbuf
    → chars_left lexbuf ≤ bound
    → Reads bound (next_char lexbuf)
unfolding next_char
next_char-Reads lexbuf {bound} filled le =
    elim (Bool-cases (leb lexbuf.lex_buffer_len lexbuf.lex_curr_pos)) [
      | inl used ↦ rw used (at_end lexbuf.lex_eof_reached refl)
      | inr left ↦
          let enough = filled.enough in
          let (c, byte) = has_elem lexbuf.lex_buffer lexbuf.lex_curr_pos (ground arith) in
          let small = filled.byte lexbuf.lex_curr_pos c byte in
          let erased =
            chars_left-erase_eof c (record lexbuf { lex_curr_pos = lexbuf.lex_curr_pos + 1 }) in
          rw (left, byte)
            (read_char (omega arith) (record { enough = filled.enough; byte = filled.byte })
              (ground arith))
    ]
  where
    at_end :
        (eof : Bool)
        → lexbuf.lex_eof_reached ≡ eof
        → Reads bound (if eof then ok (some (256, lexbuf)) else ok none)
    at_end true e = let erased = end_erased lexbuf e in read_char (omega arith) filled (omega arith)
    at_end false e = refill

record RoundOf (states : ℕ) (lexbuf : LexBuffer) (run : Result Round) : Type 0 where
  round : Round
  gives : run ≡ ok round
  advances : Advances states lexbuf round

module _ (tbl : LexTable) (states : ℕ) (wf : WellFormed tbl states) where
  backtrack-Advances : (start lexbuf : LexBuffer) → Advances states start (backtrack lexbuf)
  unfolding backtrack
  backtrack-Advances start lexbuf = elim (Bool-cases (eqb_ℤ lexbuf.lex_last_action (negsuc 0))) [
    | inl none_found ↦ rw none_found stops
    | inr found ↦ rw found stops
  ]

  -- A character that was read, with what is left after it.
  move_to-Advances :
      (start : LexBuffer) (c : ℕ) (to : ℤ) (lexbuf : LexBuffer)
      → ((s : ℕ) → to ≡ pos s → s < states)
      → Filled lexbuf
      → chars_left (erase_eof c lexbuf) < chars_left start
      → Advances states start (move_to c to lexbuf)
  unfolding move_to erase_eof
  move_to-Advances start c (negsuc n) lexbuf target filled less = backtrack-Advances start lexbuf
  move_to-Advances start c (pos s) lexbuf target filled less =
      moves (target s refl) (erase_eof-Filled c lexbuf filled) less
    where
      erase_eof-Filled : (c : ℕ) (lexbuf : LexBuffer) → Filled lexbuf → Filled (erase_eof c lexbuf)
      erase_eof-Filled c lexbuf filled = elim (Bool-cases (c == 256)) [
        | inl at_end ↦ rw at_end (record { enough = filled.enough; byte = filled.byte })
        | inr inside ↦ rw inside filled
      ]

  abbrev Target : ℤ → Type 0
  Target to = (s : ℕ) → to ≡ pos s → s < states

  -- A move that is looked up is in the tables.
  lookup_move-Target :
      (s b c : ℕ)
      → s < states
      → get_elem? tbl.lex_base s ≡ some (pos b)
      → c ≤ 256
      → (to : ℤ) × (lookup_move tbl.lex_check tbl.lex_trans tbl.lex_default (pos b) c s ≡ ok to)
        × Target to
  unfolding lookup_move
  lookup_move-Target s b c inside base char =
      let check_size = wf.check_size s b base in
      let trans_size = wf.trans_size s b base in
      let default_size = wf.default_size in
      let (owner, owned) = has_elem tbl.lex_check (b + c) (omega arith) in
      let (to, moved) = has_elem tbl.lex_trans (b + c) (omega arith) in
      let (other, defaulted) = has_elem tbl.lex_default s (omega arith) in
      by_owner owner to other (short_at tbl.lex_check b c owned) (short_at tbl.lex_trans b c moved)
        (short_pos tbl.lex_default s defaulted)
        (λ s' e. wf.trans_target (b + c) s' (moved ∙ ap some e))
        (λ s' e. wf.default_target s s' (defaulted ∙ ap some e))
    where
      by_owner :
          (owner to other : ℤ)
          → short tbl.lex_check (pos b +ℤ pos c) ≡ ok owner
          → short tbl.lex_trans (pos b +ℤ pos c) ≡ ok to
          → short tbl.lex_default (pos s) ≡ ok other
          → Target to
          → Target other
          → (to : ℤ) × (lookup_move tbl.lex_check tbl.lex_trans tbl.lex_default (pos b) c s ≡ ok to)
            × Target to
      by_owner owner to other owned moved defaulted to_ok other_ok =
          elim (Bool-cases (eqb_ℤ owner (pos s))) [
            | inl own ↦ (to, rw (owned, own) moved, to_ok)
            | inr foreign ↦ (other, rw (owned, foreign) defaulted, other_ok)
          ]

  read_and_move-advances :
      (start lexbuf : LexBuffer) (s b : ℕ)
      → chars_left lexbuf ≤ chars_left start
      → Filled lexbuf
      → s < states
      → get_elem? tbl.lex_base s ≡ some (pos b)
      → RoundOf states start (read_and_move tbl (pos b) s lexbuf)
  unfolding read_and_move
  read_and_move-advances start lexbuf s b le filled inside base =
      by_read (next_char lexbuf) (next_char-Reads lexbuf filled le)
    where
      by_read :
          (read : Result (Option (ℕ × LexBuffer)))
          → Reads (chars_left start) read
          → RoundOf states start (
              read >>= λ got. elim got [
                | none ↦ ok (stop (returned (negsuc s)) lexbuf)
                | some r ↦
                    lookup_move tbl.lex_check tbl.lex_trans tbl.lex_default (pos b) r.0 s >>= λ to.
                    ok (move_to r.0 to r.1)
              ])
      by_read _ refill = record { round = _; gives = refl; advances = stops }
      by_read _ (read_char {c} {after} char_ok after_ok less) =
          let (to, found, target) = lookup_move-Target s b c inside base char_ok in
          record {
            round = move_to c to after;
            gives = rw found refl;
            advances = move_to-Advances start c to after target after_ok less;
          }

  note_backtrack-Filled :
      (backtrk : ℤ) (lexbuf : LexBuffer) → Filled lexbuf → Filled (note_backtrack backtrk lexbuf)
  unfolding note_backtrack
  note_backtrack-Filled (pos action) lexbuf filled = record {
    enough = filled.enough;
    byte = filled.byte;
  }
  note_backtrack-Filled (negsuc n) lexbuf filled = filled

  chars_left-note_backtrack :
      (backtrk : ℤ) (lexbuf : LexBuffer)
      → chars_left (note_backtrack backtrk lexbuf) ≡ chars_left lexbuf
  unfolding note_backtrack
  chars_left-note_backtrack (pos action) lexbuf = refl
  chars_left-note_backtrack (negsuc n) lexbuf = refl

  -- A round is in bounds, and a round that goes on leaves fewer characters.
  in_state-advances :
      (s : ℕ) (base : ℤ) (lexbuf : LexBuffer)
      → Filled lexbuf
      → s < states
      → get_elem? tbl.lex_base s ≡ some base
      → RoundOf states lexbuf (in_state tbl base s lexbuf)
  unfolding in_state
  in_state-advances s (negsuc action) lexbuf filled inside base = record {
    round = _;
    gives = refl;
    advances = stops;
  }
  in_state-advances s (pos b) lexbuf filled inside base =
      let backtrk_size = wf.backtrk_size in
      let (backtrk, found) = has_elem tbl.lex_backtrk s (omega arith) in
      let same = chars_left-note_backtrack backtrk lexbuf in
      let round =
        read_and_move-advances lexbuf (note_backtrack backtrk lexbuf) s b (omega (arith, same))
          (note_backtrack-Filled backtrk lexbuf filled) inside base in
      rw (short_pos tbl.lex_backtrk s found) round

  lex_round-advances :
      (s : ℕ) (lexbuf : LexBuffer)
      → Filled lexbuf
      → s < states
      → RoundOf states lexbuf (lex_round tbl s lexbuf)
  unfolding lex_round
  lex_round-advances s lexbuf filled inside =
      let base_size = wf.base_size in
      let (base, found) = has_elem tbl.lex_base s (omega arith) in
      rw (short_pos tbl.lex_base s found) (in_state-advances s base lexbuf filled inside found)

  lex_loop-ends :
      (rounds s : ℕ) (lexbuf : LexBuffer)
      → Filled lexbuf
      → s < states
      → chars_left lexbuf < rounds
      → (last : Answer × LexBuffer) × (lex_loop tbl rounds s lexbuf ≡ ok last)
  unfolding lex_loop
  lex_loop-ends zero s lexbuf filled inside fuel = elim fuel [ ]
  lex_loop-ends (suc rounds) s lexbuf filled inside fuel =
      let first = lex_round-advances s lexbuf filled inside in
      rw first.gives (go_on (lex_loop-ends rounds) first.round first.advances)
    where
      go_on :
          (ih : (s : ℕ) (after : LexBuffer)
            → Filled after
            → s < states
            → chars_left after < rounds
            → (last : Answer × LexBuffer) × (lex_loop tbl rounds s after ≡ ok last))
          (round : Round)
          → Advances states lexbuf round
          → (last : Answer × LexBuffer) × ◌≡◌ {A = Result (Answer × LexBuffer)}
              (elim round [
                | stop answer after ↦ ok (answer, after)
                | next_state s' after ↦ lex_loop tbl rounds s' after
              ])
              (ok last)
      go_on ih (stop answer after) stops = ((answer, after), refl)
      go_on ih (next_state s' after) (moves inside filled less) =
          ih s' after filled inside (omega arith)

-- With tables whose transitions stay among the states, and a buffer that holds the bytes it says, the
-- engine returns from a first entry or a reentry at a state of the automaton: every access is in
-- bounds, and a round for each character left, one for the end of the input and one more are enough.
pub lex_engine-returns :
    (tbl : LexTable) (states : ℕ)
    → WellFormed tbl states
    → (rounds : ℕ) (start : ℤ) (lexbuf : LexBuffer) → (enter_state start lexbuf).0 < states
    → Filled lexbuf
    → chars_left lexbuf < rounds
    → (last : Answer × LexBuffer) × (lex_engine tbl rounds start lexbuf ≡ ok last)
unfolding lex_engine enter_state
lex_engine-returns tbl states wf rounds (pos s) lexbuf inside filled fuel =
    lex_loop-ends tbl states wf rounds s _ (record { enough = filled.enough; byte = filled.byte })
      inside fuel
lex_engine-returns tbl states wf rounds (negsuc s) lexbuf inside filled fuel =
    lex_loop-ends tbl states wf rounds s lexbuf filled inside fuel
