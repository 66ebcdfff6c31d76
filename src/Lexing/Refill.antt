-- ===== src/Lexing/Refill.antt =====
-- Running out of input, and going on after a refill.
pub mod Loop
use mathlib.Core.Path.{subst}
use mirage_kfreebsd.Base.{
  ℕ, zero, suc, ◌+◌, ◌≡◌, refl, ap, sym, ◌∙◌, List, [], ◌∷◌, ◌++◌, Result, ok, fault, out_of_fuel,
  ◌>>=◌, >>=-eq-ok, ok_inj, deref, deref-eq-ok, Bool, true, false, Bool-cases, inl, inr, Option,
  none, some, length, leb, if◌then◌else◌, ◌==◌, get_elem?, arith,
}
use mirage_kfreebsd.Base.Int.{ℤ, pos, negsuc, eqb_ℤ}
use mirage_kfreebsd.Lexing.{
  LexBuffer, LexTable, Answer, returned, empty_token, Round, stop, next_state, short,
  note_backtrack, next_char, lookup_move, backtrack, erase_eof, move_to, read_and_move, in_state,
  lex_round, lex_loop, enter_state, lex_engine,
}

-- The buffer after a refill that appends bytes.
unfoldable pub refill : List ℕ → LexBuffer → LexBuffer
refill more lexbuf = record lexbuf {
  lex_buffer = lexbuf.lex_buffer ++ more;
  lex_buffer_len = lexbuf.lex_buffer_len + length more;
}

get_elem?-append :
    {A : Type 0} (xs ys : List A) (i : ℕ) {x : A}
    → get_elem? xs i ≡ some x
    → get_elem? (xs ++ ys) i ≡ some x
get_elem?-append [] ys i e = cc
get_elem?-append (x ∷ xs) ys zero e = e
get_elem?-append (x ∷ xs) ys (suc i) e = get_elem?-append xs ys i e

-- No end of input, and no action noted but one that is not negative.
pub data Fresh : ℤ → Type 0 where
  none_noted : Fresh (negsuc 0)
  noted : {action : ℕ} → Fresh (pos action)

pub record Open (lexbuf : LexBuffer) : Type 0 where
  pub more_to_come : lexbuf.lex_eof_reached ≡ false
  pub last : Fresh lexbuf.lex_last_action

-- What becomes of a round when bytes are appended: it is the same, unless it ran out of input; then
-- `again` on the buffer after the refill gives what the round gives with the bytes there from the start.
pub data Resumes (again : LexBuffer → Result Round) (more : List ℕ) (state : ℕ)
    : Round → Result Round → Type 0 where
  goes_on :
      {s : ℕ} {after : LexBuffer}
      → Open after
      → Resumes again more state (next_state s after) (ok (next_state s (refill more after)))
  ends :
      {action : ℕ} {after : LexBuffer} {run : Result Round}
      → Resumes again more state (stop (returned (pos action)) after) run
  fails :
      {after : LexBuffer} {run : Result Round}
      → Resumes again more state (stop empty_token after) run
  runs_out :
      {after : LexBuffer} {run : Result Round}
      → run ≡ again (refill more after)
      → Resumes again more state (stop (returned (negsuc state)) after) run

used_after : (len curr added : ℕ) → leb len curr ≡ false → leb (len + added) curr ≡ false
used_after len curr added left = ground arith

noted_differs : (action : ℕ) → eqb_ℤ (pos action) (negsuc 0) ≡ false
noted_differs action = ground arith

-- A character that is there is there after a refill.
data Chars (more : List ℕ) : Option (ℕ × LexBuffer) → Result (Option (ℕ × LexBuffer)) → Type 0 where
  none_left : {run : Result (Option (ℕ × LexBuffer))} → Chars more none run
  same_char :
      {r : ℕ × LexBuffer} {run : Result (Option (ℕ × LexBuffer))}
      → Open r.1
      → run ≡ ok (some (r.0, refill more r.1))
      → Chars more (some r) run

next_char-refill :
    (more : List ℕ) (lexbuf : LexBuffer) {read : Option (ℕ × LexBuffer)}
    → Open lexbuf
    → next_char lexbuf ≡ ok read
    → Chars more read (next_char (refill more lexbuf))
unfolding next_char refill
next_char-refill more lexbuf going got =
    elim (Bool-cases (leb lexbuf.lex_buffer_len lexbuf.lex_curr_pos)) [
      | inl used ↦
          subst (λ r. Chars more r (next_char (refill more lexbuf)))
            (ok_inj (rw (used, going.more_to_come) at got)) none_left
      | inr left ↦
          let (c, byte, rest) =
            >>=-eq-ok (deref (get_elem? lexbuf.lex_buffer lexbuf.lex_curr_pos)) _
              (rw left at got) in
          let there =
            get_elem?-append lexbuf.lex_buffer more lexbuf.lex_curr_pos (deref-eq-ok _ byte) in
          let still = used_after lexbuf.lex_buffer_len lexbuf.lex_curr_pos (length more) left in
          subst (λ r. Chars more r (next_char (refill more lexbuf))) (ok_inj rest)
            (same_char (record { more_to_come = going.more_to_come; last = going.last })
              (rw (next_char, still, there) refl))
    ]

module _ (tbl : LexTable) (more : List ℕ) (again : LexBuffer → Result Round) where
  backtrack-Resumes :
      (state : ℕ) (lexbuf : LexBuffer) {run : Result Round}
      → Fresh lexbuf.lex_last_action
      → Resumes again more state (backtrack lexbuf) run
  unfolding backtrack
  backtrack-Resumes state lexbuf fresh = by_action lexbuf.lex_last_action fresh
    where
      by_action :
          (action : ℤ) {run : Result Round}
          → Fresh action
          → Resumes again more state
              (if eqb_ℤ action (negsuc 0)
                then stop empty_token (record lexbuf { lex_curr_pos = lexbuf.lex_last_pos })
                else stop (returned action) (record lexbuf { lex_curr_pos = lexbuf.lex_last_pos }))
              run
      by_action _ none_noted = fails
      by_action _ (noted {action}) = rw (noted_differs action) ends

  move_to-Resumes :
      (state c : ℕ) (to : ℤ) (lexbuf : LexBuffer)
      → Open lexbuf
      → Resumes again more state (move_to c to lexbuf) (ok (move_to c to (refill more lexbuf)))
  unfolding move_to erase_eof refill
  move_to-Resumes state c (negsuc n) lexbuf going = backtrack-Resumes state lexbuf going.last
  move_to-Resumes state c (pos s) lexbuf going = elim (Bool-cases (c == 256)) [
    | inl at_end ↦ rw at_end (goes_on (record { more_to_come = refl; last = going.last }))
    | inr inside ↦ rw inside (goes_on going)
  ]

  read_and_move-Resumes :
      (base : ℤ) (state : ℕ) (lexbuf : LexBuffer) {round : Round}
      → read_and_move tbl base state (refill more lexbuf) ≡ again (refill more lexbuf)
      → Open lexbuf
      → read_and_move tbl base state lexbuf ≡ ok round
      → Resumes again more state round (read_and_move tbl base state (refill more lexbuf))
  unfolding read_and_move
  read_and_move-Resumes base state lexbuf {round} same going run =
      let (read, got, rest) = >>=-eq-ok (next_char lexbuf) _ run in
      by_read read (next_char-refill more lexbuf going got) rest
    where
      by_read :
          (read : Option (ℕ × LexBuffer))
          → Chars more read (next_char (refill more lexbuf))
          → ◌≡◌ {A = Result Round}
              (elim read [
                | none ↦ ok (stop (returned (negsuc state)) lexbuf)
                | some r ↦
                    lookup_move tbl.lex_check tbl.lex_trans tbl.lex_default base r.0 state >>= λ to.
                    ok (move_to r.0 to r.1)
              ])
              (ok round)
          → Resumes again more state round (read_and_move tbl base state (refill more lexbuf))
      by_read none chars e =
          subst
            (λ r. Resumes again more state r (read_and_move tbl base state (refill more lexbuf)))
            (ok_inj e) (runs_out same)
      by_read (some r) (same_char later seen) e =
          let (to, found, after) =
            >>=-eq-ok (lookup_move tbl.lex_check tbl.lex_trans tbl.lex_default base r.0 state) _
              e in
          subst
            (λ k. Resumes again more state k (read_and_move tbl base state (refill more lexbuf)))
            (ok_inj after)
            (rw (read_and_move, seen, found) (move_to-Resumes state r.0 to r.1 later))

note_twice :
    (more : List ℕ) (backtrk : ℤ) (lexbuf : LexBuffer)
    → note_backtrack backtrk (refill more (note_backtrack backtrk lexbuf))
      ≡ refill more (note_backtrack backtrk lexbuf)
unfolding note_backtrack refill
note_twice more (pos action) lexbuf = refl
note_twice more (negsuc n) lexbuf = refl

note_backtrack-refill :
    (more : List ℕ) (backtrk : ℤ) (lexbuf : LexBuffer)
    → note_backtrack backtrk (refill more lexbuf) ≡ refill more (note_backtrack backtrk lexbuf)
unfolding note_backtrack refill
note_backtrack-refill more (pos action) lexbuf = refl
note_backtrack-refill more (negsuc n) lexbuf = refl

note_backtrack-Open :
    (backtrk : ℤ) (lexbuf : LexBuffer) → Open lexbuf → Open (note_backtrack backtrk lexbuf)
unfolding note_backtrack
note_backtrack-Open (pos action) lexbuf going = record {
  more_to_come = going.more_to_come;
  last = noted;
}
note_backtrack-Open (negsuc n) lexbuf going = going

module _ (tbl : LexTable) (more : List ℕ) where
  -- A round whose backtrack point is noted already goes straight to the next character.
  noted_round :
      {base : ℕ} {backtrk : ℤ} (state : ℕ) (lexbuf : LexBuffer)
      → short tbl.lex_base (pos state) ≡ ok (pos base)
      → short tbl.lex_backtrk (pos state) ≡ ok backtrk
      → note_backtrack backtrk lexbuf ≡ lexbuf
      → lex_round tbl state lexbuf ≡ read_and_move tbl (pos base) state lexbuf
  unfolding lex_round in_state
  noted_round {base} state lexbuf based found noted_already =
      rw based (rw found (ap (read_and_move tbl (pos base) state) noted_already))

  in_state-Resumes :
      (base : ℤ) (state : ℕ) (lexbuf : LexBuffer) {round : Round}
      → short tbl.lex_base (pos state) ≡ ok base
      → Open lexbuf
      → in_state tbl base state lexbuf ≡ ok round
      → Resumes
          (lex_round tbl state)
          more
          state
          round
          (in_state tbl base state (refill more lexbuf))
  unfolding in_state
  in_state-Resumes (negsuc action) state lexbuf based going run =
      subst
        (λ r.
          Resumes (lex_round tbl state) more state r
            (ok (stop (returned (pos action)) (refill more lexbuf))))
        (ok_inj run) ends
  in_state-Resumes (pos base) state lexbuf based going run =
      let (backtrk, found, rest) = >>=-eq-ok (short tbl.lex_backtrk (pos state)) _ run in
      let same = sym (
        noted_round state (refill more (note_backtrack backtrk lexbuf)) based found
          (note_twice more backtrk lexbuf)) in
      rw (found, note_backtrack-refill more backtrk lexbuf)
        (read_and_move-Resumes tbl more (lex_round tbl state) (pos base) state
          (note_backtrack backtrk lexbuf) same (note_backtrack-Open backtrk lexbuf going) rest)

  pub lex_round-Resumes :
      (state : ℕ) (lexbuf : LexBuffer) {round : Round}
      → Open lexbuf
      → lex_round tbl state lexbuf ≡ ok round
      → Resumes (lex_round tbl state) more state round (lex_round tbl state (refill more lexbuf))
  unfolding lex_round
  lex_round-Resumes state lexbuf going run =
      let (base, found, rest) = >>=-eq-ok (short tbl.lex_base (pos state)) _ run in
      rw found (in_state-Resumes base state lexbuf found going rest)
