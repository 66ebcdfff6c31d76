-- ===== src/Lexing/Simulation.antt =====
-- The engine with memory against the one without.
use mirage_kfreebsd.Base.{
  ℕ, zero, suc, ◌≡◌, refl, ap, sym, ◌∙◌, List, [], Result, ok, ◌>>=◌, >>=-eq-ok, ok_inj, deref,
  Bool-cases, inl, inr, Option, none, some, leb, ◌==◌, get_elem?, drop,
}
use mirage_kfreebsd.Base.Int.{ℤ, pos, negsuc, ltb_ℤ, eqb_ℤ}
use mirage_kfreebsd.Lexing.{
  LexBuffer, LexTable, Answer, returned, Round, stop, next_state, short, note_backtrack, next_char,
  lookup_move, backtrack, erase_eof, move_to, read_and_move, in_state, lex_round, lex_loop,
  enter_state, lex_engine, run_moves, run_at, run_tag, run_mem, new_note_backtrack, new_move_to,
  new_read_and_move, new_in_state, new_lex_round, new_lex_loop, new_lex_engine,
}

-- The buffer without its memory.
unfoldable pub forget : LexBuffer → LexBuffer
forget lexbuf = record lexbuf { lex_mem = [] }

unfoldable pub forget_round : Round → Round
forget_round (stop answer lexbuf) = stop answer (forget lexbuf)
forget_round (next_state state lexbuf) = next_state state (forget lexbuf)

forget-run_at :
    (fresh : ℤ) (code : List ℕ) (pc_off : ℤ) (lexbuf : LexBuffer) {after : LexBuffer}
    → run_at fresh code pc_off lexbuf ≡ ok after
    → forget after ≡ forget lexbuf
unfolding run_at forget
forget-run_at fresh code (negsuc n) lexbuf run = cc
forget-run_at fresh code (pos pc_off) lexbuf run =
    let (mem, moves, after) = >>=-eq-ok (run_moves fresh (drop pc_off code) lexbuf.lex_mem) _ run in
    ap forget (sym (ok_inj after))

forget-run_tag :
    (tbl : LexTable) (pc_off : ℤ) (lexbuf : LexBuffer) {after : LexBuffer}
    → run_tag tbl pc_off lexbuf ≡ ok after
    → forget after ≡ forget lexbuf
unfolding run_tag
forget-run_tag tbl pc_off lexbuf run = forget-run_at (negsuc 0) tbl.lex_code pc_off lexbuf run

forget-run_mem :
    (tbl : LexTable) (pc_off : ℤ) (lexbuf : LexBuffer) {after : LexBuffer}
    → run_mem tbl pc_off lexbuf ≡ ok after
    → forget after ≡ forget lexbuf
unfolding run_mem
forget-run_mem tbl pc_off lexbuf run = elim (Bool-cases (ltb_ℤ (pos 0) pc_off)) [
  | inl some_code ↦
      forget-run_at (pos lexbuf.lex_curr_pos) tbl.lex_code pc_off lexbuf (rw some_code at run)
  | inr no_code ↦ ap forget (sym (ok_inj (rw no_code at run)))
]

forget-note_backtrack :
    (tbl : LexTable) (state : ℕ) (backtrk : ℤ) (lexbuf : LexBuffer) {noted : LexBuffer}
    → new_note_backtrack tbl state backtrk lexbuf ≡ ok noted
    → note_backtrack backtrk (forget lexbuf) ≡ forget noted
unfolding new_note_backtrack note_backtrack forget
forget-note_backtrack tbl state (negsuc n) lexbuf run = ap forget (ok_inj run)
forget-note_backtrack tbl state (pos action) lexbuf run =
    let (pc_off, code, rest) = >>=-eq-ok (short tbl.lex_backtrk_code (pos state)) _ run in
    let (tagged, tags, after) = >>=-eq-ok (run_tag tbl pc_off lexbuf) _ rest in
    ap (note_backtrack (pos action)) (sym (forget-run_tag tbl pc_off lexbuf tags))
    ∙ ap forget (ok_inj after)

forget-backtrack :
    (lexbuf : LexBuffer) → backtrack (forget lexbuf) ≡ forget_round (backtrack lexbuf)
unfolding backtrack forget_round forget
forget-backtrack lexbuf = elim (Bool-cases (eqb_ℤ lexbuf.lex_last_action (negsuc 0))) [
  | inl none_found ↦ rw none_found refl
  | inr found ↦ rw found refl
]

forget-erase_eof :
    (c : ℕ) (lexbuf : LexBuffer) → erase_eof c (forget lexbuf) ≡ forget (erase_eof c lexbuf)
unfolding erase_eof forget
forget-erase_eof c lexbuf = elim (Bool-cases (c == 256)) [
  | inl at_end ↦ rw at_end refl
  | inr inside ↦ rw inside refl
]

forget-move_to :
    (tbl : LexTable) (pstate c : ℕ) (to : ℤ) (lexbuf : LexBuffer) {round : Round}
    → new_move_to tbl pstate c to lexbuf ≡ ok round
    → move_to c to (forget lexbuf) ≡ forget_round round
unfolding new_move_to move_to forget_round
forget-move_to tbl pstate c (negsuc n) lexbuf run =
    forget-backtrack lexbuf ∙ ap forget_round (ok_inj run)
forget-move_to tbl pstate c (pos state) lexbuf run =
    let (base_code, base_run, rest) = >>=-eq-ok (short tbl.lex_base_code (pos pstate)) _ run in
    let (pc_off, code, rest') =
      >>=-eq-ok
        (lookup_move tbl.lex_check_code tbl.lex_trans_code tbl.lex_default_code base_code c pstate)
        _ rest in
    let (moved, moves, after) = >>=-eq-ok (run_mem tbl pc_off lexbuf) _ rest' in
    ap (λ l. next_state state (erase_eof c l)) (sym (forget-run_mem tbl pc_off lexbuf moves))
    ∙ ap (next_state state) (forget-erase_eof c moved)
    ∙ ap forget_round (ok_inj after)

abbrev forget_read : Option (ℕ × LexBuffer) → Option (ℕ × LexBuffer)
forget_read none = none
forget_read (some r) = some (r.0, forget r.1)

-- The next character does not depend on the memory.
forget-next_char :
    (lexbuf : LexBuffer) (read : Option (ℕ × LexBuffer))
    → next_char lexbuf ≡ ok read
    → next_char (forget lexbuf) ≡ ok (forget_read read)
unfolding next_char forget
forget-next_char lexbuf read run =
    elim (Bool-cases (leb lexbuf.lex_buffer_len lexbuf.lex_curr_pos)) [
      | inl used ↦ elim (Bool-cases lexbuf.lex_eof_reached) [
        | inl at_end ↦
            rw (used, at_end) (ap (λ r. ok (forget_read r)) (ok_inj (rw (used, at_end) at run)))
        | inr refill ↦
            rw (used, refill) (ap (λ r. ok (forget_read r)) (ok_inj (rw (used, refill) at run)))
      ]
      | inr left ↦
          let (c, byte, after) =
            >>=-eq-ok (deref (get_elem? lexbuf.lex_buffer lexbuf.lex_curr_pos)) _
              (rw left at run) in
          rw (left, byte) (ap (λ r. ok (forget_read r)) (ok_inj after))
    ]

forget-read :
    (tbl : LexTable) (base : ℤ) (state : ℕ) (lexbuf : LexBuffer) {round : Round}
    → new_read_and_move tbl base state lexbuf ≡ ok round
    → read_and_move tbl base state (forget lexbuf) ≡ ok (forget_round round)
unfolding new_read_and_move read_and_move forget_round
forget-read tbl base state lexbuf run =
    let (read, got, rest) = >>=-eq-ok (next_char lexbuf) _ run in
    rw (forget-next_char lexbuf read got) (by_read read rest)
  where
    by_read :
        (read : Option (ℕ × LexBuffer)) {round : Round}
        → (elim read [
          | none ↦ ok (stop (returned (negsuc state)) lexbuf)
          | some r ↦
              lookup_move tbl.lex_check tbl.lex_trans tbl.lex_default base r.0 state >>= λ to.
              new_move_to tbl state r.0 to r.1
        ])
          ≡ ok round
        → (elim (forget_read read) [
          | none ↦ ok (stop (returned (negsuc state)) (forget lexbuf))
          | some r ↦
              lookup_move tbl.lex_check tbl.lex_trans tbl.lex_default base r.0 state >>= λ to.
              ok (move_to r.0 to r.1)
        ])
          ≡ ok (forget_round round)
    by_read none e = ap (λ r. ok (forget_round r)) (ok_inj e)
    by_read (some r) e =
        let (to, found, after) =
          >>=-eq-ok (lookup_move tbl.lex_check tbl.lex_trans tbl.lex_default base r.0 state) _ e in
        rw found (ap ok (forget-move_to tbl state r.0 to r.1 after))

forget-in_state :
    (tbl : LexTable) (base : ℤ) (state : ℕ) (lexbuf : LexBuffer) {round : Round}
    → new_in_state tbl base state lexbuf ≡ ok round
    → in_state tbl base state (forget lexbuf) ≡ ok (forget_round round)
unfolding new_in_state in_state forget_round
forget-in_state tbl (negsuc action) state lexbuf run =
    let (pc_off, code, rest) = >>=-eq-ok (short tbl.lex_base_code (pos state)) _ run in
    let (tagged, tags, after) = >>=-eq-ok (run_tag tbl pc_off lexbuf) _ rest in
    ap (λ l. ok (stop (returned (pos action)) l)) (sym (forget-run_tag tbl pc_off lexbuf tags))
    ∙ ap (λ r. ok (forget_round r)) (ok_inj after)
forget-in_state tbl (pos base) state lexbuf run =
    let (backtrk, found, rest) = >>=-eq-ok (short tbl.lex_backtrk (pos state)) _ run in
    let (noted, notes, after) = >>=-eq-ok (new_note_backtrack tbl state backtrk lexbuf) _ rest in
    rw (found, forget-note_backtrack tbl state backtrk lexbuf notes)
      (forget-read tbl (pos base) state noted after)

forget-round :
    (tbl : LexTable) (state : ℕ) (lexbuf : LexBuffer) {round : Round}
    → new_lex_round tbl state lexbuf ≡ ok round
    → lex_round tbl state (forget lexbuf) ≡ ok (forget_round round)
unfolding new_lex_round lex_round
forget-round tbl state lexbuf run =
    let (base, found, rest) = >>=-eq-ok (short tbl.lex_base (pos state)) _ run in
    rw found (forget-in_state tbl base state lexbuf rest)

forget-loop :
    (tbl : LexTable) (rounds state : ℕ) (lexbuf : LexBuffer) {answer : Answer} {after : LexBuffer}
    → new_lex_loop tbl rounds state lexbuf ≡ ok (answer, after)
    → lex_loop tbl rounds state (forget lexbuf) ≡ ok (answer, forget after)
unfolding new_lex_loop lex_loop forget_round
forget-loop tbl zero state lexbuf run = cc
forget-loop tbl (suc rounds) state lexbuf {answer} {after} run =
    let (round, found, rest) = >>=-eq-ok (new_lex_round tbl state lexbuf) _ run in
    rw (forget-round tbl state lexbuf found) (go_on (λ s l. forget-loop tbl rounds s l) round rest)
  where
    go_on :
        (ih : (s : ℕ) (l : LexBuffer)
          → new_lex_loop tbl rounds s l ≡ ok (answer, after)
          → lex_loop tbl rounds s (forget l) ≡ ok (answer, forget after))
        (round : Round)
        → ◌≡◌ {A = Result (Answer × LexBuffer)}
            (elim round [
              | stop answer' lexbuf' ↦ ok (answer', lexbuf')
              | next_state state' lexbuf' ↦ new_lex_loop tbl rounds state' lexbuf'
            ])
            (ok (answer, after))
        → ◌≡◌ {A = Result (Answer × LexBuffer)}
            (elim (forget_round round) [
              | stop answer' lexbuf' ↦ ok (answer', lexbuf')
              | next_state state' lexbuf' ↦ lex_loop tbl rounds state' lexbuf'
            ])
            (ok (answer, forget after))
    go_on ih (stop answer' lexbuf') e =
        ap (λ (r : Answer × LexBuffer). ok (r.0, forget r.1)) (ok_inj e)
    go_on ih (next_state state' lexbuf') e = ih state' lexbuf' e

-- Where the engine with memory ends, the engine without memory ends in as many rounds with the same
-- answer, and in the same buffer but for the memory.
pub forget-lex_engine :
    (tbl : LexTable) (rounds : ℕ) (start : ℤ) (lexbuf : LexBuffer) {answer : Answer}
    {after : LexBuffer}
    → new_lex_engine tbl rounds start lexbuf ≡ ok (answer, after)
    → lex_engine tbl rounds start (forget lexbuf) ≡ ok (answer, forget after)
unfolding new_lex_engine lex_engine enter_state forget
forget-lex_engine tbl rounds (pos state) lexbuf run = forget-loop tbl rounds state _ run
forget-lex_engine tbl rounds (negsuc state) lexbuf run = forget-loop tbl rounds state lexbuf run
