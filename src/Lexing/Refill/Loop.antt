-- ===== src/Lexing/Refill/Loop.antt =====
-- The rounds before and after a refill.
use mathlib.Core.Path.{subst}
use mirage_kfreebsd.Base.{
  ℕ, zero, suc, ◌+◌, ◌≡◌, List, Result, ok, ◌>>=◌, >>=-eq-ok, ok_inj, false, arith,
}
use mirage_kfreebsd.Base.Int.{pos, negsuc}
use mirage_kfreebsd.Lexing.{
  LexBuffer, LexTable, Answer, returned, empty_token, Round, stop, next_state, lex_round, lex_loop,
  enter_state, lex_engine,
}
use mirage_kfreebsd.Lexing.Refill.{
  refill, Open, none_noted, Resumes, goes_on, ends, fails, runs_out, lex_round-Resumes,
}

one_more : (k rounds : ℕ) → suc (k + rounds) ≡ k + suc rounds
one_more k rounds = omega arith

rounds_comm : (k rounds : ℕ) → suc rounds + k ≡ suc (k + rounds)
rounds_comm k rounds = omega arith

module _ (tbl : LexTable) (more : List ℕ) where
  lex_loop-more :
      (rounds state extra : ℕ) (lexbuf : LexBuffer) {last : Answer × LexBuffer}
      → lex_loop tbl rounds state lexbuf ≡ ok last
      → lex_loop tbl (extra + rounds) state lexbuf ≡ ok last
  unfolding lex_loop
  lex_loop-more zero state extra lexbuf run = cc
  lex_loop-more (suc rounds) state extra lexbuf {last} run =
      let (round, found, rest) = >>=-eq-ok (lex_round tbl state lexbuf) _ run in
      subst (λ n. lex_loop tbl n state lexbuf ≡ ok last) (one_more extra rounds)
        (rw found (go_on (λ s l. lex_loop-more rounds s extra l) round rest))
    where
      go_on :
          (ih : (s : ℕ) (l : LexBuffer)
            → lex_loop tbl rounds s l ≡ ok last
            → lex_loop tbl (extra + rounds) s l ≡ ok last)
          (round : Round)
          → ◌≡◌ {A = Result (Answer × LexBuffer)}
              (elim round [
                | stop answer after ↦ ok (answer, after)
                | next_state s after ↦ lex_loop tbl rounds s after
              ])
              (ok last)
          → ◌≡◌ {A = Result (Answer × LexBuffer)}
              (elim round [
                | stop answer after ↦ ok (answer, after)
                | next_state s after ↦ lex_loop tbl (extra + rounds) s after
              ])
              (ok last)
      go_on ih (stop answer after) e = e
      go_on ih (next_state s after) e = ih s after e

  rewind :
      (k : ℕ) {last : Answer × LexBuffer} (s : ℕ) (after : LexBuffer) (state : ℕ)
      (lexbuf : LexBuffer)
      → ◌≡◌ {A = Answer × LexBuffer} (returned (negsuc state), lexbuf) (returned (negsuc s), after)
      → lex_loop tbl k s (refill more after) ≡ ok last
      → lex_loop tbl k state (refill more lexbuf) ≡ ok last
  rewind k {last} s after state lexbuf same resumed =
      let states : s ≡ state = cc in
      let buffers : after ≡ lexbuf = cc in
      subst (λ l. lex_loop tbl k state (refill more l) ≡ ok last) buffers
        (subst (λ n. lex_loop tbl k n (refill more after) ≡ ok last) states resumed)

  lex_loop-resumes :
      (rounds state k : ℕ) (lexbuf : LexBuffer) {s : ℕ} {after : LexBuffer}
      {last : Answer × LexBuffer}
      → Open lexbuf
      → lex_loop tbl rounds state lexbuf ≡ ok (returned (negsuc s), after)
      → lex_loop tbl k s (refill more after) ≡ ok last
      → lex_loop tbl (k + rounds) state (refill more lexbuf) ≡ ok last
  unfolding lex_loop
  lex_loop-resumes zero state k lexbuf going run resumed = cc
  lex_loop-resumes (suc rounds) state k lexbuf {s} {after} {last} going run resumed =
      let (round, found, rest) = >>=-eq-ok (lex_round tbl state lexbuf) _ run in
      subst (λ n. lex_loop tbl n state (refill more lexbuf) ≡ ok last) (one_more k rounds)
        (go_on (λ s' l o e. lex_loop-resumes rounds s' k l o e resumed) round
          (lex_round tbl state (refill more lexbuf))
          (lex_round-Resumes tbl more state lexbuf going found) rest)
    where
      go_on :
          (ih : (s' : ℕ) (l : LexBuffer)
            → Open l
            → lex_loop tbl rounds s' l ≡ ok (returned (negsuc s), after)
            → lex_loop tbl (k + rounds) s' (refill more l) ≡ ok last)
          (round : Round) (now : Result Round)
          → Resumes (lex_round tbl state) more state round now
          → ◌≡◌ {A = Result (Answer × LexBuffer)}
              (elim round [
                | stop answer l ↦ ok (answer, l)
                | next_state s' l ↦ lex_loop tbl rounds s' l
              ])
              (ok (returned (negsuc s), after))
          → ◌≡◌ {A = Result (Answer × LexBuffer)}
              (now >>= λ r. elim r [
                | stop answer l ↦ ok (answer, l)
                | next_state s' l ↦ lex_loop tbl (k + rounds) s' l
              ])
              (ok last)
      go_on ih (next_state s' l) _ (goes_on o) e = ih s' l o e
      go_on ih (stop (returned (pos action)) l) _ ends e = cc
      go_on ih (stop empty_token l) _ fails e = cc
      go_on ih (stop (returned (negsuc s')) l) now (runs_out same) e =
          let here = rewind k s after state l (ok_inj e) resumed in
          rw same (
            subst (λ n. lex_loop tbl n state (refill more l) ≡ ok last) (rounds_comm k rounds)
              (lex_loop-more k state (suc rounds) (refill more l) here))

-- With no end of the input announced, when a first entry asks for a refill, and the reentry in the state
-- it returned, on its buffer with more bytes appended, ends, then a first entry on the buffer with all
-- the bytes there from the start ends in the same answer and buffer, in the sum of the rounds.
pub lex_engine-refill :
    (tbl : LexTable) (more : List ℕ) (rounds k start : ℕ) (lexbuf : LexBuffer) {s : ℕ}
    {after : LexBuffer} {last : Answer × LexBuffer}
    → lexbuf.lex_eof_reached ≡ false
    → lex_engine tbl rounds (pos start) lexbuf ≡ ok (returned (negsuc s), after)
    → lex_engine tbl k (negsuc s) (refill more after) ≡ ok last
    → lex_engine tbl (k + rounds) (pos start) (refill more lexbuf) ≡ ok last
unfolding lex_engine enter_state refill
lex_engine-refill tbl more rounds k start lexbuf more_to_come run resumed =
    lex_loop-resumes tbl more rounds start k _
      (record { more_to_come = more_to_come; last = none_noted }) run resumed
