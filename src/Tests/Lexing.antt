-- ===== src/Tests/Lexing.antt =====
-- An automaton of two states that takes the letter a.
use mirage_kfreebsd.Base.{
  ℕ, zero, suc, ◌≡◌, ◌<◌, refl, [], ◌∷◌, ok, true, false, replicate, get_elem?, set, some, some_inj,
  arith,
}
use mirage_kfreebsd.Base.Int.{ℤ, pos, negsuc}
use mirage_kfreebsd.Lexing.{
  LexBuffer, LexTable, Answer, returned, lex_engine, new_lex_engine, new_lex_loop, new_lex_round,
  short, enter_state, new_in_state, new_note_backtrack, new_read_and_move, next_char, lookup_move,
  new_move_to, run_mem, run_at, run_moves, store_mem, run_tag, erase_eof, lex_loop, lex_round,
  in_state, read_and_move, move_to, note_backtrack,
}
use mirage_kfreebsd.Lexing.Refill.{refill}
use mirage_kfreebsd.Lexing.Refill.Loop.{lex_engine-refill}
use mirage_kfreebsd.Lexing.Simulation.{forget, forget-lex_engine}
use mirage_kfreebsd.Lexing.Total.{WellFormed, Filled, lex_engine-returns}

get_elem?-replicate : (n : ℕ) (v : ℤ) (i : ℕ) {w : ℤ} → get_elem? (replicate n v) i ≡ some w → v ≡ w
get_elem?-replicate zero v i e = cc
get_elem?-replicate (suc n) v zero e = some_inj e
get_elem?-replicate (suc n) v (suc i) e = get_elem?-replicate n v i e

-- The transition of state 0 on 97 is the one it owns; state 1 returns the action 3. The move copies the
-- position into the first cell of the memory.
abbrev letter_a : LexTable
letter_a = record {
  lex_base = pos 0 ∷ negsuc 3 ∷ [];
  lex_backtrk = negsuc 0 ∷ negsuc 0 ∷ [];
  lex_default = replicate 2 (negsuc 0);
  lex_trans = replicate 257 (pos 1);
  lex_check = set (replicate 257 (negsuc 0)) 97 (pos 0);
  lex_base_code = pos 0 ∷ pos 0 ∷ [];
  lex_backtrk_code = pos 0 ∷ pos 0 ∷ [];
  lex_default_code = pos 0 ∷ pos 0 ∷ [];
  lex_trans_code = replicate 257 (pos 1);
  lex_check_code = set (replicate 257 (negsuc 0)) 97 (pos 0);
  lex_code = 255 ∷ 0 ∷ 255 ∷ 255 ∷ [];
}

-- "ab".
abbrev text : LexBuffer
text = record {
  lex_buffer = 97 ∷ 98 ∷ [];
  lex_buffer_len = 2;
  lex_start_pos = 0;
  lex_curr_pos = 0;
  lex_last_pos = 0;
  lex_last_action = negsuc 0;
  lex_eof_reached = true;
  lex_mem = negsuc 0 ∷ [];
}

abbrev matched : LexBuffer
matched = record text { lex_curr_pos = 1; lex_mem = pos 1 ∷ [] }

new_run : new_lex_engine letter_a 4 (pos 0) text ≡ ok (returned (pos 3), matched)
unfolding new_lex_engine new_lex_loop new_lex_round short enter_state new_in_state
    new_note_backtrack new_read_and_move next_char lookup_move new_move_to run_mem run_at run_moves
    store_mem run_tag erase_eof
new_run = refl

forget-lex_engine_example :
    lex_engine letter_a 4 (pos 0) (forget text) ≡ ok (returned (pos 3), forget matched)
forget-lex_engine_example = forget-lex_engine letter_a 4 (pos 0) text new_run

letter_a_base : (s b : ℕ) → get_elem? letter_a.lex_base s ≡ some (pos b) → b ≡ 0
letter_a_base zero b e = cc
letter_a_base (suc zero) b e = cc
letter_a_base (suc (suc s)) b e = cc

letter_a-WellFormed : WellFormed letter_a 2
letter_a-WellFormed = record {
  base_size = omega arith;
  backtrk_size = omega arith;
  default_size = omega arith;
  check_size = λ s b e. let z = letter_a_base s b e in omega arith;
  trans_size = λ s b e. let z = letter_a_base s b e in omega arith;
  trans_target = λ i s e. small s (get_elem?-replicate 257 (pos 1) i e);
  default_target = λ i s e. none_there s (get_elem?-replicate 2 (negsuc 0) i e);
}
  where
    small : (s : ℕ) → pos 1 ≡ pos s → s < 2
    small s e = ground arith

    none_there : (s : ℕ) → negsuc 0 ≡ pos s → s < 2
    none_there s e = cc

text-Filled : Filled text
text-Filled = record { enough = omega arith; byte = letters }
  where
    letters : (i c : ℕ) → get_elem? text.lex_buffer i ≡ some c → c < 256
    letters zero c e = let h = some_inj e in omega arith
    letters (suc zero) c e = let h = some_inj e in omega arith
    letters (suc (suc i)) c e = cc

first_state : (enter_state (pos 0) text).0 < 2
unfolding enter_state
first_state = omega arith

lex_engine-returns_example :
    (last : Answer × LexBuffer) × (lex_engine letter_a 4 (pos 0) text ≡ ok last)
lex_engine-returns_example =
    lex_engine-returns letter_a 2 letter_a-WellFormed 4 (pos 0) text first_state text-Filled
      (omega arith)

-- Nothing is read yet, and more is to come.
abbrev unread : LexBuffer
unread = record text { lex_buffer = []; lex_buffer_len = 0; lex_eof_reached = false }

asks : lex_engine letter_a 1 (pos 0) unread ≡ ok (returned (negsuc 0), unread)
unfolding lex_engine lex_loop lex_round in_state read_and_move note_backtrack short enter_state
    next_char
asks = refl

abbrev resumed : LexBuffer
resumed = record text { lex_curr_pos = 1; lex_eof_reached = false }

resumes :
    lex_engine letter_a 2 (negsuc 0) (refill (97 ∷ 98 ∷ []) unread) ≡ ok (returned (pos 3), resumed)
unfolding lex_engine lex_loop lex_round in_state read_and_move note_backtrack short enter_state
    next_char lookup_move move_to erase_eof refill
resumes = refl

lex_engine-refill_example :
    lex_engine letter_a 3 (pos 0) (refill (97 ∷ 98 ∷ []) unread) ≡ ok (returned (pos 3), resumed)
lex_engine-refill_example = lex_engine-refill letter_a (97 ∷ 98 ∷ []) 1 2 0 unread refl asks resumes
