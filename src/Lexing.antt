-- ===== src/Lexing.antt =====
-- lexing.c: the engines that run the automata of ocamllex, without and with memory of positions.
pub mod Refill
pub mod Simulation
pub mod Total
use mirage_kfreebsd.Base.{
  ℕ, zero, suc, ◌+◌, List, [], ◌∷◌, Result, ok, raise, fault, out_of_fuel, ◌>>=◌, deref, Bool, true,
  false, Option, none, some, ltb, leb, ◌==◌, if◌then◌else◌, length, get_elem?, set, drop,
}
use mirage_kfreebsd.Base.Int.{ℤ, pos, negsuc, ◌+ℤ◌, ltb_ℤ, eqb_ℤ}

-- `struct lexer_buffer`, in the fields that the engines use. Positions are not negative.
pub record LexBuffer : Type 0 where
  pub lex_buffer : List ℕ
  pub lex_buffer_len : ℕ
  pub lex_start_pos : ℕ
  pub lex_curr_pos : ℕ
  pub lex_last_pos : ℕ
  pub lex_last_action : ℤ
  pub lex_eof_reached : Bool
  pub lex_mem : List ℤ

-- `struct lexing_table`: tables of shorts, and the code of the moves in bytes.
pub record LexTable : Type 0 where
  pub lex_base : List ℤ
  pub lex_backtrk : List ℤ
  pub lex_default : List ℤ
  pub lex_trans : List ℤ
  pub lex_check : List ℤ
  pub lex_base_code : List ℤ
  pub lex_backtrk_code : List ℤ
  pub lex_default_code : List ℤ
  pub lex_trans_code : List ℤ
  pub lex_check_code : List ℤ
  pub lex_code : List ℕ

-- What an engine ends with: the value that it returns, or `Failure "lexing: empty token"`.
pub data Answer : Type 0 where
  returned : ℤ → Answer
  empty_token : Answer

-- The end of a round: the end of the engine, or the next state.
pub data Round : Type 0 where
  stop : Answer → LexBuffer → Round
  next_state : ℕ → LexBuffer → Round

-- `Short(tbl, n)`.
unfoldable pub short : List ℤ → ℤ → Result ℤ
short tbl (pos n) = deref (get_elem? tbl n)
short tbl (negsuc n) = fault

-- `if (backtrk >= 0)`.
unfoldable pub note_backtrack : ℤ → LexBuffer → LexBuffer
note_backtrack (pos action) lexbuf = record lexbuf {
  lex_last_pos = lexbuf.lex_curr_pos;
  lex_last_action = pos action;
}
note_backtrack (negsuc n) lexbuf = lexbuf

-- The next character, 256 at the end of the input, or `none` where a refill is needed.
unfoldable pub next_char : LexBuffer → Result (Option (ℕ × LexBuffer))
next_char lexbuf =
    if leb lexbuf.lex_buffer_len lexbuf.lex_curr_pos
    then (if lexbuf.lex_eof_reached then ok (some (256, lexbuf)) else ok none)
    else deref (get_elem? lexbuf.lex_buffer lexbuf.lex_curr_pos) >>= λ c.
        ok (some (c, record lexbuf { lex_curr_pos = lexbuf.lex_curr_pos + 1 }))

-- `if (Short(check, base + c) == state) ... trans ... else ... default ...`, for states and for code.
unfoldable pub lookup_move : List ℤ → List ℤ → List ℤ → ℤ → ℕ → ℕ → Result ℤ
lookup_move check trans default base c state = short check (base +ℤ pos c) >>= λ owner.
    if eqb_ℤ owner (pos state) then short trans (base +ℤ pos c) else short default (pos state)

-- No transition: back to the last backtrack point.
unfoldable pub backtrack : LexBuffer → Round
backtrack lexbuf =
    let back = record lexbuf { lex_curr_pos = lexbuf.lex_last_pos } in
    if eqb_ℤ lexbuf.lex_last_action (negsuc 0)
    then stop empty_token back
    else stop (returned lexbuf.lex_last_action) back

-- `if (c == 256) lexbuf->lex_eof_reached = Val_bool (0)`.
unfoldable pub erase_eof : ℕ → LexBuffer → LexBuffer
erase_eof c lexbuf = if c == 256 then record lexbuf { lex_eof_reached = false } else lexbuf

unfoldable pub move_to : ℕ → ℤ → LexBuffer → Round
move_to c (pos state) lexbuf = next_state state (erase_eof c lexbuf)
move_to c (negsuc n) lexbuf = backtrack lexbuf

-- A round from the test for a refill on.
unfoldable pub read_and_move : LexTable → ℤ → ℕ → LexBuffer → Result Round
read_and_move tbl base state lexbuf = next_char lexbuf >>= λ read. elim read [
  | none ↦ ok (stop (returned (negsuc state)) lexbuf)
  | some r ↦ lookup_move tbl.lex_check tbl.lex_trans tbl.lex_default base r.0 state >>= λ to.
      ok (move_to r.0 to r.1)
]

unfoldable pub in_state : LexTable → ℤ → ℕ → LexBuffer → Result Round
in_state tbl (negsuc action) state lexbuf = ok (stop (returned (pos action)) lexbuf)
in_state tbl (pos base) state lexbuf = short tbl.lex_backtrk (pos state) >>= λ backtrk.
    read_and_move tbl (pos base) state (note_backtrack backtrk lexbuf)

-- One round of `while(1)`.
unfoldable pub lex_round : LexTable → ℕ → LexBuffer → Result Round
lex_round tbl state lexbuf =
    short tbl.lex_base (pos state) >>= λ base. in_state tbl base state lexbuf

unfoldable pub lex_loop : LexTable → ℕ → ℕ → LexBuffer → Result (Answer × LexBuffer)
lex_loop tbl zero state lexbuf = out_of_fuel
lex_loop tbl (suc rounds) state lexbuf = lex_round tbl state lexbuf >>= λ round. elim round [
  | stop answer lexbuf' ↦ ok (answer, lexbuf')
  | next_state state' lexbuf' ↦ lex_loop tbl rounds state' lexbuf'
]

-- First entry, or reentry after a refill.
unfoldable pub enter_state : ℤ → LexBuffer → ℕ × LexBuffer
enter_state (pos state) lexbuf = (
  state,
  record lexbuf {
    lex_last_pos = lexbuf.lex_curr_pos;
    lex_start_pos = lexbuf.lex_curr_pos;
    lex_last_action = negsuc 0;
  },
)
enter_state (negsuc state) lexbuf = (state, lexbuf)

unfoldable pub lex_engine : LexTable → ℕ → ℤ → LexBuffer → Result (Answer × LexBuffer)
lex_engine tbl rounds start_state lexbuf =
    let entry = enter_state start_state lexbuf in lex_loop tbl rounds entry.0 entry.1

-- `Field(mem,dst) = v`.
unfoldable pub store_mem : List ℤ → ℕ → ℤ → Result (List ℤ)
store_mem mem dst v = if ltb dst (length mem) then ok (set mem dst v) else fault

-- The loop of `run_mem` and `run_tag`, which differ in the value for a source of 0xff.
unfoldable pub run_moves : ℤ → List ℕ → List ℤ → Result (List ℤ)
run_moves fresh [] mem = fault
run_moves fresh (dst ∷ []) mem = if dst == 255 then ok mem else fault
run_moves fresh (dst ∷ src ∷ pc) mem =
    let moved = (if src == 255 then ok fresh else deref (get_elem? mem src)) >>= λ v.
    store_mem mem dst v >>= λ mem'. run_moves fresh pc mem' in
    if dst == 255 then ok mem else moved

-- The code at an offset.
unfoldable pub run_at : ℤ → List ℕ → ℤ → LexBuffer → Result LexBuffer
run_at fresh code (negsuc n) lexbuf = fault
run_at fresh code (pos pc_off) lexbuf = run_moves fresh (drop pc_off code) lexbuf.lex_mem >>= λ mem.
    ok (record lexbuf { lex_mem = mem })

unfoldable pub run_tag : LexTable → ℤ → LexBuffer → Result LexBuffer
run_tag tbl pc_off lexbuf = run_at (negsuc 0) tbl.lex_code pc_off lexbuf

-- `if (pc_off > 0)`.
unfoldable pub run_mem : LexTable → ℤ → LexBuffer → Result LexBuffer
run_mem tbl pc_off lexbuf =
    if ltb_ℤ (pos 0) pc_off
    then run_at (pos lexbuf.lex_curr_pos) tbl.lex_code pc_off lexbuf
    else ok lexbuf

unfoldable pub new_note_backtrack : LexTable → ℕ → ℤ → LexBuffer → Result LexBuffer
new_note_backtrack tbl state (negsuc n) lexbuf = ok lexbuf
new_note_backtrack tbl state (pos action) lexbuf =
    short tbl.lex_backtrk_code (pos state) >>= λ pc_off.
    run_tag tbl pc_off lexbuf >>= λ tagged. ok (note_backtrack (pos action) tagged)

unfoldable pub new_move_to : LexTable → ℕ → ℕ → ℤ → LexBuffer → Result Round
new_move_to tbl pstate c (negsuc n) lexbuf = ok (backtrack lexbuf)
new_move_to tbl pstate c (pos state) lexbuf = short tbl.lex_base_code (pos pstate) >>= λ base_code.
    lookup_move tbl.lex_check_code tbl.lex_trans_code tbl.lex_default_code base_code c pstate
    >>= λ pc_off. run_mem tbl pc_off lexbuf >>= λ moved. ok (next_state state (erase_eof c moved))

unfoldable pub new_read_and_move : LexTable → ℤ → ℕ → LexBuffer → Result Round
new_read_and_move tbl base state lexbuf = next_char lexbuf >>= λ read. elim read [
  | none ↦ ok (stop (returned (negsuc state)) lexbuf)
  | some r ↦ lookup_move tbl.lex_check tbl.lex_trans tbl.lex_default base r.0 state >>= λ to.
      new_move_to tbl state r.0 to r.1
]

unfoldable pub new_in_state : LexTable → ℤ → ℕ → LexBuffer → Result Round
new_in_state tbl (negsuc action) state lexbuf = short tbl.lex_base_code (pos state) >>= λ pc_off.
    run_tag tbl pc_off lexbuf >>= λ tagged. ok (stop (returned (pos action)) tagged)
new_in_state tbl (pos base) state lexbuf = short tbl.lex_backtrk (pos state) >>= λ backtrk.
    new_note_backtrack tbl state backtrk lexbuf >>= λ noted.
    new_read_and_move tbl (pos base) state noted

unfoldable pub new_lex_round : LexTable → ℕ → LexBuffer → Result Round
new_lex_round tbl state lexbuf =
    short tbl.lex_base (pos state) >>= λ base. new_in_state tbl base state lexbuf

unfoldable pub new_lex_loop : LexTable → ℕ → ℕ → LexBuffer → Result (Answer × LexBuffer)
new_lex_loop tbl zero state lexbuf = out_of_fuel
new_lex_loop tbl (suc rounds) state lexbuf = new_lex_round tbl state lexbuf >>= λ round.
    elim round [
      | stop answer lexbuf' ↦ ok (answer, lexbuf')
      | next_state state' lexbuf' ↦ new_lex_loop tbl rounds state' lexbuf'
    ]

unfoldable pub new_lex_engine : LexTable → ℕ → ℤ → LexBuffer → Result (Answer × LexBuffer)
new_lex_engine tbl rounds start_state lexbuf =
    let entry = enter_state start_state lexbuf in new_lex_loop tbl rounds entry.0 entry.1
