-- ===== src/Console.antt =====
-- src/kernel/lib/console.c: the ring buffer of the console's input, with `cons_edit`, called for each
-- character of the UART, and `cons_read`. The lock is held through an operation but for the sleep
-- of a reader, at which `cons_read` ends here. The three indexes are ints that only grow, but for an
-- erasure; their overflow after 2^31 characters is left out.
mod Slice
pub mod Lines
pub mod Reads
pub mod Copies
mod Tests
use biglab.Prelude.{
  ℕ, zero, suc, ◌+◌, ◌-◌, ◌%◌, ◌^◌, Bool, true, false, ◌&&◌, ◌||◌, not, List, [], ◌∷◌, ◌++◌, ◌==◌,
  ltb, if◌then◌else◌, update, u8, u64,
}
use biglab.Prelude.Run.{ok, Cmd, pure, ◌>>=◌}

-- CONSOLE_INPUT_BUF, and BACKSPACE of console.c.
abbrev pub console_input_buf : ℕ
console_input_buf = 128

abbrev pub backspace : ℕ
backspace = 0x100

-- `console_t`, with what is sent to the UART, last first, and the number of calls of `proc_wakeup`.
pub record Console : Type 0 where
  pub buf : ℕ → ℕ
  pub read_idx : ℕ
  pub writ_idx : ℕ
  pub edit_idx : ℕ
  pub uart : List ℕ
  pub wakeups : ℕ

abbrev pub cons_init : (ℕ → ℕ) → Console
cons_init buf = record {
  buf = buf;
  read_idx = 0;
  writ_idx = 0;
  edit_idx = 0;
  uart = [];
  wakeups = 0;
}

-- `cons_putc`.
abbrev pub cons_putc : ℕ → Console → Console
cons_putc c s =
    if c == backspace
    then (record s { uart = 8 ∷ 32 ∷ 8 ∷ s.uart })
    else (record s { uart = c ∷ s.uart })

abbrev pub erase_last : Console → Console
erase_last s = cons_putc backspace (record s { edit_idx = s.edit_idx - 1 })

-- The loop of `cons_edit` for Ctrl-U, of at most `n` rounds.
pub kill_loop : ℕ → Console → Console
kill_loop zero s = s
kill_loop (suc n) s =
    let rest = kill_loop n (erase_last s) in
    if not (s.edit_idx == s.writ_idx) && not (s.buf ((s.edit_idx - 1) % console_input_buf) == 10)
    then rest
    else s

-- The character stored and, at the end of a line or of the buffer, the line passed to the reader.
abbrev pub store : ℕ → Console → Console
store c s =
    let s' = record (cons_putc c s) {
      buf = update s.buf (s.edit_idx % console_input_buf) (u8 c);
      edit_idx = s.edit_idx + 1;
    } in
    if (c == 10) || (s'.edit_idx == s'.read_idx + console_input_buf)
    then (record s' { writ_idx = s'.edit_idx; wakeups = s'.wakeups + 1 })
    else s'

-- `cons_edit`; 21 is Ctrl-U, 8 is Ctrl-H, 127 is delete, 13 is '\r' and 10 is '\n'. A line to kill is
-- at most as long as the distance of the two indexes.
pub cons_edit : ℕ → Console → Console
unfolding kill_loop
cons_edit c s =
    if c == 21
    then kill_loop (s.edit_idx - s.writ_idx) s
    else if (c == 8) || (c == 127)
    then (if not (s.edit_idx == s.writ_idx) then erase_last s else s)
    else if not (c == 0) && ltb (s.edit_idx - s.read_idx) console_input_buf
    then store (if c == 13 then 10 else c) s
    else s

-- The loop of `cons_read` for `len` more bytes, with the calls that copy them out as an answer: the bytes in order, whether
-- the reader sleeps for more, and the console. `cons_read_to` has the calls.
pub cons_read : ℕ → Console → List ℕ × Bool × Console
cons_read zero s = ([], false, s)
cons_read (suc len) s =
    let c = s.buf (s.read_idx % console_input_buf) in
    let s' = record s { read_idx = s.read_idx + 1 } in
    let rest = cons_read len s' in
    if s.read_idx == s.writ_idx
    then ([], true, s)
    else if c == 10
    then (c ∷ [], false, s')
    else (c ∷ rest.0, rest.1, rest.2)

module _ {M : Type 0} (copy : ℕ → ℕ → Cmd M (Unit {0})) where
  -- The same loop with its copies: `copy dst c` is `uvm_copyout(p->pgtbl, dst, &c, 1)`, which panics at an
  -- address that the user may not write, or the `memmove` for a buffer of the kernel.
  pub cons_read_to : ℕ → ℕ → Console → Cmd M (Bool × Console)
  cons_read_to zero dst s m = ok (false, s) m
  cons_read_to (suc len) dst s m =
      let c = s.buf (s.read_idx % console_input_buf) in
      let s' = record s { read_idx = s.read_idx + 1 } in
      let rest = cons_read_to len (u64 (dst + 1)) s' in
      let copied = (copy dst c >>= λ _. if c == 10 then pure (false, s') else rest) m in
      if s.read_idx == s.writ_idx then ok (true, s) m else copied
