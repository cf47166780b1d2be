-- ===== src/Systask.antt =====
-- TASK SYS, kernel/systask.c: the answers to its messages. The registers of the clock are a
-- parameter, by their addresses.
pub mod Clock
use kusa_os.Base.{ℕ, ◌+◌, ◌*◌, ◌/◌, ◌%◌, Result, ok, err, Fault, ◌==◌, if◌then◌else◌}
use Prim.Native.Nat.{bit_and}
use kusa_os.Kernel.Memory.{store_int}

pub record Time : Type 0 where
  pub year : ℕ
  pub month : ℕ
  pub day : ℕ
  pub hour : ℕ
  pub minute : ℕ
  pub second : ℕ

-- BCD_TO_DEC
abbrev pub bcd_to_dec : ℕ → ℕ
bcd_to_dec x = x / 16 * 10 + bit_and x 15

abbrev pub each : (ℕ → ℕ) → Time → Time
each f t = record {
  year = f t.year;
  month = f t.month;
  day = f t.day;
  hour = f t.hour;
  minute = f t.minute;
  second = f t.second;
}

-- YEAR is 9, MONTH 8, DAY 7, HOUR 4, MINUTE 2, SECOND 0 and CLK_STATUS 0x0B.
abbrev pub registers : (ℕ → ℕ) → Time
registers read_register = record {
  year = read_register 9;
  month = read_register 8;
  day = read_register 7;
  hour = read_register 4;
  minute = read_register 2;
  second = read_register 0;
}

abbrev pub converted : (ℕ → ℕ) → Time
converted read_register =
    if bit_and (read_register 0x0B) 4 == 0
    then each bcd_to_dec (registers read_register)
    else registers read_register

unfoldable pub get_rtc_time : (ℕ → ℕ) → Time
get_rtc_time read_register = record (converted read_register) {
  year = (converted read_register).year + 2000;
}

pub data Question : Type 0 where
  get_ticks get_pid other : Question
  -- With the linear address of the buffer
  get_rtc : ℕ → Question

-- What is set in the answer: RETVAL, with the type of the question, or PID, or a time in the
-- caller's memory
pub data Answer : Type 0 where
  retval pid : ℕ → Answer
  stored : Answer

-- The six words of a struct time
abbrev pub store_time : ℕ → Time → (ℕ → ℕ) → ℕ → ℕ
store_time la t mem0 =
    let mem1 = store_int la t.year mem0 in
    let mem2 = store_int (la + 4) t.month mem1 in
    let mem3 = store_int (la + 8) t.day mem2 in
    let mem4 = store_int (la + 12) t.hour mem3 in
    let mem5 = store_int (la + 16) t.minute mem4 in store_int (la + 20) t.second mem5

-- One turn of the loop, with the answer and the memory after
unfoldable pub task_sys : ℕ → (ℕ → ℕ) → Question → ℕ → (ℕ → ℕ) → Result (Answer × (ℕ → ℕ))
task_sys ticks read_register kind src mem = elim kind [
  | get_ticks ↦ ok (retval ticks, mem)
  | get_pid ↦ ok (pid src, mem)
  | get_rtc la ↦ ok (stored, store_time la (get_rtc_time read_register) mem)
  | other ↦ err Fault.panicked
]
