-- ===== src/Boot.antt =====
-- kernel_main() of kernel/main.c, as far as it sets up proc_table for message passing and
-- scheduling: tasks and native processes are idle, every other entry is free. The table lies in
-- zeroed memory before.
pub mod Laws
use kusa_os.Base.{ℕ, ◌+◌, true, false, none, ltb, if◌then◌else◌}
use kusa_os.Kernel.{Kernel, Proc, Peer, from, no_task, no_flags, nr_tasks, nr_native_procs}
use kusa_os.Kernel.Signed.{ℤ, pos}

-- an entry of zeros; pid 0 and the number 0 are both written 0
abbrev zero_entry : Proc
zero_entry = record {
  base = 0;
  flags = no_flags;
  p_msg = 0;
  recvfrom = from 0;
  sendto = from 0;
  has_int_msg = false;
  q_sending = none;
  next_sending = none;
  parent = from 0;
  exit_status = pos 0;
  priority = pos 0;
  ticks = pos 0;
}

-- The body of the loop, for entry `i`: 15 is DEFAULT_TASK_PRIORITY, 10 is
-- DEFAULT_USER_PROC_PRIORITY.
unfoldable pub boot_entry : ℕ → Proc
boot_entry i =
    if ltb i (nr_tasks + nr_native_procs)
    then record zero_entry {
      parent = no_task;
      recvfrom = no_task;
      sendto = no_task;
      priority = if ltb i nr_tasks then pos 15 else pos 10;
      ticks = if ltb i nr_tasks then pos 15 else pos 10;
    }
    else record zero_entry { flags = record no_flags { free_slot = true } }

-- `before` is what lies in front of the table, and `mem` the rest of memory.
unfoldable pub kernel_main : Proc → (ℕ → ℕ) → Kernel
unfolding boot_entry
kernel_main before mem = record {
  procs = boot_entry;
  before = before;
  ready = 0;
  mem = mem;
  k_reenter = pos 0;
  ticks = 0;
  key_pressed = false;
  policy = pos 1;
}
