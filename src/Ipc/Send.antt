-- ===== src/Ipc/Send.antt =====
-- msg_send() against the abstract net: a message for a process that waits for it is copied and
-- wakes that process; any other sender is put at the end of the queue, and no assert fails.
mod Deliver
mod Enqueue
mod Wait
mod Refine
mod Copy
pub use Deliver.*
pub use Enqueue.*
pub use Wait.*
pub use Refine.*
pub use Copy.*
