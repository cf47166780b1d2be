-- ===== src/Ipc.antt =====
-- Message passing of kernel/proc.c: the routines that change the process table, in the order in
-- which they call one another. All run in ring 0 with the table to themselves.
pub mod Abstract
pub mod Defs
pub mod Graph
pub mod Queue
pub mod Invariant
pub mod Core
pub mod Fields
pub mod Deadlock
pub mod Change
pub mod Send
pub mod Inform
pub mod Receive
