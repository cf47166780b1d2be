-- ===== src/Mm.antt =====
-- The memory manager's task: mm/main.c and mm/forkexit.c.
pub mod Buddy
pub mod Requests
pub mod Life
