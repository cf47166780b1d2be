-- ===== src/Tests.antt =====
-- The theorems at concrete inputs, and runs of the model.
mod Ipc
mod Sched
mod Mm
mod Tty
mod Fs
mod Strings
mod Console
mod Disk
mod Directory
mod Files
mod Transfer
mod Keyboard
