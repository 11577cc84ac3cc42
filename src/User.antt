-- ===== src/User.antt =====
-- kernel/src/userspace: the program that runs in user mode.
pub mod Keyboard
pub mod Prompt
