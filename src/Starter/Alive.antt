-- ===== src/Starter/Alive.antt =====
-- src/wallystart.c: without `fadeout` and `clearlog`, no command uses what was freed.
pub mod Held
pub mod Fading
pub mod Lines
