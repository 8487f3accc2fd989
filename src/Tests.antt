-- ===== src/Tests.antt =====
-- Tests, and each theorem at an input that meets its hypotheses.
pub mod Tables
pub mod States
mod Calls
mod Loop
mod Scripts
mod Screens
mod Files
mod Starter
mod Drawing
mod Video
mod Client
