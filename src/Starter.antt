-- ===== src/Starter.antt =====
-- src/wallystart.c, the program that shows pictures while the system starts: `sgetline` and the loop
-- of `logListener`, which take the lines of the log from a socket, in GetLine; `repl_str` in ReplStr;
-- what is shown, in Screen; `processCommand`, which runs the commands of the startup script, in
-- Script; and the rest of `main`, in Main.
pub mod GetLine
pub mod ReplStr
pub mod Screen
pub mod Fades
pub mod Script
pub mod Alive
pub mod Shown
pub mod Main
