-- ===== src/Shell.antt =====
-- The shell, src/ob_shell.c: the handlers of its commands. The arguments are those behind the
-- name of the command, `argv[1]` and the ones after it.
pub mod Values
pub mod Commands
pub mod Outcome
pub mod Reset
