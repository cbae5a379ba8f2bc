-- ===== src/Spawn.antt =====
-- sp-daemon/spawnservice.c: starting a session in a child process on a tty of its own.
-- Tty picks the terminal, Child has the steps of the child (open_tty, the settings) and the messages
-- that it writes, Conversation is the PAM callback, Pam is pam_auth with what that callback reports
-- and the child's program, ChildLaws what the child does, Parent is the daemon's side of a try.
pub mod Tty
pub mod Child
pub mod Pam
pub mod ChildLaws
pub mod Conversation
pub mod Job
pub mod Parent
