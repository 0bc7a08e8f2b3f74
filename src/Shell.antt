-- ===== src/Shell.antt =====
-- The parts of src/shell: src/shell/shell.c, src/shell/terminal.c and src/shell/pty.c.
pub mod Callbacks
pub mod StatusBar
pub mod Desk
pub mod Terminal
pub mod Input
pub mod Pty
pub mod Master
pub mod Start
