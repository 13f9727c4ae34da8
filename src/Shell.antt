-- ===== src/Shell.antt =====
-- src/shell.rs: the history of the prompt, the splitting of a command line into words, and the
-- virtual drive.
pub mod History
pub mod Words
pub mod Drive
