-- ===== src/Cli.antt =====
-- The command elpulpo, internal/cli: what each command line asks of the AdminService, and what is printed.
pub mod Flags
pub mod Format
pub mod Numbers
pub mod Command
pub mod Tasks
pub mod Commands
