-- ===== src/Cli.antt =====
-- src/cli: the commands of the terminal.
pub mod Cardano
pub mod Node
pub mod Terminal
pub mod Pay
