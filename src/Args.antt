-- ===== src/Args.antt =====
-- src/args.rs: what the process is started with.
pub mod Text
pub mod Auth
pub mod Startup
pub mod Splits
pub mod CommandLine
pub mod EnvFile
pub mod Tests
