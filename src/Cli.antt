-- ===== src/Cli.antt =====
-- admin-cli/src: the command line, the addresses it derives, and the transaction that each command
-- sends, with what it prints.
pub mod Host
pub mod Printed
pub mod Utils
pub mod Options
pub mod Handlers
pub mod Main
pub mod Addressed
pub mod Requests
pub mod Commands
pub mod Granted
pub mod Info
pub mod Failures
pub mod Reported
