-- ===== src/Main.antt =====
-- main.go: what the program does from its start until both of its managers have stopped.
pub mod Flags
pub mod Environment
pub mod Run
pub mod Program
pub mod Register
pub mod Admission
pub mod Setup
pub mod Steps
mod Skipped
pub mod Assembly
pub mod Start
pub mod Serve
pub mod Exempt
pub mod Disabled
pub mod Privileged
pub mod Limited
pub mod Entitled
pub mod Shutdown
pub mod Stopping
pub mod Exit
pub mod Ending
mod Samples
mod Tests
mod ExitTests
