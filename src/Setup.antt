-- ===== src/Setup.antt =====
-- cmd/passive-solar-mqtt/main.go: the options of the command line and the questions that fill in
-- a configuration.
pub mod Options
pub mod Prompts
pub mod Complete
pub mod Start
pub mod Run
mod Runs
