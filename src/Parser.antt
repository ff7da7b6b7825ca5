-- ===== src/Parser.antt =====
-- src/parser.rs: the parser.
pub mod State
pub mod Action
pub mod Calls
pub mod Blocks
pub mod Stages
pub mod Expressions
pub mod Simple
pub mod Scenario
pub mod Schema
pub mod Route
pub mod Statements
pub mod Progress
pub mod Total
pub mod Operators
pub mod Lawful
pub mod Names
mod Tests
