-- ===== src/Step.antt =====
-- The package step: the tools that a function calls. A tool reads and mutates the manager, and it
-- leaves by returning or by a panic.
pub mod Core
pub mod Run
pub mod Tools
pub mod Infer
pub mod Plans
mod Tests
