-- ===== src/Rules.antt =====
-- src/lwm/core/window_rules.cpp: the rules of the configuration, which decide where and how a new
-- window is shown. Regular expressions are a parameter: their type, their compilation, which can
-- fail, and the test of a whole string.
pub mod Config
pub mod Match
pub mod Closed
pub mod Resolve
mod Tests
