-- ===== src/Text.antt =====
-- include/engine.h: the text helpers. A text is the list of its bytes.
pub mod Case
pub mod Find
pub mod Tokens
pub mod Parse
pub mod Properties
