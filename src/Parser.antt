-- ===== src/Parser.antt =====
-- src/parser: SQL text to tokens, tokens to statements, and statements back to text.
pub mod Lexer
pub mod Statement
pub mod Primitives
pub mod Parser
pub mod Grammar
pub mod Items
pub mod Accepts
