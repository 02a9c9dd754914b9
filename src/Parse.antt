-- ===== src/Parse.antt =====
-- Reading SQL text: src/libs/dbcore/parse.
pub mod Lexer
pub mod Statement
pub mod Parser
pub mod Tokens
pub mod Ends
pub mod Lists
pub mod PredParser
