-- ===== src/Query.antt =====
-- The parts of a query, src/libs/dbcore/query: constants, expressions, terms and predicates.
pub mod Constant
pub mod Order
pub mod Expression
pub mod Term
pub mod Predicate
pub mod Conjunction
pub mod Lookup
pub mod Plan
