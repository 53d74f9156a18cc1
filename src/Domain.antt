-- ===== src/Domain.antt =====
-- app/domain: the enumerations, the exceptions and the rows of the tables.
pub mod Enums
pub mod Exceptions
pub mod Models
