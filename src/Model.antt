-- ===== src/Model.antt =====
-- internal/model: the data that the other packages pass around, and the functions on it.
pub mod Types
pub mod Path
pub mod Rebase
pub mod Identity
pub mod Glob
pub mod Filter
pub mod Limiter
pub mod Audit
