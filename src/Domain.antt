-- ===== src/Domain.antt =====
-- internal/domain: the enumerations, the identifiers and the sentinel errors of the rules.
mod Enums
mod Errors
unfoldable pub use Enums.*
pub use Errors.*
