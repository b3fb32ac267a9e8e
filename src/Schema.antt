-- ===== src/Schema.antt =====
-- The tables of apps/api/prisma/schema.prisma, as far as the modelled services read or write them.
mod Enums
mod Rows
mod Errors
unfoldable pub use Enums.*
pub use Rows.*
pub use Errors.*
