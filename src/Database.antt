-- ===== src/Database.antt =====
-- What the services assume of @prisma/client (prisma.service.ts,
-- common/repositories/base.repository.ts), and a table that meets it.
mod Defs
pub mod Memory
pub mod Bulk
pub use Defs.*
pub use Bulk.{BulkTable}
