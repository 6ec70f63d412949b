-- ===== src/Store.antt =====
-- The database as the services see it through Prisma: its rows, its statements, and calls as state
-- passing with thrown errors.
pub mod Rows
pub mod Monad
pub mod Statements
pub mod Tables
pub mod Invariants
pub mod Frames
pub mod Outcomes
pub mod Completion
pub use Rows.*
unfoldable pub use Monad.*
unfoldable pub use Statements.*
unfoldable pub use Tables.*
pub use Invariants.*
pub use Frames.*
pub use Outcomes.*
pub use Completion.*
