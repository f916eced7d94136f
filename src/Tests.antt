-- ===== src/Tests.antt =====
-- Concrete stand-ins for Qt, SQLite and a transport, at which the definitions run, and the theorems
-- applied to concrete inputs.
pub mod Decimal
pub mod Toy
pub mod Disk
pub mod Connection
mod ClockTests
mod FilenameTests
mod ConflictTests
mod DatabaseTests
mod ManagerTests
mod EngineTests
mod SharedFolderTests
mod QueryTests
mod LifecycleTests
mod SchemaTests
mod SyncTests
mod ConvergingTests
mod DemoTests
mod DemoRuns
