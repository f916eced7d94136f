-- ===== src/Demo.antt =====
-- demo/main.cpp: the command line program over a sync engine.
pub mod Options
pub mod Commands
pub mod Console
pub mod Startup
pub mod Loop
pub mod Alive
pub mod Leaving
pub mod Published
pub mod Reading
