-- ===== src/Demo.antt =====
-- The demo's programs, cmd/demo/main.go, against the program: the seeder, which keeps the queue
-- filled, and the worker, which pretends to work on tasks.
pub mod Seeder
pub mod Worker
