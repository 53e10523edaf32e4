-- ===== src/Worker.antt =====
-- The worker process: its handle on a claimed task (internal/worker/taskclient), the state behind its
-- MCP tools (internal/worker/mcpserver) and the claim loop (internal/worker/runner).
pub mod Client
pub mod State
pub mod Runner
pub mod Tools
mod Examples
