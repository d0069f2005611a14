-- ===== src/Ingestion.antt =====
-- The ingestion pipeline (precis_mcp/ingestion/).
pub mod Warehouse
pub mod Executor
pub mod Swap
pub mod Checks
pub mod Shape
pub mod Inference
pub mod History
pub mod Binding
pub mod Attempt
pub mod Orchestrator
pub mod Promotion
pub mod Scheduler
