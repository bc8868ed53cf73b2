-- ===== src/Logs.antt =====
-- services/ui/src/features/logs: the session event log.
pub mod Store
pub mod Bridge
pub mod Export
