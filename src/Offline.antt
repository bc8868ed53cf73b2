-- ===== src/Offline.antt =====
-- services/ui/src/features/offline: the update of the installed console.
pub mod AppUpdate
