-- ===== src/Notifications.antt =====
-- services/ui/src/features/notifications: the feed of the drawer, what was cleared from it, and the
-- read watermark of the bell.
pub mod Feed
pub mod Cleared
pub mod LastSeen
