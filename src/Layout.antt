-- ===== src/Layout.antt =====
-- services/ui/src/components/layout: the frame around the pages.
pub mod Search
