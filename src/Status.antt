-- ===== src/Status.antt =====
-- What the console says of itself: whether an empty map means an empty sky, whether it records, and
-- how old what it shows is.
pub mod Sky
pub mod Summary
pub mod Freshness
pub mod Covered
mod Tests
