-- ===== src/Deploy.antt =====
-- services/ui/src/features/deploy: what the unit did to itself.
pub mod UnitEvents
