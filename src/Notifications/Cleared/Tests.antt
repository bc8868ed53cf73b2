-- ===== src/Notifications/Cleared/Tests.antt =====
-- The theorems on cleared-store.ts, at concrete sets.
use classg.Prelude.{[], ◌∷◌}
use classg.Notifications.Cleared.{ClearedStore}

abbrev one_cleared : ClearedStore
one_cleared = record { ids = "track:T1" ∷ []; emits = 1 }
