-- ===== src/Notifications/LastSeen.antt =====
-- services/ui/src/features/notifications/last-seen.ts. `Stored` is the item in the browser's storage:
-- the storage cannot be read, there is none, or the number that its text is (0 for a text that is
-- none). A write that fails changes nothing.
use classg.Prelude.{ℕ}

pub data Stored : Type 0 where
  unavailable missing : Stored
  number : ℕ → Stored

abbrev pub write_last_seen : ℕ → Stored → Stored
write_last_seen value unavailable = unavailable
write_last_seen value missing = number value
write_last_seen value (number old) = number value

-- The watermark and the storage it leaves.
unfoldable pub read_last_seen : ℕ → Stored → ℕ × Stored
read_last_seen now unavailable = (now, unavailable)
read_last_seen now missing = (now, write_last_seen now missing)
read_last_seen now (number n) = (n, number n)
