-- ===== src/Notifications/Cleared.antt =====
-- services/ui/src/features/notifications/cleared-store.ts. The set of ids is the list of them in the
-- order of insertion, which is the order in which a `Set` is walked; `emits` counts the calls of
-- `emit`. The items in the browser's session storage are not modelled.
pub mod Kept
mod Tests
use classg.Prelude.{
  ℕ, suc, ◌+◌, ◌-◌, String, Bool, List, [], ◌∷◌, ◌++◌, if◌then◌else◌, leb, length, drop, any, all,
  str_eq,
}

pub record ClearedStore : Type 0 where
  pub ids : List String
  pub emits : ℕ

abbrev pub max_stored : ℕ
max_stored = 500

abbrev pub has_id : List String → String → Bool
has_id ids id = any (str_eq id) ids

abbrev pub has : ClearedStore → String → Bool
has s id = has_id s.ids id

-- `next.add(id)`: at the end, if it is not in the set.
abbrev pub add : List String → String → List String
add ids id = if has_id ids id then ids else ids ++ id ∷ []

abbrev pub add_all : List String → List String → List String
add_all ids [] = ids
add_all ids (x ∷ xs) = add_all (add ids x) xs

pub trim : List String → List String
trim ids = if leb (length ids) max_stored then ids else drop (length ids - max_stored) ids

pub clear : String → ClearedStore → ClearedStore
clear id s = if has s id then s else record { ids = trim (add s.ids id); emits = suc s.emits }

pub clear_many : List String → ClearedStore → ClearedStore
clear_many ids s =
    if all (has s) ids then s else record { ids = trim (add_all s.ids ids); emits = suc s.emits }
