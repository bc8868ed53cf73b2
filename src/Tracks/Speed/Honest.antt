-- ===== src/Tracks/Speed/Honest.antt =====
-- services/ui/src/features/tracks/flight-speed.ts: what the speeds of a path say.
use classg.Prelude.{ℕ, ◌+◌, ◌<◌, ◌≡◌, String, Option, none, some, List, get_elem?}
use classg.Api.{Position}
use classg.Tracks.Speed.{Speed}
use classg.Tracks.Speed.Filling.{IsHonest, Reports}

module _ (parse : String → Option ℕ) (path : List Position) where
  -- The speeds so far: what points report stands, and all else is honest.
  record Inv (out : List (Option Speed)) : Type 0 where
    keeps : (j : ℕ) (x : Speed) → Reports path j x → get_elem? out j ≡ some (some x)
    honest : (j : ℕ) (x : Speed) → get_elem? out j ≡ some (some x) → IsHonest parse path j x

  IsSilent : ℕ → Type 0
  IsSilent j = (p : Position) → get_elem? path j ≡ some p → p.speed_mps ≡ none

  -- The last index that reports a speed, if any, and none since.
  Known : Option ℕ → ℕ → Type 0
  Known none i = Unit
  Known (some p) i =
      (p < i) × ((a : Speed) × Reports path p a) × ((j : ℕ) → p < j → j < i → IsSilent j)

  -- The points from the index on.
  Suffix : ℕ → List Position → Type 0
  Suffix i ps = (j k : ℕ) → k ≡ i + j → get_elem? path k ≡ get_elem? ps j
