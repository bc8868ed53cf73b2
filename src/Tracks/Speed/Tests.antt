-- ===== src/Tracks/Speed/Tests.antt =====
-- A path of flight-speed.ts with a silence at its end, and its theorem there.
use classg.Prelude.{
  ℕ, ◌≡◌, refl, String, true, false, Option, none, some, List, [], ◌∷◌, str_eq, if◌then◌else◌,
  get_elem?,
}
use classg.Api.{Position}
use classg.Tracks.Speed.{
  Speed, reported, blend, of_time, of_points, mean, midway, point_speeds, fill_between,
  path_segments,
}

abbrev parse : String → Option ℕ
parse t =
    if str_eq t "a"
    then some 1_000
    else if str_eq t "b"
    then some 2_000
    else if str_eq t "c"
    then some 5_000
    else if str_eq t "d"
    then some 90_000
    else none

abbrev point : String → Option ℕ → Position
point at v = record {
  lat = 1;
  lon = 2;
  track_deg = none;
  height_agl_m = none;
  speed_mps = v;
  at = some at;
}

-- Two points between reports are filled, one of them with no readable time; the last is unheard of
-- for too long for the one before it.
abbrev path : List Position
path =
    point "a" (some 10)
    ∷ point "b" none
    ∷ point "?" none
    ∷ point "c" (some 30)
    ∷ point "c" none
    ∷ point "d" (some 5)
    ∷ []

abbrev filled : Speed
filled = blend (reported 10) (reported 30) (of_time 2_000 1_000 5_000)

abbrev by_index : Speed
by_index = blend (reported 10) (reported 30) (of_points 2 3)

speeds :
    point_speeds parse path
    ≡ some (reported 10)
      ∷ some filled
      ∷ some by_index
      ∷ some (reported 30)
      ∷ none
      ∷ some (reported 5)
      ∷ []
unfolding point_speeds fill_between
speeds = refl

first_segment :
    get_elem? (path_segments parse path) 0
    ≡ some (record {
      from = point "a" (some 10);
      to = point "b" none;
      speed_mps = some (mean (reported 10) filled);
      mid_ms = some (midway 1_000 2_000);
      gap = false;
    })
unfolding path_segments point_speeds fill_between
first_segment = refl

last_segment :
    get_elem? (path_segments parse path) 4
    ≡ some (record {
      from = point "c" none;
      to = point "d" (some 5);
      speed_mps = none;
      mid_ms = some (midway 5_000 90_000);
      gap = true;
    })
unfolding path_segments point_speeds fill_between
last_segment = refl
