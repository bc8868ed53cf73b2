-- ===== src/Tracks/Playback/Scan.antt =====
-- The index of a frame of services/ui/src/features/tracks/flight-playback.ts, against a scan of the
-- dated points.
use classg.Prelude.{
  ℕ, zero, suc, ◌-◌, ◌≤◌, ◌<◌, ◌≡◌, ◌≢◌, ◌⊎◌, inl, inr, String, Bool, true, false, Option, some,
  List, [], ◌∷◌, leb, arith, length, get_elem?, count_if, count_if_none, All, All-imp, IsSorted,
  sort_by-IsSorted,
}
use classg.Api.{Position}
use classg.Tracks.Playback.{Dated, PlaybackFrame, dated_first, dated, dated_points, frame_at}
use classg.Tracks.Playback.Frames.{Shows, before_start, after_end, held, on_leg, frame_at-Shows}

abbrev pub has_come : ℕ → Dated → Bool
has_come at d = leb d.ms at

dated_points-IsSorted :
    (parse : String → Option ℕ) (path : List Position)
    → IsSorted dated_first (dated_points parse path)
unfolding dated_points
dated_points-IsSorted parse path =
    sort_by-IsSorted dated_first (λ d e h. ground arith) (λ d e f h k. ground arith)
      (dated parse path)

All-get_elem? :
    (P : Dated → Type 0) (ds : List Dated) (i : ℕ) (d : Dated)
    → All P ds
    → get_elem? ds i ≡ some d
    → P d
All-get_elem? P [] i d h e = cc
All-get_elem? P (x ∷ xs) zero d h e = ground (arith, h.0)
All-get_elem? P (x ∷ xs) (suc i) d h e = All-get_elem? P xs i d h.1 e

module _ (at : ℕ) where
  none_before :
      (d : Dated) (ds : List Dated)
      → All (λ e. dated_first d e ≡ true) ds
      → at < d.ms
      → count_if (has_come at) ds ≡ 0
  none_before d ds h p = count_if_none (has_come at) ds (
      All-imp (λ e. dated_first d e ≡ true) (λ e. has_come at e ≡ false) (λ e q. ground arith) ds h)

  -- The point after the index is ahead of the instant, or there is none.
  LastTo : List Dated → ℕ → Type 0
  LastTo ds i = (suc i ≡ length ds) ⊎ ((e : Dated) × (get_elem? ds (suc i) ≡ some e) × (at < e.ms))

  count_to :
      (ds : List Dated) (i : ℕ) (d : Dated)
      → IsSorted dated_first ds
      → get_elem? ds i ≡ some d
      → d.ms ≤ at
      → LastTo ds i
      → count_if (has_come at) ds ≡ suc i
  unfolding LastTo
  count_to [] i d h e p l = cc
  count_to (x ∷ []) zero d h e p l = ground arith
  count_to (x ∷ y ∷ ys) zero d h e p (inl l) = cc
  count_to (x ∷ y ∷ ys) zero d h e p (inr (f, q, r)) = ground (arith, none_before y ys h.1.0)
  count_to (x ∷ xs) (suc i) d h e p l =
      let q = All-get_elem? (λ y. dated_first x y ≡ true) xs i d h.0 e in
      ground (arith, count_to xs i d h.1 e p)

  none_come :
      (ds : List Dated) (d : Dated)
      → IsSorted dated_first ds
      → get_elem? ds 0 ≡ some d
      → at < d.ms
      → count_if (has_come at) ds ≡ 0
  none_come [] d h e p = cc
  none_come (x ∷ xs) d h e p = ground (arith, none_before x xs h.0)

  index_of_shown :
      (ds : List Dated) (f : PlaybackFrame)
      → IsSorted dated_first ds
      → ((d : Dated) → get_elem? ds 0 ≡ some d → d.ms ≢ at)
      → Shows ds at f
      → f.index ≡ count_if (has_come at) ds - 1
  unfolding LastTo
  index_of_shown ds f s other (before_start d e early) =
      omega (arith, none_come ds d s e (grind (arith, other d e)))
  index_of_shown ds f s other (after_end d i n e past) =
      omega (arith, count_to ds i d s e past (inl n))
  index_of_shown ds f s other (held d e i (a, b, p, q) wide) =
      omega (arith, count_to ds i d s a p (inr (e, b, q)))
  index_of_shown ds f s other (on_leg d e i (a, b, p, q) near) =
      omega (arith, count_to ds i d s a p (inr (e, b, q)))

-- Unless the instant is exactly that of the first dated point, the index that the binary search
-- ends with is that of the last point which a scan of all the dated points finds at or before the
-- instant, or 0 where there is none.
pub frame_index_scans :
    (parse : String → Option ℕ) (path : List Position) (at : ℕ) (f : PlaybackFrame)
    → ((d : Dated) → get_elem? (dated_points parse path) 0 ≡ some d → d.ms ≢ at)
    → frame_at parse path at ≡ some (some f)
    → f.index ≡ count_if (has_come at) (dated_points parse path) - 1
frame_index_scans parse path at f other e =
    index_of_shown at (dated_points parse path) f (dated_points-IsSorted parse path) other
      (frame_at-Shows parse path at f e)
