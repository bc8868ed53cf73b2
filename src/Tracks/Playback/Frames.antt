-- ===== src/Tracks/Playback/Frames.antt =====
-- The frames of services/ui/src/features/tracks/flight-playback.ts: what `frameAt` shows at an
-- instant, and that it always answers.
use classg.Prelude.{
  ℕ, zero, suc, ◌-◌, ◌≤◌, ◌<◌, ◌≡◌, refl, ◌↔◌, inl, inr, String, true, false, Option, none, some,
  List, [], ◌∷◌, ltb, leb, arith, length, get_elem?, Bool-cases, leb→le, leb-false, subst,
}
use classg.Api.{Position}
use classg.Tracks.Playback.{
  Dated, PlaybackFrame, trail_gap_ms, frame_of, blend, frame_between, frame_at_dated, frame_at,
  dated_points, search, frame_at_found,
}
use classg.Tracks.Playback.Search.{Found, search-Found, get_elem?-total}

-- Two neighbours, with the instant from the one up to the other.
abbrev pub Leg : List Dated → ℕ → ℕ → Dated → Dated → Type 0
Leg ds at i d e =
    (get_elem? ds i ≡ some d) × (get_elem? ds (suc i) ≡ some e) × (d.ms ≤ at) × (at < e.ms)

-- What may be shown of dated points at an instant.
pub data Shows (ds : List Dated) (at : ℕ) : PlaybackFrame → Type 0 where
  before_start :
      (d : Dated)
      → get_elem? ds 0 ≡ some d
      → at ≤ d.ms
      → Shows ds at (frame_of d.position d.ms 0 true)
  after_end :
      (d : Dated) (i : ℕ)
      → suc i ≡ length ds
      → get_elem? ds i ≡ some d
      → d.ms ≤ at
      → Shows ds at (frame_of d.position d.ms i true)
  held :
      (d e : Dated) (i : ℕ)
      → Leg ds at i d e
      → trail_gap_ms < e.ms - d.ms
      → Shows ds at (frame_of d.position at i false)
  on_leg :
      (d e : Dated) (i : ℕ)
      → Leg ds at i d e
      → e.ms - d.ms ≤ trail_gap_ms
      → Shows ds at (blend d.position e.position at i (at - d.ms) (e.ms - d.ms))

-- An answer: nothing where there are no points, else a frame that may be shown.
abbrev pub Answers : List Dated → ℕ → Option (Option PlaybackFrame) → Type 0
Answers ds at none = ⊥
Answers ds at (some none) = ds ≡ []
Answers ds at (some (some f)) = Shows ds at f

frame_between-Shows :
    (ds : List Dated) (at i : ℕ) (d e : Dated)
    → Leg ds at i d e
    → Shows ds at (frame_between d e at i)
frame_between-Shows ds at i d e leg = elim (Bool-cases (ltb trail_gap_ms (e.ms - d.ms))) [
  | inl wide ↦ rw wide (held d e i leg (ground arith))
  | inr near ↦
      let p : ltb 0 (e.ms - d.ms) ≡ true = ground (arith, leg.2, leg.3) in
      rw (near, p) (on_leg d e i leg (ground arith))
]

Found-Answers :
    (ds : List Dated) (at : ℕ) (o : Option (ℕ × ℕ))
    → Found ds at o
    → Answers ds at (frame_at_found ds at o)
Found-Answers ds at none h = h
Found-Answers ds at (some (lo, hi)) (next, (d, at_lo, from), (e, at_hi, to)) =
    let at_next : get_elem? ds (suc lo) ≡ some e = rw (← next) at_hi in
    rw (at_lo, at_hi) (frame_between-Shows ds at lo d e (at_lo, at_next, from, to))

two_points :
    (x d : Dated) (xs : List Dated) (i : ℕ) → get_elem? (x ∷ xs) i ≡ some d → x.ms < d.ms → 0 < i
two_points x d xs zero e h = ground arith
two_points x d xs (suc i) e h = omega arith

frame_at_dated-Answers : (ds : List Dated) (at : ℕ) → Answers ds at (frame_at_dated ds at)
unfolding frame_at_dated
frame_at_dated-Answers [] at = refl
frame_at_dated-Answers (x ∷ xs) at =
    let last : ℕ = suc (length xs) - 1 in
    let (d, e) = get_elem?-total (x ∷ xs) last (omega arith) in
    elim (Bool-cases (leb at x.ms)) [
      | inl early ↦ rw (e, early) (before_start x refl (leb→le at x.ms early))
      | inr late ↦ elim (Bool-cases (leb d.ms at)) [
        | inl past ↦ rw (e, late, past) (after_end d last (omega arith) e (leb→le d.ms at past))
        | inr within ↦
            let after = leb-false at x.ms late in
            let ahead = leb-false d.ms at within in
            rw (e, late, within)
              (Found-Answers (x ∷ xs) at (search (x ∷ xs) at (suc (length xs)) 0 last) (
                search-Found (x ∷ xs) at (suc (length xs)) 0 last (omega arith)
                  (two_points x d xs last e (omega arith)) (omega arith) (x, refl, omega arith)
                  (d, e, ahead)))
      ]
    ]

Shows-some : (at : ℕ) (f : PlaybackFrame) → Shows [] at f → ⊥
Shows-some at f (before_start d e early) = cc
Shows-some at f (after_end d i n e past) = cc
Shows-some at f (held d e i leg wide) = cc
Shows-some at f (on_leg d e i leg near) = cc

answered :
    (ds : List Dated) (at : ℕ) (o : Option (Option PlaybackFrame))
    → Answers ds at o
    → (r : Option PlaybackFrame) × (o ≡ some r) × ((r ≡ none) ↔ (ds ≡ []))
answered ds at none h = elim h [ ]
answered ds at (some none) h = (none, refl, ((λ _. h), (λ _. refl)))
answered [] at (some (some f)) h = elim (Shows-some at f h) [ ]
answered (d ∷ ds) at (some (some f)) h = (some f, refl, ground arith)

-- The replay always answers: as many rounds of the binary search as there are dated points suffice.
-- It answers null exactly where the path has no dated point.
pub frame_at_answers :
    (parse : String → Option ℕ) (path : List Position) (at : ℕ)
    → (r : Option PlaybackFrame) × (frame_at parse path at ≡ some r)
      × ((r ≡ none) ↔ (dated_points parse path ≡ []))
unfolding frame_at
frame_at_answers parse path at =
    let ds = dated_points parse path in
    answered ds at (frame_at_dated ds at) (frame_at_dated-Answers ds at)

-- What the replay shows at an instant is one of four: the first dated point of the path where the
-- instant is at or before it, the last where it is at or after it, the point last heard, held in
-- place and marked as not heard, where the instant lies between two consecutive points more than
-- 30 seconds apart, and else a blend of the two consecutive points it lies between, at the fraction
-- of the time that has passed from the one to the other.
pub frame_at-Shows :
    (parse : String → Option ℕ) (path : List Position) (at : ℕ) (f : PlaybackFrame)
    → frame_at parse path at ≡ some (some f)
    → Shows (dated_points parse path) at f
unfolding frame_at
frame_at-Shows parse path at f e =
    let ds = dated_points parse path in
    subst (Answers ds at) {x = frame_at_dated ds at} e (frame_at_dated-Answers ds at)
