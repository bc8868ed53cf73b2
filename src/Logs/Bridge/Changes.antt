-- ===== src/Logs/Bridge/Changes.antt =====
-- The track updates of log-bridge.ts: a line for each change, and none without one.
use classg.Prelude.{
  Bool, true, false, none, some, List, [], ◌≡◌, refl, arith, ◌↔◌, inl, inr, Bool-cases, write_same,
  ap, sym, ◌∙◌, Option-cases,
}
use classg.Api.{DetectionClass, TrackState, tentative, confirmed, coasting, closed, Track, RawTrack}
use classg.Live.Frames.{same_state}
use classg.Logs.Bridge.{
  TrackMemo, FrameLogger, same_bool, evidence_classes, memo_of, state_lines, confirmed_lines,
  position_lines, open_track, update_track, on_track_update, is_confirmed, has_position,
}

pub same_state-eq : (a b : TrackState) → same_state a b ≡ true → a ≡ b
same_state-eq tentative tentative h = refl
same_state-eq confirmed confirmed h = refl
same_state-eq coasting coasting h = refl
same_state-eq closed closed h = refl
same_state-eq tentative confirmed h = cc
same_state-eq tentative coasting h = cc
same_state-eq tentative closed h = cc
same_state-eq confirmed tentative h = cc
same_state-eq confirmed coasting h = cc
same_state-eq confirmed closed h = cc
same_state-eq coasting tentative h = cc
same_state-eq coasting confirmed h = cc
same_state-eq coasting closed h = cc
same_state-eq closed tentative h = cc
same_state-eq closed confirmed h = cc
same_state-eq closed coasting h = cc

pub same_state_refl : (a : TrackState) → same_state a a ≡ true
same_state_refl tentative = refl
same_state_refl confirmed = refl
same_state_refl coasting = refl
same_state_refl closed = refl

pub same_bool-eq : (a b : Bool) → same_bool a b ≡ true → a ≡ b
same_bool-eq true b h = sym h
same_bool-eq false true h = cc
same_bool-eq false false h = refl

pub same_bool_refl : (a : Bool) → same_bool a a ≡ true
same_bool_refl true = refl
same_bool_refl false = refl

update_unchanged :
    (raw : RawTrack) (l : FrameLogger) → (update_track raw (memo_of raw.track) l).written ≡ []
unfolding update_track state_lines confirmed_lines position_lines
update_unchanged raw l = ground (
  arith,
  same_state_refl raw.track.state,
  same_bool_refl (is_confirmed raw.track),
  same_bool_refl (has_position raw.track),
)

remembers_update :
    (raw : RawTrack) (memo : TrackMemo) (l : FrameLogger)
    → (update_track raw memo l).threw ≡ false
    → (update_track raw memo l).logger.tracks raw.track.track_id ≡ some (memo_of raw.track)
unfolding update_track
remembers_update raw memo l h = elim (Option-cases (confirmed_lines raw memo)) [
  | inl e ↦ ground arith
  | inr (ls, e) ↦
      rw (e, update_track) (write_same l.tracks raw.track.track_id (some (memo_of raw.track)))
]

remembers_open :
    (raw : RawTrack) (l : FrameLogger)
    → (open_track raw l).logger.tracks raw.track.track_id ≡ some (memo_of raw.track)
unfolding open_track
remembers_open raw l = elim (Option-cases (evidence_classes raw.evidence)) [
  | inl e ↦ rw (e, open_track) (write_same l.tracks raw.track.track_id (some (memo_of raw.track)))
  | inr (ls, e) ↦
      rw (e, open_track) (write_same l.tracks raw.track.track_id (some (memo_of raw.track)))
]

-- Once an update was handled without a throw, the track's memo is that of the update.
pub remembers :
    (raw : RawTrack) (l : FrameLogger)
    → (on_track_update raw l).threw ≡ false
    → (on_track_update raw l).logger.tracks raw.track.track_id ≡ some (memo_of raw.track)
unfolding on_track_update
remembers raw l h = elim (Option-cases (l.tracks raw.track.track_id)) [
  | inl e ↦ rw (e, on_track_update) (remembers_open raw l)
  | inr (memo, e) ↦
      rw (e, on_track_update) (remembers_update raw memo l (rw (e, on_track_update) at h))
]

pub silent_when_known :
    (raw : RawTrack) (l : FrameLogger)
    → l.tracks raw.track.track_id ≡ some (memo_of raw.track)
    → (on_track_update raw l).written ≡ []
unfolding on_track_update
silent_when_known raw l h = rw (h, on_track_update) (update_unchanged raw l)

same_memo :
    (t : Track) (memo : TrackMemo)
    → memo.state ≡ t.state
    → memo.confirmed ≡ is_confirmed t
    → memo.had_position ≡ has_position t
    → memo ≡ memo_of t
same_memo t memo a b c = λ i. record { state = a i; confirmed = b i; had_position = c i }

changed_memo :
    (raw : RawTrack) (memo : TrackMemo) (l : FrameLogger) (classes : List DetectionClass)
    → evidence_classes raw.evidence ≡ some classes
    → (update_track raw memo l).written ≡ []
    → memo ≡ memo_of raw.track
unfolding update_track state_lines confirmed_lines position_lines
changed_memo raw memo l classes e h =
    let t = raw.track in
    elim (Bool-cases (same_state memo.state t.state)) [
      | inr a ↦ absurd (ground (arith, e, h))
      | inl a ↦ elim (Bool-cases (same_bool memo.confirmed (is_confirmed t))) [
        | inr b ↦ absurd (ground arith)
        | inl b ↦ elim (Bool-cases (same_bool memo.had_position (has_position t))) [
          | inr c ↦ absurd (ground arith)
          | inl c ↦
              same_memo t memo (same_state-eq memo.state t.state a)
                (same_bool-eq memo.confirmed (is_confirmed t) b)
                (same_bool-eq memo.had_position (has_position t) c)
        ]
      ]
    ]

-- An update of a track seen before, whose evidence is an array or is absent, writes nothing exactly
-- if the track's state, whether it is confirmed, and whether it has a position are all as they were.
pub silent_iff_unchanged :
    (raw : RawTrack) (memo : TrackMemo) (l : FrameLogger) (classes : List DetectionClass)
    → l.tracks raw.track.track_id ≡ some memo
    → evidence_classes raw.evidence ≡ some classes
    → ((on_track_update raw l).written ≡ []) ↔ (memo ≡ memo_of raw.track)
unfolding on_track_update
silent_iff_unchanged raw memo l classes seen e = (
  λ h. changed_memo raw memo l classes e (rw (seen, on_track_update) at h),
  λ same. silent_when_known raw l (seen ∙ ap (λ m. some m) same),
)

-- If the evidence of a track that was not seen before is there but is no array, an object keyed by
-- class for one, the first update throws and writes nothing, and the same update after it writes
-- nothing either, so the opening is not logged.
pub evidence_by_class_opens_unlogged :
    (raw : RawTrack) (l : FrameLogger)
    → l.tracks raw.track.track_id ≡ none
    → evidence_classes raw.evidence ≡ none
    → ((on_track_update raw l).threw ≡ true)
      × ((on_track_update raw l).written ≡ [])
      × ((on_track_update raw (on_track_update raw l).logger).written ≡ [])
unfolding on_track_update open_track
evidence_by_class_opens_unlogged raw l unseen e = (
  ground arith,
  ground arith,
  silent_when_known raw (on_track_update raw l).logger
      (rw (unseen, on_track_update) (remembers_open raw l)),
)
