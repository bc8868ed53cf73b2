-- ===== src/Logs/Store/Invariant.antt =====
-- The invariant of the log of log-store.ts, and the calls that append to it or clear it.
use classg.Prelude.{
  ℕ, suc, ◌+◌, ◌-◌, ◌≤◌, ◌<◌, ◌≡◌, refl, arith, String, true, false, List, [], ◌∷◌, if◌then◌else◌,
  ltb, length, drop, length-append, length-drop, inl, inr, Bool-cases, if_true, if_false, ◌⊎◌,
}
use classg.Logs.Store.{
  LogEntry, LogInput, LogStore, is_debug, slice_last, emit, entry_of, push, count_debug, over_burst,
  gap_notice, append_debug, append, clear,
}
use classg.Logs.Store.Ids.{Consecutive, Consecutive-append, Consecutive-drop}

-- `since` is the first id given out after the last `clear`.
pub record Inv (since : ℕ) (s : LogStore) : Type 0 where
  pub kept_ids : Consecutive (since + s.dropped) s.entries
  pub pending_ids : Consecutive (since + s.dropped + length s.entries) s.pending
  pub all_counted : since + s.dropped + length s.entries + length s.pending ≡ s.next_id
  pub fits : length s.entries ≤ s.limit
  pub at_least : 50 ≤ s.limit
  pub at_most : s.limit ≤ 10000
  -- What is pending waits for a timer that is set.
  pub due : s.timer ≡ false → s.pending ≡ []

pub slice_last_cut :
    (n : ℕ) (xs : List LogEntry) → 0 < n → slice_last n xs ≡ drop (length xs - n) xs
slice_last_cut n xs h = ground arith

-- The newest `n` of entries with consecutive ids.
pub newest :
    (n from : ℕ) (xs : List LogEntry)
    → 0 < n
    → n < length xs
    → Consecutive from xs
    → Consecutive (from + (length xs - n)) (slice_last n xs) × (length (slice_last n xs) ≡ n)
newest n from xs pos over h = rw (slice_last_cut n xs pos) (
  Consecutive-drop (length xs - n) xs from (omega arith) h,
  omega (arith, length-drop (length xs - n) xs),
)

push-Inv :
    (iso : String) (input : LogInput) (since : ℕ) (s : LogStore)
    → Inv since s
    → Inv since (push iso input s)
unfolding push
push-Inv iso input since s v = record {
  kept_ids = v.kept_ids;
  pending_ids =
      Consecutive-append s.pending (entry_of s.next_id iso input ∷ [])
        (since + s.dropped + length s.entries) v.pending_ids (omega (arith, v.all_counted), tt);
  all_counted =
      omega (arith, v.all_counted, length-append s.pending (entry_of s.next_id iso input ∷ []));
  fits = v.fits;
  at_least = v.at_least;
  at_most = v.at_most;
  due = λ h. ground arith;
}

same_fields :
    (since start count missed : ℕ) (s : LogStore)
    → Inv since s
    → Inv since (record s {
      debug_window_start = start;
      debug_window_count = count;
      suppressed_debug = missed;
    })
same_fields since start count missed s v = record {
  kept_ids = v.kept_ids;
  pending_ids = v.pending_ids;
  all_counted = v.all_counted;
  fits = v.fits;
  at_least = v.at_least;
  at_most = v.at_most;
  due = v.due;
}

count_debug-Inv : (now since : ℕ) (s : LogStore) → Inv since s → Inv since (count_debug now s)
unfolding count_debug
count_debug-Inv now since s v = elim (Bool-cases (ltb 1000 (now - s.debug_window_start))) [
  | inl late ↦
      if_true (Inv since) (ltb 1000 (now - s.debug_window_start)) _ _ late
        (same_fields since now 1 s.suppressed_debug s v)
  | inr within ↦
      if_false (Inv since) (ltb 1000 (now - s.debug_window_start)) _ _ within
        (same_fields since s.debug_window_start (suc s.debug_window_count) s.suppressed_debug s v)
]

append_debug-Inv :
    (now : ℕ) (iso : String) (input : LogInput) (since : ℕ) (s : LogStore)
    → Inv since s
    → Inv since (append_debug now iso input s)
unfolding append_debug
append_debug-Inv now iso input since s v =
    let c = count_debug now s in
    let counted = count_debug-Inv now since s v in
    elim (Bool-cases (over_burst c)) [
      | inl over ↦ if_true (Inv since) (over_burst c) _ _ over (
          same_fields since c.debug_window_start c.debug_window_count (suc s.suppressed_debug) c
            counted)
      | inr under ↦
          if_false (Inv since) (over_burst c) _ _ under (push-Inv iso input since c counted)
    ]

pub append-Inv :
    (now : ℕ) (iso : String) (input : LogInput) (since : ℕ) (s : LogStore)
    → Inv since s
    → Inv since (append now iso input s)
unfolding append
append-Inv now iso input since s v = elim (Bool-cases (is_debug input.level)) [
  | inl e ↦
      if_true (Inv since) (is_debug input.level) _ _ e (append_debug-Inv now iso input since s v)
  | inr e ↦
      if_false (Inv since) (is_debug input.level) _ _ e
        (logged (Bool-cases (ltb 0 s.suppressed_debug)))
]
  where
    logged :
        (ltb 0 s.suppressed_debug ≡ true) ⊎ (ltb 0 s.suppressed_debug ≡ false)
        → Inv since (
            if ltb 0 s.suppressed_debug
            then push iso input
                (push iso (gap_notice s.suppressed_debug) (record s { suppressed_debug = 0 }))
            else push iso input s)
    logged (inl gap) = if_true (Inv since) (ltb 0 s.suppressed_debug) _ _ gap (
        push-Inv iso input since _ (
          push-Inv iso (gap_notice s.suppressed_debug) since _
            (same_fields since s.debug_window_start s.debug_window_count 0 s v)))
    logged (inr none_missed) =
        if_false (Inv since) (ltb 0 s.suppressed_debug) _ _ none_missed
          (push-Inv iso input since s v)

pub clear-Inv : (since : ℕ) (s : LogStore) → Inv since s → Inv s.next_id (clear s)
unfolding clear emit
clear-Inv since s v = record {
  kept_ids = tt;
  pending_ids = tt;
  all_counted = omega arith;
  fits = omega arith;
  at_least = v.at_least;
  at_most = v.at_most;
  due = λ h. refl;
}
