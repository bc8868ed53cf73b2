-- ===== src/Logs/Store/Bounds.antt =====
-- What holds of the log of log-store.ts after every call and every firing of its timer.
use classg.Prelude.{
  ℕ, suc, ◌+◌, ◌-◌, ◌≤◌, ◌<◌, ◌≡◌, refl, arith, true, false, List, [], ◌∷◌, ◌++◌, ltb, min, max,
  length, subst, length-append, inl, inr, Bool-cases, if_true, if_false, ltb→lt, ltb-false,
}
use classg.Logs.Store.{
  LogEntry, LogStore, new_log_store, slice_last, emit, set_limit, is_empty, flush, Event, appended,
  limited, cleared, timer_fired, step, run,
}
use classg.Logs.Store.Ids.{Consecutive, Consecutive-append}
use classg.Logs.Store.Invariant.{Inv, newest, append-Inv, clear-Inv}

flush-Inv :
    (since : ℕ) (s : LogStore) → Inv since s → Inv since (flush (record s { timer = false }))
unfolding flush emit
flush-Inv since s v = elim (Bool-cases (is_empty s.pending)) [
  | inl none_pending ↦ if_true (Inv since) (is_empty s.pending) _ _ none_pending (record {
    kept_ids = v.kept_ids;
    pending_ids = v.pending_ids;
    all_counted = v.all_counted;
    fits = v.fits;
    at_least = v.at_least;
    at_most = v.at_most;
    due = λ h. is_empty-eq s.pending none_pending;
  })
  | inr some_pending ↦
      if_false (Inv since) (is_empty s.pending) _ _ some_pending
        (elim (Bool-cases (ltb s.limit (length merged))) [
          | inl over ↦
              if_true (Inv since) (ltb s.limit (length merged)) _ _ over
                (cut (ltb→lt s.limit (length merged) over))
          | inr under ↦
              if_false (Inv since) (ltb s.limit (length merged)) _ _ under
                (whole (ltb-false s.limit (length merged) under))
        ])
]
  where
    merged : List LogEntry
    merged = s.entries ++ s.pending

    is_empty-eq : (xs : List LogEntry) → is_empty xs ≡ true → xs ≡ []
    is_empty-eq [] h = refl
    is_empty-eq (x ∷ xs) h = cc

    all_ids : Consecutive (since + s.dropped) merged
    all_ids = Consecutive-append s.entries s.pending (since + s.dropped) v.kept_ids v.pending_ids

    cut :
        s.limit < length merged
        → Inv since (record s {
          timer = false;
          pending = [];
          dropped = s.dropped + (length merged - s.limit);
          entries = slice_last s.limit merged;
          emits = suc s.emits;
        })
    cut over =
        let (ids, size) =
          newest s.limit (since + s.dropped) merged (omega (arith, v.at_least)) over all_ids in
        record {
          kept_ids = subst (λ k. Consecutive k (slice_last s.limit merged)) (omega arith) ids;
          pending_ids = tt;
          all_counted = omega (arith, v.all_counted, size, length-append s.entries s.pending);
          fits = omega (arith, size);
          at_least = v.at_least;
          at_most = v.at_most;
          due = λ h. refl;
        }

    whole :
        length merged ≤ s.limit
        → Inv since
            (record s { timer = false; pending = []; entries = merged; emits = suc s.emits })
    whole under = record {
      kept_ids = all_ids;
      pending_ids = tt;
      all_counted = omega (arith, v.all_counted, length-append s.entries s.pending);
      fits = under;
      at_least = v.at_least;
      at_most = v.at_most;
      due = λ h. refl;
    }

set_limit-Inv : (limit since : ℕ) (s : LogStore) → Inv since s → Inv since (set_limit limit s)
unfolding set_limit emit
set_limit-Inv limit since s v = elim (Bool-cases (ltb bound (length s.entries))) [
  | inl over ↦
      if_true (Inv since) (ltb bound (length s.entries)) _ _ over
        (cut (ltb→lt bound (length s.entries) over))
  | inr under ↦ if_false (Inv since) (ltb bound (length s.entries)) _ _ under (record {
    kept_ids = v.kept_ids;
    pending_ids = v.pending_ids;
    all_counted = v.all_counted;
    fits = ltb-false bound (length s.entries) under;
    at_least = omega arith;
    at_most = omega arith;
    due = v.due;
  })
]
  where
    bound : ℕ
    bound = max 50 (min 10000 limit)

    cut :
        bound < length s.entries
        → Inv since (record s {
          limit = bound;
          dropped = s.dropped + (length s.entries - bound);
          entries = slice_last bound s.entries;
          emits = suc s.emits;
        })
    cut over =
        let (ids, size) =
          newest bound (since + s.dropped) s.entries (omega arith) over v.kept_ids in
        record {
          kept_ids = subst (λ k. Consecutive k (slice_last bound s.entries)) (omega arith) ids;
          pending_ids = subst (λ k. Consecutive k s.pending) (omega (arith, size)) v.pending_ids;
          all_counted = omega (arith, v.all_counted, size);
          fits = omega (arith, size);
          at_least = omega arith;
          at_most = omega arith;
          due = v.due;
        }

-- The first id given out after the last `clear`, after an event.
abbrev pub since_after : Event → LogStore → ℕ → ℕ
since_after cleared s since = s.next_id
since_after _ s since = since

step-Inv :
    (e : Event) (since : ℕ) (s : LogStore) → Inv since s → Inv (since_after e s since) (step e s)
unfolding step
step-Inv (appended now iso input) since s v = append-Inv now iso input since s v
step-Inv (limited n) since s v = set_limit-Inv n since s v
step-Inv cleared since s v = clear-Inv since s v
step-Inv timer_fired since s v = elim (Bool-cases s.timer) [
  | inl e ↦ if_true (Inv since) s.timer _ _ e (flush-Inv since s v)
  | inr e ↦ if_false (Inv since) s.timer _ _ e v
]

abbrev pub since_after_run : List Event → LogStore → ℕ → ℕ
since_after_run [] s since = since
since_after_run (e ∷ es) s since = since_after_run es (step e s) (since_after e s since)

run-Inv :
    (es : List Event) (since : ℕ) (s : LogStore)
    → Inv since s
    → Inv (since_after_run es s since) (run es s)
unfolding run
run-Inv [] since s v = v
run-Inv (e ∷ es) since s v = run-Inv es (since_after e s since) (step e s) (step-Inv e since s v)

-- After any calls and timer events from the empty store: the entries kept and then those pending have
-- consecutive ids, up to the next id; the first of them is the first id given out since the last
-- `clear` plus the count of dropped entries, so that count is exact; the entries kept are at most the
-- limit, which is from 50 to 10000; and while an entry is pending, the timer is set.
pub run_from_new-Inv :
    (es : List Event) → Inv (since_after_run es new_log_store 1) (run es new_log_store)
run_from_new-Inv es = run-Inv es 1 new_log_store empty-Inv
  where
    empty-Inv : Inv 1 new_log_store
    empty-Inv = record {
      kept_ids = tt;
      pending_ids = tt;
      all_counted = refl;
      fits = omega arith;
      at_least = omega arith;
      at_most = omega arith;
      due = λ h. refl;
    }

timer_is_off :
    (s : LogStore)
    → ((step timer_fired s).timer ≡ false) × ((step timer_fired s).next_id ≡ s.next_id)
unfolding step flush emit
timer_is_off s = (ground arith, ground arith)

conserved :
    (since : ℕ) (a b : LogStore)
    → Inv since a
    → Inv since b
    → b.pending ≡ []
    → b.next_id ≡ a.next_id
    → length b.entries + b.dropped ≡ length a.entries + length a.pending + a.dropped
conserved since a b v w drained same =
    let nothing : length b.pending ≡ 0 = rw drained in
    omega (arith, v.all_counted, w.all_counted, nothing)

-- When the timer of a store in order fires, nothing is pending any more, no id is given out, and every
-- entry that was kept or pending is now kept or counted as dropped.
pub timer_keeps_or_counts :
    (since : ℕ) (s : LogStore)
    → Inv since s
    → ((step timer_fired s).pending ≡ [])
      × ((step timer_fired s).next_id ≡ s.next_id)
      × (length (step timer_fired s).entries + (step timer_fired s).dropped
          ≡ length s.entries + length s.pending + s.dropped)
timer_keeps_or_counts since s v =
    let w = step-Inv timer_fired since s v in
    let (off, same) = timer_is_off s in
    let drained = w.due off in
    (drained, same, conserved since s (step timer_fired s) v w drained same)
