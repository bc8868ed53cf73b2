-- ===== src/Notifications/Feed/Order.antt =====
-- The order and the bound of the feed of feed.ts.
use classg.Prelude.{
  ℕ, ◌≤◌, ◌<◌, ◌≡◌, refl, arith, subst, sym, ◌⊎◌, inl, inr, String, Bool, true, false, Option, none,
  some, List, [], ◌∷◌, ◌++◌, ◌==◌, ==_iff, length, take, drop, get_or_else, is_some, Bool-cases,
  sort_by, sort_by-perm, sort_by-IsSorted, sort_by_agree, IsSorted, IsSorted-take-drop,
  IsSorted-take, All, All-imp, length-take-le, take-append-drop,
}
use mathlib.Core.List.{Perm}
use classg.Notifications.Feed.{
  NotificationId, Notification, FeedInput, merged, delta_first, newest_first, build_feed,
}

module _ (time : String → Option ℕ) (id_before : NotificationId → NotificationId → Bool) where
  -- The time of a notification, if it has one.
  abbrev pub ms_of : Notification → ℕ
  ms_of n = get_or_else (time n.at) 0

  -- The first is of a later time, or of the same time and its id comes first.
  abbrev pub IsNewer : Notification → Notification → Type 0
  IsNewer a b = (ms_of b < ms_of a) ⊎ ((ms_of a ≡ ms_of b) × (id_before a.id b.id ≡ true))

  abbrev pub IsNewestFirst : List Notification → Type 0
  IsNewestFirst [] = Unit
  IsNewestFirst (n ∷ ns) = All (IsNewer n) ns × IsNewestFirst ns

  -- The comparator on dates that are all there.
  abbrev newer : Notification → Notification → Bool
  newer a b = delta_first (some (ms_of a)) (some (ms_of b)) (id_before a.id b.id)

  abbrev pub IsDated : Notification → Type 0
  IsDated n = is_some (time n.at) ≡ true

  delta_agrees :
      (a b : Option ℕ) (ids : Bool)
      → is_some a ≡ true
      → is_some b ≡ true
      → delta_first a b ids ≡ delta_first (some (get_or_else a 0)) (some (get_or_else b 0)) ids
  delta_agrees (some a) (some b) ids h k = refl
  delta_agrees none b ids h k = cc
  delta_agrees (some a) none ids h k = cc

  newest_first-newer :
      (a b : Notification) → IsDated a → IsDated b → newest_first time id_before a b ≡ newer a b
  newest_first-newer a b h k = delta_agrees (time a.at) (time b.at) (id_before a.id b.id) h k

  newer-IsNewer : (a b : Notification) → newer a b ≡ true → IsNewer a b
  newer-IsNewer a b h = elim (Bool-cases (ms_of b == ms_of a)) [
    | inl e ↦ inr (sym ((==_iff (ms_of b) (ms_of a)).0 e), (rw e at h))
    | inr e ↦ inl (ground arith)
  ]

  sorted-IsNewestFirst : (ns : List Notification) → IsSorted newer ns → IsNewestFirst ns
  sorted-IsNewestFirst [] h = tt
  sorted-IsNewestFirst (n ∷ ns) h = (
    All-imp (λ m. newer n m ≡ true) (IsNewer n) (newer-IsNewer n) ns h.0,
    sorted-IsNewestFirst ns h.1,
  )

  cut-IsNewer :
      (feed cut : List Notification)
      → All (λ y. All (λ x. newer x y ≡ true) feed) cut
      → All (λ y. All (λ x. IsNewer x y) feed) cut
  cut-IsNewer feed cut h =
      All-imp (λ y. All (λ x. newer x y ≡ true) feed) (λ y. All (λ x. IsNewer x y) feed)
        (λ y g. All-imp (λ x. newer x y ≡ true) (λ x. IsNewer x y) (λ x. newer-IsNewer x y) feed g)
        cut h

  module _ (total : (a b : NotificationId) → id_before a b ≡ false → id_before b a ≡ true)
      (trans : (a b c : NotificationId)
        → id_before a b ≡ true
        → id_before b c ≡ true
        → id_before a c ≡ true) where
    newer_total : (a b : Notification) → newer a b ≡ false → newer b a ≡ true
    newer_total a b h =
        ground (arith, total a.id b.id, ==_iff (ms_of a) (ms_of b), ==_iff (ms_of b) (ms_of a))

    newer_trans : (a b c : Notification) → newer a b ≡ true → newer b c ≡ true → newer a c ≡ true
    newer_trans a b c h k = ground (arith, trans a.id b.id c.id)

    -- If every notification has a date and the comparison of ids is total and transitive: the feed has
    -- at most `limit` notifications, each of a later time than those after it or, at the same time, of an
    -- id that comes first; and what the limit cuts off is in that sense older than all that stay.
    pub feed_is_newest :
        (i : FeedInput)
        → All IsDated (merged i)
        → (cut : List Notification) × (length (build_feed time id_before i) ≤ i.limit)
          × IsNewestFirst (build_feed time id_before i)
          × Perm (build_feed time id_before i ++ cut) (merged i)
          × All (λ y. All (λ x. IsNewer x y) (build_feed time id_before i)) cut
    unfolding build_feed
    feed_is_newest i dated =
        let sorted = sort_by newer (merged i) in
        let same =
          sort_by_agree (newest_first time id_before) newer IsDated newest_first-newer (merged i)
            dated in
        let in_order = sort_by-IsSorted newer newer_total newer_trans (merged i) in
        rw same (
          drop i.limit sorted,
          length-take-le i.limit sorted,
          sorted-IsNewestFirst (take i.limit sorted) (IsSorted-take newer i.limit sorted in_order),
          subst (λ xs. Perm xs (merged i)) (sym (take-append-drop i.limit sorted))
              (sort_by-perm newer (merged i)),
          cut-IsNewer (take i.limit sorted) (drop i.limit sorted)
              (IsSorted-take-drop newer newer_total newer_trans i.limit sorted in_order),
        )
