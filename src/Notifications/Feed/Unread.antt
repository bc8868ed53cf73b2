-- ===== src/Notifications/Feed/Unread.antt =====
-- The unread count of feed.ts.
use classg.Prelude.{
  ℕ, ◌≤◌, ◌≡◌, refl, arith, String, Option, none, some, List, [], ◌∷◌, false, length, All,
}
use classg.Notifications.LastSeen.{unavailable, missing, read_last_seen}
use classg.Notifications.Feed.{Notification, is_later, count_unread}

module _ (time : String → Option ℕ) where
  none_after :
      (seen : ℕ) (feed : List Notification)
      → All (λ n. is_later seen (time n.at) ≡ false) feed
      → count_unread time feed seen ≡ 0
  unfolding count_unread
  none_after seen [] h = refl
  none_after seen (n ∷ feed) h = ground (arith, none_after seen feed h.1, h.0)

  -- A feed of which nothing is later than `now` has no unread notification on a first visit, and none
  -- while the storage cannot be read: the watermark is then `now`. A later visit reads that watermark back.
  first_visit_has_no_unread :
      (now later : ℕ) (feed : List Notification)
      → All (λ n. is_later now (time n.at) ≡ false) feed
      → (count_unread time feed (read_last_seen now missing).0 ≡ 0)
        × (count_unread time feed (read_last_seen now unavailable).0 ≡ 0)
        × ((read_last_seen later (read_last_seen now missing).1).0 ≡ now)
  unfolding read_last_seen
  first_visit_has_no_unread now later feed h = (none_after now feed h, none_after now feed h, refl)

  later_falls : (a b : ℕ) (t : Option ℕ) → a ≤ b → is_later a t ≡ false → is_later b t ≡ false
  later_falls a b none le h = refl
  later_falls a b (some ms) le h = ground arith

  -- A later watermark never makes the unread count larger, and the count is at most the feed's length.
  unread_falls :
      (feed : List Notification) (a b : ℕ)
      → a ≤ b
      → (count_unread time feed b ≤ count_unread time feed a)
        × (count_unread time feed a ≤ length feed)
  unfolding count_unread
  unread_falls [] a b h = (omega arith, omega arith)
  unread_falls (n ∷ feed) a b h =
      let (falls, bounded) = unread_falls feed a b h in
      (ground (arith, falls, later_falls a b (time n.at) h), ground (arith, bounded))
