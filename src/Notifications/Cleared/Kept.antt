-- ===== src/Notifications/Cleared/Kept.antt =====
-- What stays cleared in cleared-store.ts.
use classg.Prelude.{
  ℕ, zero, suc, ◌-◌, ◌≤◌, ◌≡◌, refl, ap, ◌∙◌, DistinctBy, All-imp, arith, String, true, false, ◌||◌,
  List, [], ◌∷◌, ◌++◌, leb, length, drop, all, str_eq, str_eq_refl, append_assoc, length-append,
  length-drop, Bool-cases, inl, inr, if_true, if_false, All, subst, sym,
}
use classg.Notifications.Cleared.{ClearedStore, has_id, has, add_all, trim, clear, clear_many}

has_append :
    (xs ys : List String) (id : String) → has_id (xs ++ ys) id ≡ (has_id xs id || has_id ys id)
has_append [] ys id = refl
has_append (x ∷ xs) ys id = ground (arith, has_append xs ys id)

-- Dropping no more than `xs` keeps `ys`.
drop_keeps :
    (k : ℕ) (xs ys : List String) (id : String)
    → k ≤ length xs
    → has_id ys id ≡ true
    → has_id (drop k (xs ++ ys)) id ≡ true
drop_keeps zero xs ys id le h = ground (arith, has_append xs ys id)
drop_keeps (suc k) [] ys id le h = absurd (omega arith)
drop_keeps (suc k) (x ∷ xs) ys id le h = drop_keeps k xs ys id (omega arith) h

trim_keeps :
    (xs ys : List String) (id : String)
    → length ys ≤ 500
    → has_id ys id ≡ true
    → has_id (trim (xs ++ ys)) id ≡ true
unfolding trim
trim_keeps xs ys id le h = elim (Bool-cases (leb (length (xs ++ ys)) 500)) [
  | inl e ↦
      if_true (λ zs. has_id zs id ≡ true) (leb (length (xs ++ ys)) 500) _ _ e
        (ground (arith, has_append xs ys id))
  | inr e ↦
      if_false (λ zs. has_id zs id ≡ true) (leb (length (xs ++ ys)) 500) _ _ e
        (drop_keeps (length (xs ++ ys) - 500) xs ys id (omega (arith, length-append xs ys)) h)
]

pub length-trim-le : (ids : List String) → length (trim ids) ≤ 500
unfolding trim
length-trim-le ids = ground (arith, length-drop (length ids - 500) ids)

abbrev pub self : String → String
self id = id

fresh_after :
    (ids : List String) (x : String) (xs : List String)
    → All (λ y. str_eq y x ≡ false) xs
    → All (λ y. has_id ids y ≡ false) xs
    → All (λ y. has_id (ids ++ x ∷ []) y ≡ false) xs
fresh_after ids x [] d n = tt
fresh_after ids x (y ∷ xs) d n =
    (ground (arith, has_append ids (x ∷ []) y, d.0, n.0), fresh_after ids x xs d.1 n.1)

add_all-fresh :
    (xs ids : List String)
    → DistinctBy self xs
    → All (λ x. has_id ids x ≡ false) xs
    → add_all ids xs ≡ ids ++ xs
add_all-fresh [] ids d n = sym (append_nil ids)
  where
    append_nil : (l : List String) → l ++ [] ≡ l
    append_nil [] = refl
    append_nil (y ∷ l) = ap (λ m. y ∷ m) (append_nil l)
add_all-fresh (x ∷ xs) ids d n =
    if_false (λ l. add_all l xs ≡ ids ++ x ∷ xs) (has_id ids x) _ _ n.0
      (add_all-fresh xs (ids ++ x ∷ []) d.1 (fresh_after ids x xs d.0 n.1)
        ∙ append_assoc ids (x ∷ []) xs)

self-has : (xs zs : List String) → All (λ x. has_id (zs ++ xs) x ≡ true) xs
self-has [] zs = tt
self-has (x ∷ xs) zs = (
  ground (arith, has_append zs (x ∷ xs) x, str_eq_refl x),
  subst (λ l. All (λ y. has_id l y ≡ true) xs) (append_assoc zs (x ∷ []) xs)
      (self-has xs (zs ++ x ∷ [])),
)

-- If the set holds at most 500 ids, a cleared id is in it afterwards, and it still holds at most 500.
pub clear_sticks :
    (id : String) (s : ClearedStore)
    → length s.ids ≤ 500
    → (has (clear id s) id ≡ true) × (length (clear id s).ids ≤ 500)
unfolding clear
clear_sticks id s le = elim (Bool-cases (has s id)) [
  | inl e ↦ if_true (λ t. (has t id ≡ true) × (length t.ids ≤ 500)) (has s id) _ _ e (e, le)
  | inr e ↦
      if_false (λ t. (has t id ≡ true) × (length t.ids ≤ 500)) (has s id) _ _ e
        (rw e (
          trim_keeps s.ids (id ∷ []) id (omega arith) (ground (arith, str_eq_refl id)),
          length-trim-le (s.ids ++ id ∷ []),
        ))
]

-- If at most 500 ids, no two equal and none in the set, are cleared at once, all of them are in the
-- set afterwards.
pub clear_many_sticks :
    (xs : List String) (s : ClearedStore)
    → length xs ≤ 500
    → DistinctBy self xs
    → All (λ x. has s x ≡ false) xs
    → All (λ x. has (clear_many xs s) x ≡ true) xs
unfolding clear_many
clear_many_sticks [] s le d n = tt
clear_many_sticks (x ∷ xs) s le d n =
    let all_new = x ∷ xs in
    let some_new : all (has s) all_new ≡ false = ground (arith, n.0) in
    if_false (λ t. All (λ y. has t y ≡ true) all_new) (all (has s) all_new) _ _ some_new
      (subst (λ l. All (λ y. has_id (trim l) y ≡ true) all_new)
        (sym (add_all-fresh all_new s.ids d n))
        (All-imp (λ y. has_id all_new y ≡ true) (λ y. has_id (trim (s.ids ++ all_new)) y ≡ true)
          (λ y h. trim_keeps s.ids all_new y le h) all_new (self-has all_new [])))
