-- ===== src/Layout/Search/Limit.antt =====
-- services/ui/src/components/layout/search-resolver.ts: how many hits there are, each once.
use classg.Prelude.{
  ℕ, suc, ◌-◌, ◌≤◌, ◌≡◌, inl, inr, arith, max, String, Bool, false, List, [], ◌∷◌, leb, any, length,
  str_eq, All, DistinctBy, Bool-cases, sort_by,
}
use classg.Layout.Search.{SearchHit, SearchIndex, Ranked}
use classg.Layout.Search.Resolve.{take_distinct, resolve_search, all_ranked, ranked_first}

length-take_distinct :
    (limit : ℕ) (seen : List String) (n : ℕ) (rs : List Ranked)
    → length (take_distinct limit seen n rs) ≤ max 1 (limit - n)
unfolding take_distinct
length-take_distinct limit seen n [] = omega arith
length-take_distinct limit seen n (r ∷ rs) = ground (
  arith,
  length-take_distinct limit seen n rs,
  length-take_distinct limit (r.hit.id ∷ seen) (suc n) rs,
)

-- Hits whose ids are not among those seen.
abbrev AllNew : List String → List SearchHit → Type 0
AllNew seen hits = All (λ h. any (str_eq h.id) seen ≡ false) hits

new_apart :
    (id : String) (seen : List String) (hits : List SearchHit)
    → AllNew (id ∷ seen) hits
    → AllNew seen hits × All (λ h. str_eq h.id id ≡ false) hits
new_apart id seen [] h = (tt, tt)
new_apart id seen (x ∷ hits) h = ground (arith, new_apart id seen hits h.1)

take_distinct-AllNew :
    (limit : ℕ) (seen : List String) (n : ℕ) (rs : List Ranked)
    → AllNew seen (take_distinct limit seen n rs)
      × DistinctBy (λ h. h.id) (take_distinct limit seen n rs)
unfolding take_distinct
take_distinct-AllNew limit seen n [] = (tt, tt)
take_distinct-AllNew limit seen n (r ∷ rs) =
    let (new, once) = take_distinct-AllNew limit (r.hit.id ∷ seen) (suc n) rs in
    elim (Bool-cases (any (str_eq r.hit.id) seen)) [
      | inl e ↦ rw e (take_distinct-AllNew limit seen n rs)
      | inr e ↦ elim (Bool-cases (leb limit (suc n))) [
        | inl full ↦ rw (e, full) ((e, tt), (tt, tt))
        | inr more ↦
            let (others, apart) =
              new_apart r.hit.id seen (take_distinct limit (r.hit.id ∷ seen) (suc n) rs) new in
            rw (e, more) ((e, others), (apart, once))
      ]
    ]

-- A search answers no more hits than its limit, one where the limit is 0, and no two of them have
-- the same id.
pub hits_are_few_and_distinct :
    (trim lower : String → String) (id_before : String → String → Bool) (query : String)
    (index : SearchIndex) (limit : ℕ)
    → (length (resolve_search trim lower id_before query index limit) ≤ max 1 limit)
      × DistinctBy (λ h. h.id) (resolve_search trim lower id_before query index limit)
unfolding resolve_search
hits_are_few_and_distinct trim lower id_before query index limit =
    let rs =
      sort_by (ranked_first trim lower id_before)
        (all_ranked trim lower id_before (trim query) index) in
    elim (Bool-cases (str_eq (trim query) "")) [
      | inl e ↦ rw e (omega arith, tt)
      | inr e ↦ rw e (
        omega (arith, length-take_distinct limit [] 0 rs),
        (take_distinct-AllNew limit [] 0 rs).1,
      )
    ]
