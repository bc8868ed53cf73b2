-- ===== src/Logs/Store/Ids.antt =====
-- The ids of the entries of log-store.ts.
use classg.Prelude.{ℕ, zero, suc, ◌+◌, ◌≤◌, ◌≡◌, arith, List, [], ◌∷◌, ◌++◌, length, drop, subst}
use classg.Logs.Store.{LogEntry}

-- The ids of `es` are `n`, `n + 1`, and so on.
abbrev pub Consecutive : ℕ → List LogEntry → Type 0
Consecutive n [] = Unit
Consecutive n (e ∷ es) = (e.id ≡ n) × Consecutive (suc n) es

pub Consecutive-append :
    (xs ys : List LogEntry) (n : ℕ)
    → Consecutive n xs
    → Consecutive (n + length xs) ys
    → Consecutive n (xs ++ ys)
Consecutive-append [] ys n hx hy = subst (λ k. Consecutive k ys) (omega arith) hy
Consecutive-append (x ∷ xs) ys n hx hy =
    (hx.0, Consecutive-append xs ys (suc n) hx.1 (subst (λ k. Consecutive k ys) (omega arith) hy))

pub Consecutive-drop :
    (k : ℕ) (xs : List LogEntry) (n : ℕ)
    → k ≤ length xs
    → Consecutive n xs
    → Consecutive (n + k) (drop k xs)
Consecutive-drop zero xs n b h = subst (λ m. Consecutive m xs) (omega arith) h
Consecutive-drop (suc k) [] n b h = absurd (omega arith)
Consecutive-drop (suc k) (x ∷ xs) n b h =
    subst (λ m. Consecutive m (drop k xs)) (omega arith)
      (Consecutive-drop k xs (suc n) (omega arith) h.1)

pub Consecutive-prefix :
    (xs ys : List LogEntry) (n : ℕ) → Consecutive n (xs ++ ys) → Consecutive n xs
Consecutive-prefix [] ys n h = tt
Consecutive-prefix (x ∷ xs) ys n h = (h.0, Consecutive-prefix xs ys (suc n) h.1)

pub Consecutive-suffix :
    (xs ys : List LogEntry) (n : ℕ) → Consecutive n (xs ++ ys) → Consecutive (n + length xs) ys
Consecutive-suffix [] ys n h = subst (λ k. Consecutive k ys) (omega arith) h
Consecutive-suffix (x ∷ xs) ys n h =
    subst (λ k. Consecutive k ys) (omega arith) (Consecutive-suffix xs ys (suc n) h.1)
