-- ===== src/Charts/Downsample/Pieces.antt =====
-- Lists taken apart into a piece and the rest.
use classg.Prelude.{
  ℕ, zero, suc, ◌+◌, ◌≤◌, ◌⊎◌, inl, inr, arith, List, [], ◌∷◌, ◌++◌, length, take, drop, All,
  All-drop, All-take,
}

pub All-parts :
    {A : Type 0} (P : A → Type 0) (xs ys : List A) → All P (xs ++ ys) → All P xs × All P ys
All-parts P [] ys h = (tt, h)
All-parts P (x ∷ xs) ys (p, h) = let (a, b) = All-parts P xs ys h in ((p, a), b)

pub All-past_end :
    {A : Type 0} (P : A → Type 0) (k : ℕ) (xs : List A) → length xs ≤ k → All P (drop k xs)
All-past_end P zero [] h = tt
All-past_end P zero (x ∷ xs) h = absurd (omega (arith, h))
All-past_end P (suc k) [] h = tt
All-past_end P (suc k) (x ∷ xs) h = All-past_end P k xs (omega arith)

All-first_piece :
    {A : Type 0} (P : A → Type 0) (m next : ℕ) (xs : List A)
    → All P (take m xs)
    → All P (drop next xs)
    → (next ≤ m) ⊎ (length xs ≤ m)
    → All P xs
All-first_piece P m next [] piece rest h = tt
All-first_piece P m zero (x ∷ xs) piece rest h = rest
All-first_piece P zero (suc next) (x ∷ xs) piece rest (inl h) = absurd (omega (arith, h))
All-first_piece P zero (suc next) (x ∷ xs) piece rest (inr h) = absurd (omega (arith, h))
All-first_piece P (suc m) (suc next) (x ∷ xs) (p, piece) rest (inl h) =
    (p, All-first_piece P m next xs piece rest (inl (omega arith)))
All-first_piece P (suc m) (suc next) (x ∷ xs) (p, piece) rest (inr h) =
    (p, All-first_piece P m next xs piece rest (inr (omega arith)))

-- What holds of a piece from `s` on and of all from `next` on, with nothing between.
pub All-pieces :
    {A : Type 0} (P : A → Type 0) (s m next : ℕ) (xs : List A)
    → All P (take m (drop s xs))
    → All P (drop next xs)
    → (next ≤ s + m) ⊎ (length xs ≤ s + m)
    → All P (drop s xs)
All-pieces P zero m next xs piece rest (inl h) =
    All-first_piece P m next xs piece rest (inl (omega arith))
All-pieces P zero m next xs piece rest (inr h) =
    All-first_piece P m next xs piece rest (inr (omega arith))
All-pieces P (suc s) m next [] piece rest h = tt
All-pieces P (suc s) m zero (x ∷ xs) piece (p, rest) h = All-drop P s xs rest
All-pieces P (suc s) m (suc next) (x ∷ xs) piece rest (inl h) =
    All-pieces P s m next xs piece rest (inl (omega arith))
All-pieces P (suc s) m (suc next) (x ∷ xs) piece rest (inr h) =
    All-pieces P s m next xs piece rest (inr (omega arith))

-- What holds of a piece holds of it in a list that ends earlier.
pub All-piece_of_take :
    {A : Type 0} (P : A → Type 0) (s m n : ℕ) (xs : List A)
    → All P (take m (drop s xs))
    → All P (take m (drop s (take n xs)))
All-piece_of_take P zero zero n xs h = tt
All-piece_of_take P zero (suc m) zero xs h = tt
All-piece_of_take P zero (suc m) (suc n) [] h = tt
All-piece_of_take P zero (suc m) (suc n) (x ∷ xs) (p, h) = (p, All-piece_of_take P zero m n xs h)
All-piece_of_take P (suc s) zero zero xs h = tt
All-piece_of_take P (suc s) (suc m) zero xs h = tt
All-piece_of_take P (suc s) m (suc n) [] h = All-take P m [] tt
All-piece_of_take P (suc s) m (suc n) (x ∷ xs) h = All-piece_of_take P s m n xs h

pub length-take-le_length : {A : Type 0} (n : ℕ) (xs : List A) → length (take n xs) ≤ length xs
length-take-le_length zero xs = omega arith
length-take-le_length (suc n) [] = omega arith
length-take-le_length (suc n) (x ∷ xs) = omega (arith, length-take-le_length n xs)

pub All-take_fewer :
    {A : Type 0} (P : A → Type 0) (m n : ℕ) (xs : List A)
    → m ≤ n
    → All P (take n xs)
    → All P (take m xs)
All-take_fewer P zero n xs le h = tt
All-take_fewer P (suc m) zero xs le h = absurd (omega (arith, le))
All-take_fewer P (suc m) (suc n) [] le h = tt
All-take_fewer P (suc m) (suc n) (x ∷ xs) le (p, h) = (p, All-take_fewer P m n xs (omega arith) h)
