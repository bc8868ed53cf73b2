-- ===== src/Prelude/Text.antt =====
-- Texts compared as the console compares them: `===`, and `<` on the UTF-16 code units.
use Prim.Native.Nat.{ℕ, ◌+◌, ◌-◌, ◌/◌, ◌%◌}
use Prim.Native.Char.{code}
use Prim.Native.String.{String}
use mathlib.Core.Path.{◌≡◌, refl}
use mathlib.Core.Logic.{◌⊎◌}
use mathlib.Core.Bool.{Bool, true, false, ◌&&◌, ◌||◌}
use mathlib.Core.Option.{Option, none, some}
use mathlib.Core.List.{List, [], ◌∷◌}
use native.Mathlib.Omega.{arith}
use text.Mathlib.Text.{◌==◌ as str_eq}
use text.Mathlib.TextEquality.{eq_iff}
use classg.Prelude.Tests.{ltb, ◌==◌, if◌then◌else◌}

-- A code point before the UTF-16 code units that follow it: itself, or the two of a surrogate pair.
abbrev pub units_of : ℕ → List ℕ → List ℕ
units_of c units =
    if ltb c 65_536
    then c ∷ units
    else (55_296 + (c - 65_536) / 1_024) ∷ (56_320 + (c - 65_536) % 1_024) ∷ units

-- The code units of a text.
abbrev pub codes : String → List ℕ
codes String.[] = []
codes (String.◌∷◌ c s) = units_of (code c) (codes s)

-- The lexical order of two sequences of code units.
abbrev pub codes_ltb : List ℕ → List ℕ → Bool
codes_ltb xs [] = false
codes_ltb [] (y ∷ ys) = true
codes_ltb (x ∷ xs) (y ∷ ys) = ltb x y || (x == y && codes_ltb xs ys)

-- `a < b` on texts.
unfoldable pub text_ltb : String → String → Bool
text_ltb a b = codes_ltb (codes a) (codes b)

codes_ltb_irrefl : (xs : List ℕ) → codes_ltb xs xs ≡ false
codes_ltb_irrefl [] = refl
codes_ltb_irrefl (x ∷ xs) = ground (arith, codes_ltb_irrefl xs)

codes_ltb_trans :
    (xs ys zs : List ℕ)
    → codes_ltb ys xs ≡ false
    → codes_ltb zs ys ≡ false
    → codes_ltb zs xs ≡ false
codes_ltb_trans [] ys zs p q = refl
codes_ltb_trans (x ∷ xs) [] zs p q = cc
codes_ltb_trans (x ∷ xs) (y ∷ ys) [] p q = cc
codes_ltb_trans (x ∷ xs) (y ∷ ys) (z ∷ zs) p q = ground (arith, codes_ltb_trans xs ys zs)

codes_ltb_asymm : (xs ys : List ℕ) → codes_ltb xs ys ≡ true → codes_ltb ys xs ≡ false
codes_ltb_asymm [] [] h = cc
codes_ltb_asymm [] (y ∷ ys) h = refl
codes_ltb_asymm (x ∷ xs) [] h = cc
codes_ltb_asymm (x ∷ xs) (y ∷ ys) h = ground (arith, codes_ltb_asymm xs ys)

pub text_ltb_irrefl : (a : String) → text_ltb a a ≡ false
unfolding text_ltb
text_ltb_irrefl a = codes_ltb_irrefl (codes a)

-- "Not later than" is transitive.
pub text_ltb_trans :
    (a b c : String) → text_ltb b a ≡ false → text_ltb c b ≡ false → text_ltb c a ≡ false
unfolding text_ltb
text_ltb_trans a b c = codes_ltb_trans (codes a) (codes b) (codes c)

pub text_ltb_asymm : (a b : String) → text_ltb a b ≡ true → text_ltb b a ≡ false
unfolding text_ltb
text_ltb_asymm a b = codes_ltb_asymm (codes a) (codes b)

pub text_ltb_total : (a b : String) → (text_ltb b a ≡ false) ⊎ (text_ltb a b ≡ false)
text_ltb_total a b = ground (arith, text_ltb_asymm a b)

pub str_eq_refl : (a : String) → str_eq a a ≡ true
str_eq_refl a = (eq_iff a a).1 refl

-- `o === s` for an optional text.
abbrev pub opt_eq : Option String → String → Bool
opt_eq none s = false
opt_eq (some a) s = str_eq a s

-- A text that is there and not empty: the truth value of an optional text.
abbrev pub truthy : Option String → Bool
truthy none = false
truthy (some s) = if str_eq s "" then false else true

-- `a.startsWith(b)` and `a.includes(b)`, on code units.
abbrev pub codes_start : List ℕ → List ℕ → Bool
codes_start s [] = true
codes_start [] (c ∷ p) = false
codes_start (d ∷ s) (c ∷ p) = d == c && codes_start s p

abbrev pub codes_include : List ℕ → List ℕ → Bool
codes_include [] p = codes_start [] p
codes_include (d ∷ s) p = codes_start (d ∷ s) p || codes_include s p

abbrev pub starts_with : String → String → Bool
starts_with a b = codes_start (codes a) (codes b)

abbrev pub includes : String → String → Bool
includes a b = codes_include (codes a) (codes b)
