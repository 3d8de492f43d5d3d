-- ===== src/Base/Strings.antt =====
-- Texts as lists of code units, as the program's strings are. Comparison, decimal digits, and the
-- string functions that the program calls on numbers.
use Prim.Native.Nat.{ℕ, zero, suc, ◌+◌, ◌-◌, ◌*◌, ◌/◌, ◌%◌}
use Prim.Native.Char.{code}
use Prim.Native.String.{String}
use mathlib.Core.Path.{◌≡◌, refl}
use mathlib.Core.Bool.{Bool, true, false, ◌&&◌, ◌||◌}
use mathlib.Core.List.{List, [], ◌∷◌, ◌++◌, map}
use native.Mathlib.Omega.{arith}
use wealthboard.Base.Tests.{ltb, leb, ◌==◌, if◌then◌else◌}
use wealthboard.Base.Lists.{length, replicate}

abbrev pub Text : Type 0
Text = List ℕ

-- A literal of the source as a text.
abbrev pub codes : String → Text
codes String.[] = []
codes (String.◌∷◌ c s) = code c ∷ codes s

-- `s === t`
unfoldable pub same : Text → Text → Bool
same [] [] = true
same (c ∷ s) (d ∷ t) = c == d && same s t
same _ _ = false

pub same→eq : (s t : Text) → same s t ≡ true → s ≡ t
unfolding same
same→eq [] [] h = refl
same→eq [] (d ∷ t) h = ground arith
same→eq (c ∷ s) [] h = ground arith
same→eq (c ∷ s) (d ∷ t) h = ground (arith, same→eq s t)

pub same_refl : (s : Text) → same s s ≡ true
unfolding same
same_refl [] = refl
same_refl (c ∷ s) = ground (arith, same_refl s)

abbrev pub is_digit : ℕ → Bool
is_digit c = leb 48 c && leb c 57

abbrev pub all_digits : Text → Bool
all_digits [] = true
all_digits (c ∷ s) = is_digit c && all_digits s

-- The number that a run of digits denotes, read from the left.
unfoldable pub digits_value : ℕ → Text → ℕ
digits_value acc [] = acc
digits_value acc (c ∷ s) = digits_value (acc * 10 + (c - 48)) s

-- `n.toString()`, with the digits gathered in front of `rest`. Each round divides by ten, so a
-- number is enough fuel for itself.
unfoldable pub show_digits : ℕ → ℕ → Text → Text
show_digits zero n rest = rest
show_digits (suc f) n rest =
    let more = show_digits f (n / 10) ((48 + n % 10) ∷ rest) in
    if ltb n 10 then (48 + n) ∷ rest else more

unfoldable pub to_string : ℕ → Text
unfolding show_digits
to_string n = show_digits (suc n) n []

-- `s.padStart(w, '0')`
unfoldable pub pad_start : ℕ → Text → Text
pad_start w s = replicate (w - length s) 48 ++ s

-- `s.toUpperCase()` on ASCII letters; a currency code has no other.
unfoldable pub to_upper : Text → Text
to_upper = map (λ c. if leb 97 c && leb c 122 then c - 32 else c)

-- `new Set(codes).has(s)`
unfoldable pub member : Text → List Text → Bool
unfolding same
member s [] = false
member s (t ∷ ts) = same s t || member s ts
