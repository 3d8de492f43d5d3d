-- ===== src/Amounts/Clean.antt =====
-- web/src/lib/money.ts: texts that `decimalToMinor` takes as they are.
use wealthboard.Base.{
  ℕ, [], ◌∷◌, Bool, true, false, not, ◌||◌, ◌==◌, every, keep, Text, is_digit, ◌≡◌, refl, arith,
  ◌<◌, ◌≤◌, ◌-◌, zero, suc, pad_start, take, length, replicate, length-append, length-replicate,
}
use wealthboard.Adapter.Entries.{is_empty}
use wealthboard.Adapter.Accounts.{trim_start, trim_end, trim}
use wealthboard.Amounts.{clean, replace_minus, is_separator}

-- A digit, a sign or a dot.
abbrev pub is_plain : ℕ → Bool
is_plain c = is_digit c || c == 45 || c == 46

trim_start-plain : (s : Text) → every is_plain s ≡ true → trim_start s ≡ s
unfolding trim_start
trim_start-plain [] h = refl
trim_start-plain (c ∷ s) h = ground arith

trim_end-plain : (s : Text) → every is_plain s ≡ true → trim_end s ≡ s
unfolding trim_end
trim_end-plain [] h = refl
trim_end-plain (c ∷ s) h = let ih = trim_end-plain s (ground arith) in ground arith

keep-plain : (s : Text) → every is_plain s ≡ true → keep (λ c. not (is_separator c)) s ≡ s
keep-plain [] h = refl
keep-plain (c ∷ s) h = let ih = keep-plain s (ground arith) in ground arith

replace_minus-plain : (s : Text) → every is_plain s ≡ true → replace_minus s ≡ s
unfolding replace_minus
replace_minus-plain [] h = refl
replace_minus-plain (c ∷ s) h = let ih = replace_minus-plain s (ground arith) in ground arith

pub trim-plain : (s : Text) → every is_plain s ≡ true → trim s ≡ s
trim-plain s h = rw (trim_start-plain s h) (trim_end-plain s h)

pub clean-plain : (s : Text) → every is_plain s ≡ true → clean s ≡ s
unfolding clean
clean-plain s h =
    rw (trim_start-plain s h, trim_end-plain s h, keep-plain s h) (replace_minus-plain s h)

-- Texts that are padded or cut.
pub length-pad_start-le : (w : ℕ) (xs : Text) → w ≤ length (pad_start w xs)
unfolding pad_start
length-pad_start-le w xs =
    rw
      (length-append (replicate (w - length xs) 48) xs, length-replicate {A = ℕ} (w - length xs) 48)
      (omega arith)

pub is_empty-take : (n : ℕ) (s : Text) → 0 < n → n ≤ length s → is_empty (take n s) ≡ false
is_empty-take zero s h l = absurd (omega arith)
is_empty-take (suc n) [] h l = absurd (omega arith)
is_empty-take (suc n) (c ∷ s) h l = refl
