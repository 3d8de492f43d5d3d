-- ===== src/Http/Csrf.antt =====
-- web/src/api/http/httpAdapter.ts: the CSRF token on the requests that change something.
pub mod Ledger
pub mod Plans
pub mod Whole
use Prim.Native.String.{String}
use wealthboard.Base.{
  ℕ, List, [], ◌∷◌, Bool, true, false, Option, none, some, Text, codes, same, same_refl, same→eq,
  ◌≡◌, refl, sym, arith, if◌then◌else◌,
}
use wealthboard.Json.{same_name}
use wealthboard.Http.{Request, is_mutating, set_header, set_if}

-- The value of a header.
unfoldable pub header_of : String → List (String × Text) → Option Text
unfolding same_name
header_of k [] = none
header_of k ((j, v) ∷ hs) = if same_name j k then some v else header_of k hs

pub header_of-set_header :
    (k : String) (v : Text) (hs : List (String × Text)) → header_of k (set_header k v hs) ≡ some v
unfolding header_of set_header
header_of-set_header k v [] = rw (same_refl (codes k)) refl
header_of-set_header k v ((j, w) ∷ hs) =
    let ih = header_of-set_header k v hs in ground (arith, same_refl (codes k))

-- Setting one header leaves another.
header_of-set_other :
    (k j : String) (v : Text) (hs : List (String × Text))
    → same_name j k ≡ false
    → header_of k (set_header j v hs) ≡ header_of k hs
unfolding header_of set_header
header_of-set_other k j v [] h = rw h refl
header_of-set_other k j v ((i, w) ∷ hs) h =
    let ih = header_of-set_other k j v hs h in ground (arith, same→eq (codes i) (codes j))

pub header_of-set_if :
    (k j : String) (v : Text) (hs : List (String × Text))
    → same_name j k ≡ false
    → header_of k (set_if j (some v) hs) ≡ header_of k hs
unfolding set_if
header_of-set_if k j [] hs h = refl
header_of-set_if k j (c ∷ s) hs h = header_of-set_other k j (c ∷ s) hs h

-- A request that changes something carries the token.
abbrev pub Carries : Text → Request → Type 0
Carries t r = is_mutating r.method ≡ true → header_of "X-CSRF-Token" r.headers ≡ some t
