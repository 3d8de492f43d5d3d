-- ===== src/Engine/Values.antt =====
-- Account values: quantities and cash of a position-tracked account, the replay of a value-tracked
-- one, and the value in the base currency.
use wealthboard.Base.{
  ℕ, Bool, true, false, not, Option, none, some, List, [], ◌∷◌, ◌++◌, ltb, ◌==◌, if◌then◌else◌,
  keep, ℤ, pos, neg, ◌+ℤ◌, is_zero, Text, same, Result, ok, err, type_error, ◌>>=◌, for_each,
  get_key, set_key,
}
use wealthboard.Decimal.{to_scaled, from_scaled, mul_to_minor}
use wealthboard.World.{
  AccountRecord, balance, positions, TxnRecord, ValuationRecord, PositionEventRecord, EventType,
  sell, Instrument, SecurityPrice,
}
use wealthboard.Engine.Ledgers.{Engine, key_before, txns, valuations, events, txn_effect}
use wealthboard.Engine.Lookup.{base, account, instrument, price_at, convert}

-- `[...new Set(values)]`: the first of equal values stays.
abbrev pub without : Text → List Text → List Text
without x [] = []
without x (y ∷ ys) = if same x y then without x ys else y ∷ without x ys

unfoldable pub unique : List Text → List Text
unique [] = []
unique (x ∷ xs) = x ∷ without x (unique xs)

abbrev pub or_zero : Option ℤ → ℤ
or_zero none = pos 0
or_zero (some v) = v

abbrev pub event_delta : EventType → ℤ → ℤ
event_delta sell q = neg q
event_delta _ q = q

-- The loop of `quantitiesAt` over the trades in order.
unfoldable pub add_quantities : ℕ → List (ℕ × ℤ) → List PositionEventRecord → Result (List (ℕ × ℤ))
add_quantities date q [] = ok q
add_quantities date q (p ∷ ps) =
    let next = λ (qty : ℤ).
      set_key ◌==◌ p.instrument_id
        (or_zero (get_key ◌==◌ p.instrument_id q) +ℤ event_delta p.kind qty) q in
    let rest = to_scaled p.quantity >>= λ qty. add_quantities date (next qty) ps in
    if ltb date p.date then ok q else rest

-- `quantitiesAt`: instruments that net to zero are dropped.
unfoldable pub quantities_at : Engine → ℕ → ℕ → Result (List (ℕ × ℤ))
quantities_at e account_id date =
    add_quantities date [] (events e account_id) >>= λ q. ok (keep (λ (k, v). not (is_zero v)) q)

-- `for (const x of xs) { if (late(x)) break; acc += f(x) }`
unfoldable pub sum_until {ℓ} : {A : Type ℓ} → (A → Bool) → (A → ℤ) → ℤ → List A → ℤ
sum_until late f acc [] = acc
sum_until late f acc (x ∷ xs) = if late x then acc else sum_until late f (acc +ℤ f x) xs

abbrev pub effect : TxnRecord → ℤ
effect t = txn_effect t.kind t.amount_minor

abbrev pub cash_effect : PositionEventRecord → ℤ
cash_effect p = p.cash_effect_minor

-- `cashAt`
unfoldable pub cash_at : Engine → ℕ → ℕ → ℤ
cash_at e account_id date =
    let cash = sum_until (λ t. ltb date t.date) effect (pos 0) (txns e account_id) in
    sum_until (λ p. ltb date p.date) cash_effect cash (events e account_id)

pub record ValueResult : Type 0 where
  pub value : ℤ
  pub complete : Bool
  pub missing_prices : List ℕ
  pub missing_currencies : List Text

-- A holding's value in the quote currency and then in `currency`.
unfoldable pub holding_value :
    Engine → ℕ → Text → ℤ → SecurityPrice → Instrument → Result (Option ℤ)
holding_value e date currency qty p inst = do
  native ← mul_to_minor (from_scaled qty 12) p.price inst.quote_currency
  convert e native inst.quote_currency currency date

abbrev pub add_converted : ValueResult → Text → Option ℤ → ValueResult
add_converted r quote_currency none = record r {
  missing_currencies = r.missing_currencies ++ (quote_currency ∷ []);
}
add_converted r quote_currency (some v) = record r { value = r.value +ℤ v }

-- One round of the loop over the holdings.
unfoldable pub add_holding : Engine → ℕ → Text → ValueResult → ℕ × ℤ → Result ValueResult
add_holding e date currency r (instrument_id, qty) = elim (instrument e instrument_id) [
  | none ↦ ok (record r { missing_prices = r.missing_prices ++ (instrument_id ∷ []) })
  | some inst ↦ elim (price_at e instrument_id date) [
    | none ↦ ok (record r { missing_prices = r.missing_prices ++ (instrument_id ∷ []) })
    | some p ↦
        holding_value e date currency qty p inst >>= λ v. ok (add_converted r inst.quote_currency v)
  ]
]

abbrev pub nothing_missing : List ℕ → List Text → Bool
nothing_missing [] [] = true
nothing_missing _ _ = false

abbrev pub plain_value : ℤ → ValueResult
plain_value v = record { value = v; complete = true; missing_prices = []; missing_currencies = [] }

-- The position-tracked branch of `valueAt`.
unfoldable pub positions_value : Engine → AccountRecord → ℕ → ℕ → Result ValueResult
positions_value e a account_id date = do
  held ← quantities_at e account_id date
  r ← for_each (add_holding e date a.currency) (plain_value (cash_at e account_id date)) held
  ok (record r { complete = nothing_missing r.missing_prices r.missing_currencies })

-- The replay of `valueAt`: the earlier of the next valuation and the next transaction is taken, a
-- transaction on a tie, and a valuation sets the value.
unfoldable pub replay : ℕ → ℤ → List TxnRecord → List ValuationRecord → ℤ
replay date value [] [] = value
replay date value [] (v ∷ vs) = if ltb date v.date then value else replay date v.value_minor [] vs
replay date value (t ∷ ts) [] =
    if ltb date t.date then value else replay date (value +ℤ effect t) ts []
replay date value (t ∷ ts) (v ∷ vs) =
    let set = if ltb date v.date then value else replay date v.value_minor (t ∷ ts) vs in
    let add = if ltb date t.date then value else replay date (value +ℤ effect t) ts (v ∷ vs) in
    if key_before v.date v.seq t.date t.seq then set else add

-- `valueAt`
unfoldable pub value_at : Engine → ℕ → ℕ → Result ValueResult
value_at e account_id date = elim (account e account_id) [
  | none ↦ ok (plain_value (pos 0))
  | some a ↦ elim a.tracking_mode [
    | positions ↦ positions_value e a account_id date
    | balance ↦ ok (plain_value (replay date (pos 0) (txns e account_id) (valuations e account_id)))
  ]
]

pub record BaseValue : Type 0 where
  pub value : Option ℤ
  pub complete : Bool
  pub missing_currencies : List Text

abbrev pub base_value : AccountRecord → ValueResult → Option ℤ → BaseValue
base_value a v none = record {
  value = none;
  complete = false;
  missing_currencies = unique (v.missing_currencies ++ (a.currency ∷ []));
}
base_value a v (some c) = record {
  value = some c;
  complete = v.complete;
  missing_currencies = unique v.missing_currencies;
}

-- `baseValueAt`
unfoldable pub base_value_at : Engine → ℕ → ℕ → Result BaseValue
base_value_at e account_id date = elim (account e account_id) [
  | none ↦ err type_error
  | some a ↦ do
    v ← value_at e account_id date
    converted ← convert e v.value a.currency (base e) date
    ok (base_value a v converted)
]
