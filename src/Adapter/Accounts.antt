-- ===== src/Adapter/Accounts.antt =====
-- The handlers of `accounts` in adapter.ts that write.
use wealthboard.Base.{
  ℕ, ◌==◌, ◌&&◌, ◌||◌, leb, Bool, true, not, Option, none, some, [], ◌∷◌, ◌++◌, map, if◌then◌else◌,
  keep, any, ℤ, pos, ltb_ℤ, Text, codes, same, Result, ok, err, ◌>>=◌, ◌>>◌, throw_if, invalid,
  conflict, ◌+◌,
}
use wealthboard.World.{TrackingMode, balance, AccountRecord, TxnRecord, opening_balance, World}
use wealthboard.Engine.Ledgers.{Engine}
use wealthboard.Adapter.Entries.{
  Host, is_empty, is_some, integer, find_account, push_txn, update_first,
}

-- The white space that `trim` removes.
abbrev pub is_space : ℕ → Bool
is_space c =
    (leb 9 c && leb c 13)
    || (c == 32)
    || (c == 160)
    || (c == 5760)
    || (leb 8192 c && leb c 8202)
    || (c == 8232)
    || (c == 8233)
    || (c == 8239)
    || (c == 8287)
    || (c == 12288)
    || (c == 65279)

unfoldable pub trim_start : Text → Text
trim_start [] = []
trim_start (c ∷ s) = if is_space c then trim_start s else c ∷ s

unfoldable pub trim_end : Text → Text
trim_end [] = []
trim_end (c ∷ s) = let rest = trim_end s in if is_empty rest && is_space c then [] else c ∷ rest

-- `s.trim()`
abbrev pub trim : Text → Text
trim s = trim_end (trim_start s)

-- `s.toLowerCase()` on ASCII letters
unfoldable pub to_lower : Text → Text
to_lower = map (λ c. if leb 65 c && leb c 90 then c + 32 else c)

pub record AccountCreate : Type 0 where
  pub name : Text
  pub description : Option Text
  pub category_id : ℕ
  pub institution_id : Option ℕ
  pub currency : Text
  pub tracking_mode : Option TrackingMode
  pub is_included_in_net_worth : Option Bool
  pub cost_basis_minor : Option Text
  pub account_reference : Option Text
  pub notes : Option Text
  pub opened_at : Option ℕ
  pub opening_value_minor : Text

abbrev pub or_default {ℓ} : {A : Type ℓ} → Option A → A → A
or_default none d = d
or_default (some a) d = a

-- `body.costBasisMinor ? BigInt(body.costBasisMinor) : undefined`
abbrev pub read_cost : Option Text → Result (Option ℤ)
read_cost none = ok none
read_cost (some []) = ok none
read_cost (some (c ∷ s)) = integer (c ∷ s) >>= λ v. ok (some v)

abbrev pub is_name_of : Text → AccountRecord → Bool
is_name_of name a = not (is_some a.archived_at) && same (to_lower a.name) (to_lower name)

abbrev pub new_account : Host → AccountCreate → Text → Option ℤ → ℕ → AccountRecord
new_account h body name cost opened_at = record {
  id = h.random_id 0;
  name = name;
  description = body.description;
  category_id = body.category_id;
  institution_id = body.institution_id;
  currency = body.currency;
  tracking_mode = or_default body.tracking_mode balance;
  is_included_in_net_worth = or_default body.is_included_in_net_worth true;
  cost_basis_minor = cost;
  account_reference = body.account_reference;
  notes = body.notes;
  opened_at = opened_at;
  archived_at = none;
}

abbrev pub opening : Host → ℤ → ℕ → ℕ → TxnRecord
opening h value opened_at seq = record {
  id = h.random_id 1;
  account_id = h.random_id 0;
  kind = opening_balance;
  amount_minor = value;
  date = opened_at;
  seq = seq;
  description = some (codes "Opening balance");
  notes = none;
  external_id = none;
  transfer_group_id = none;
  instrument_id = none;
  created_at = h.now;
}

abbrev pub push_account : AccountRecord → World → World
push_account a w = record w { accounts = w.accounts ++ a ∷ [] }

-- The checks of `accounts.create`, and the account that it adds.
unfoldable pub check_account : Host → AccountCreate → Engine → Result AccountRecord
check_account h body e = do
  let name = trim body.name
  throw_if (is_empty name) invalid
  throw_if (any (is_name_of name) e.world.accounts) conflict
  throw_if (not (any (λ c. c.id == body.category_id) e.world.categories)) invalid
  cost ← read_cost body.cost_basis_minor
  ok (new_account h body name cost (or_default body.opened_at e.today))

-- The opening balance, in the world that has the account.
unfoldable pub open_with : Host → ℕ → ℤ → World → World
open_with h opened_at value w =
    if ltb_ℤ (pos 0) value then push_txn (opening h value opened_at w.seq) w else w

-- What follows the checks: the account is added, and then its opening balance.
unfoldable pub place_account :
    Host → Engine → Result AccountRecord → Result ℤ → World × Result (Unit {0})
place_account h e (err problem) value = (e.world, err problem)
place_account h e (ok a) (err problem) = (push_account a e.world, err problem)
place_account h e (ok a) (ok value) =
    (open_with h a.opened_at value (push_account a e.world), ok tt)

-- `accounts.create`. The opening value is read when the account is there already: a text that
-- `BigInt` refuses throws and leaves the account. So the world comes with the outcome.
unfoldable pub create_account : Host → AccountCreate → Engine → World × Result (Unit {0})
create_account h body e =
    place_account h e (check_account h body e) (integer body.opening_value_minor)

pub record AccountUpdate : Type 0 where
  pub name : Text
  pub description : Option Text
  pub category_id : ℕ
  pub institution_id : Option ℕ
  pub account_reference : Option Text
  pub notes : Option Text
  pub is_included_in_net_worth : Option Bool

abbrev pub edit_account : AccountUpdate → AccountRecord → AccountRecord
edit_account body a = record a {
  name = trim body.name;
  description = body.description;
  category_id = body.category_id;
  institution_id = body.institution_id;
  account_reference = body.account_reference;
  notes = body.notes;
  is_included_in_net_worth = or_default body.is_included_in_net_worth a.is_included_in_net_worth;
}

-- `accounts.update`
unfoldable pub update_account : ℕ → AccountUpdate → Engine → Result World
update_account id body e = do
  a ← find_account e.world id
  ok (record e.world {
    accounts = update_first (λ x. x.id == id) (edit_account body) e.world.accounts;
  })

abbrev pub stamp : Bool → ℕ → AccountRecord → AccountRecord
stamp archived now a = record a { archived_at = if archived then some now else none }

-- `accounts.setArchived`
unfoldable pub set_account_archived : Host → ℕ → Bool → Engine → Result World
set_account_archived h id archived e = do
  a ← find_account e.world id
  ok (record e.world {
    accounts = update_first (λ x. x.id == id) (stamp archived h.now) e.world.accounts;
  })

-- `accounts.remove`: the account goes with everything that is recorded on it.
unfoldable pub remove_account : ℕ → Text → Engine → Result World
remove_account id confirmation_name e = do
  a ← find_account e.world id
  throw_if (not (same confirmation_name a.name)) invalid
  ok (record e.world {
    accounts = keep (λ x. not (x.id == id)) e.world.accounts;
    transactions = keep (λ t. not (t.account_id == id)) e.world.transactions;
    valuations = keep (λ v. not (v.account_id == id)) e.world.valuations;
    position_events = keep (λ p. not (p.account_id == id)) e.world.position_events;
  })
