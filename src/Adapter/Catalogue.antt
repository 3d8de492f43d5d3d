-- ===== src/Adapter/Catalogue.antt =====
-- The handlers of `instruments` and `categories` in adapter.ts that write.
use wealthboard.Base.{
  ℕ, ◌+◌, ◌==◌, ◌&&◌, ◌||◌, Bool, false, not, Option, none, some, [], ◌∷◌, ◌++◌, if◌then◌else◌,
  keep, any, length, Text, same, Result, ok, ◌>>◌, throw_if, conflict, not_found,
}
use wealthboard.World.{AssetType, Instrument, Category, Side, World}
use wealthboard.Engine.Ledgers.{Engine}
use wealthboard.Adapter.Entries.{Host, update_first, is_some}
use wealthboard.Adapter.Accounts.{or_default, trim, to_lower}

pub record InstrumentBody : Type 0 where
  pub name : Text
  pub symbol : Option Text
  pub asset_type : AssetType
  pub quote_currency : Text

abbrev pub new_instrument : Host → InstrumentBody → Instrument
new_instrument h body = record {
  id = h.random_id 0;
  name = body.name;
  symbol = body.symbol;
  asset_type = body.asset_type;
  quote_currency = body.quote_currency;
  archived_at = none;
}

-- `instruments.create`
unfoldable pub create_instrument : Host → InstrumentBody → Engine → Result World
create_instrument h body e =
    ok (record e.world { instruments = e.world.instruments ++ new_instrument h body ∷ [] })

abbrev pub edit_instrument : InstrumentBody → Instrument → Instrument
edit_instrument body i = record i {
  name = body.name;
  symbol = body.symbol;
  asset_type = body.asset_type;
}

-- `instruments.update`: the quote currency stays.
unfoldable pub update_instrument : ℕ → InstrumentBody → Engine → Result World
update_instrument id body e = do
  throw_if (not (any (λ i. i.id == id) e.world.instruments)) not_found
  ok (record e.world {
    instruments = update_first (λ i. i.id == id) (edit_instrument body) e.world.instruments;
  })

abbrev pub stamp_instrument : Bool → ℕ → Instrument → Instrument
stamp_instrument archived now i = record i { archived_at = if archived then some now else none }

-- `instruments.setArchived`
unfoldable pub set_instrument_archived : Host → ℕ → Bool → Engine → Result World
set_instrument_archived h id archived e = do
  throw_if (not (any (λ i. i.id == id) e.world.instruments)) not_found
  ok (record e.world {
    instruments =
        update_first (λ i. i.id == id) (stamp_instrument archived h.now) e.world.instruments;
  })

-- `instruments.remove`
unfoldable pub remove_instrument : ℕ → Engine → Result World
remove_instrument id e = do
  throw_if (not (any (λ i. i.id == id) e.world.instruments)) not_found
  throw_if
      (any (λ p. p.instrument_id == id) e.world.position_events
        || any (λ p. p.instrument_id == id) e.world.prices)
      conflict
  ok (record e.world { instruments = keep (λ i. not (i.id == id)) e.world.instruments })

pub record CategoryBody : Type 0 where
  pub name : Text
  pub asset_or_liability : Side
  pub is_liquid : Option Bool
  pub is_investible : Option Bool

abbrev pub new_category : Host → CategoryBody → ℕ → Category
new_category h body order = record {
  id = h.random_id 0;
  name = trim body.name;
  display_order = order;
  asset_or_liability = body.asset_or_liability;
  is_liquid = or_default body.is_liquid false;
  is_investible = or_default body.is_investible false;
  is_archived = false;
}

-- `categories.create`
unfoldable pub create_category : Host → CategoryBody → Engine → Result World
create_category h body e = do
  throw_if (any (λ c. same (to_lower c.name) (to_lower (trim body.name))) e.world.categories)
      conflict
  ok (record e.world {
    categories = e.world.categories ++ new_category h body (length e.world.categories + 1) ∷ [];
  })

abbrev pub edit_category : CategoryBody → Category → Category
edit_category body c = record c {
  name = trim body.name;
  asset_or_liability = body.asset_or_liability;
  is_liquid = or_default body.is_liquid false;
  is_investible = or_default body.is_investible false;
}

-- `categories.update`
unfoldable pub update_category : ℕ → CategoryBody → Engine → Result World
update_category id body e = do
  throw_if (not (any (λ c. c.id == id) e.world.categories)) not_found
  ok (record e.world {
    categories = update_first (λ c. c.id == id) (edit_category body) e.world.categories;
  })

abbrev pub set_archived : Bool → Category → Category
set_archived archived c = record c { is_archived = archived }

-- `categories.setArchived`
unfoldable pub set_category_archived : ℕ → Bool → Engine → Result World
set_category_archived id archived e = do
  throw_if (not (any (λ c. c.id == id) e.world.categories)) not_found
  throw_if
      (archived && any (λ a. a.category_id == id && not (is_some a.archived_at)) e.world.accounts)
      conflict
  ok (record e.world {
    categories = update_first (λ c. c.id == id) (set_archived archived) e.world.categories;
  })
