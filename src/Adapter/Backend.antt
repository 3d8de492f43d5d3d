-- ===== src/Adapter/Backend.antt =====
-- `write`, `engineFor` and `worldFor` in adapter.ts: the state of the mock server, which holds the
-- worlds of all users, an engine for each that is used as long as the world's version is the same,
-- and the results of the writes that had a key.
use wealthboard.Base.{
  ℕ, suc, ◌==◌, Bool, Option, none, some, List, [], ◌∷◌, if◌then◌else◌, Text, same, Result, ok, err,
  signed_out, unavailable, find, get_key, set_key,
}
use wealthboard.World.{World, ts_of}
use wealthboard.Engine.Ledgers.{Engine}
use wealthboard.Adapter.Entries.{
  Host, TransactionCreate, create_transaction, TransactionUpdate, update_transaction,
  remove_transaction, ValuationCreate, create_valuation, remove_valuation, TransferCreate,
  create_transfer,
}
use wealthboard.Adapter.Accounts.{
  AccountCreate, create_account, AccountUpdate, update_account, set_account_archived,
  remove_account,
}
use wealthboard.Adapter.Trades.{TradeCreate, create_trade, TradeUpdate, update_trade, remove_trade}
use wealthboard.Adapter.Prices.{
  PriceUpsert, is_price_at, upsert_price, remove_price, RateCreate, create_rate, remove_rate,
}

-- A write of the data source, with the body of the call.
pub data Request : Type 0 where
  account_create : AccountCreate → Request
  account_update : ℕ → AccountUpdate → Request
  account_set_archived : ℕ → Bool → Request
  account_remove : ℕ → Text → Request
  transaction_create : TransactionCreate → Request
  transaction_update : ℕ → TransactionUpdate → Request
  transaction_remove : ℕ → Request
  valuation_create : ValuationCreate → Request
  valuation_remove : ℕ → Request
  transfer_create : TransferCreate → Request
  trade_create : TradeCreate → Request
  trade_update : ℕ → TradeUpdate → Request
  trade_remove : ℕ → Request
  price_upsert : PriceUpsert → Request
  price_remove : ℕ → Request
  rate_create : RateCreate → Request
  rate_remove : ℕ → Request

-- A handler that throws has left the world as it was.
abbrev pub settle : Engine → Result World → World × Result (Unit {0})
settle e (ok w) = (w, ok tt)
settle e (err problem) = (e.world, err problem)

-- The callback that a write hands to `write`: the world it leaves, and how it ends.
unfoldable pub perform : Host → Request → Engine → World × Result (Unit {0})
perform h (account_create body) e = create_account h body e
perform h (account_update id body) e = settle e (update_account id body e)
perform h (account_set_archived id archived) e = settle e (set_account_archived h id archived e)
perform h (account_remove id name) e = settle e (remove_account id name e)
perform h (transaction_create body) e = settle e (create_transaction h body e)
perform h (transaction_update id body) e = settle e (update_transaction id body e)
perform h (transaction_remove id) e = settle e (remove_transaction id e)
perform h (valuation_create body) e = settle e (create_valuation h body e)
perform h (valuation_remove id) e = settle e (remove_valuation id e)
perform h (transfer_create body) e = settle e (create_transfer h body e)
perform h (trade_create body) e = settle e (create_trade h body e)
perform h (trade_update id body) e = settle e (update_trade id body e)
perform h (trade_remove id) e = settle e (remove_trade id e)
perform h (price_upsert body) e = settle e (upsert_price h body e)
perform h (price_remove id) e = settle e (remove_price id e)
perform h (rate_create body) e = settle e (create_rate h body e)
perform h (rate_remove id) e = settle e (remove_rate id e)

-- The id that the price of a day has, or the new one.
unfoldable pub price_id : Host → PriceUpsert → World → ℕ
price_id h body w =
    elim (find (is_price_at body.instrument_id (ts_of body.effective_date)) w.prices) [
      | none ↦ h.random_id 0
      | some p ↦ p.id
    ]

-- What a write that succeeds returns: an id, or nothing.
unfoldable pub reply_of : Host → Request → World → Option ℕ
reply_of h (account_create body) w = some (h.random_id 0)
reply_of h (transaction_create body) w = some (h.random_id 0)
reply_of h (valuation_create body) w = some (h.random_id 0)
reply_of h (transfer_create body) w = some (h.random_id 1)
reply_of h (trade_create body) w = some (h.random_id 0)
reply_of h (trade_update id body) w = some id
reply_of h (price_upsert body) w = some (price_id h body w)
reply_of h (rate_create body) w = some (h.random_id 0)
reply_of h _ w = none

-- An engine, and the version of the world that it was built from.
pub record Cached : Type 0 where
  pub version : ℕ
  pub engine : Engine

pub record Backend : Type 0 where
  pub user : Option ℕ
  pub failing : Bool
  pub worlds : List (ℕ × World)
  pub engines : List (ℕ × Cached)
  pub idempotency : List (Text × Option ℕ)

abbrev pub id_eq : ℕ → ℕ → Bool
id_eq a b = a == b

abbrev pub or_new : Option World → World → World
or_new none w = w
or_new (some w') w = w'

-- `worldFor`, with the fixtures' world of a user who has none yet
unfoldable pub world_for : (ℕ → World) → ℕ → Backend → World
world_for fixture u b = or_new (get_key id_eq u b.worlds) (fixture u)

-- `engineFor`
unfoldable pub engine_for : ℕ → World → Option Cached → Cached
engine_for today w none = record {
  version = w.version;
  engine = record { world = w; today = today };
}
engine_for today w (some c) =
    if c.version == w.version
    then c
    else record { version = w.version; engine = record { world = w; today = today } }

-- `idempotency.get(key)`, for a key that is given and not empty
unfoldable pub recorded : Option Text → Backend → Option (Option ℕ)
recorded none b = none
recorded (some []) b = none
recorded (some (c ∷ k)) b = get_key same (c ∷ k) b.idempotency

-- `if (idempotencyKey) idempotency.set(idempotencyKey, result)`
unfoldable pub record_reply :
    Option Text → Option ℕ → List (Text × Option ℕ) → List (Text × Option ℕ)
record_reply none reply m = m
record_reply (some []) reply m = m
record_reply (some (c ∷ k)) reply m = set_key same (c ∷ k) reply m

-- `w.version++`
abbrev pub bump : World → World
bump w = record w { version = suc w.version }

-- The end of a write: the world as the callback left it, its version counted up and the result
-- recorded if it succeeded.
unfoldable pub finish :
    ℕ
    → Cached
    → Option Text
    → Option ℕ
    → World × Result (Unit {0})
    → Backend
    → Backend × Result (Option ℕ)
finish u c key reply (w, ok done) b = (
  record b {
    worlds = set_key id_eq u (bump w) b.worlds;
    engines = set_key id_eq u c b.engines;
    idempotency = record_reply key reply b.idempotency;
  },
  ok reply,
)
finish u c key reply (w, err problem) b = (
  record b { worlds = set_key id_eq u w b.worlds; engines = set_key id_eq u c b.engines },
  err problem,
)

-- The part of `write` behind its early returns. The callback changes the world that it is handed,
-- which is the one the engine refers to.
unfoldable pub run :
    Host → ℕ → (ℕ → World) → ℕ → Request → Option Text → Backend → Backend × Result (Option ℕ)
run h today fixture u r key b =
    let w = world_for fixture u b in
    let c = engine_for today w (get_key id_eq u b.engines) in
    finish u c key (reply_of h r w) (perform h r (record { world = w; today = c.engine.today })) b

-- `write`
unfoldable pub write :
    Host → ℕ → (ℕ → World) → Request → Option Text → Backend → Backend × Result (Option ℕ)
write h today fixture r key b = elim b.user [
  | none ↦ (b, err signed_out)
  | some u ↦ if b.failing then (b, err unavailable) else elim (recorded key b) [
    | some reply ↦ (b, ok reply)
    | none ↦ run h today fixture u r key b
  ]
]
