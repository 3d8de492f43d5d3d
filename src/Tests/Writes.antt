-- ===== src/Tests/Writes.antt =====
-- The theorems on the writes of the adapter, at small worlds.
use wealthboard.Base.{
  ℕ, ◌+◌, ◌≡◌, refl, inr, true, false, some, none, List, [], ◌∷◌, ◌∷◌, ℤ, pos, neg, ◌+ℤ◌, ◌≤ℤ◌,
  ◌<ℤ◌, same, codes, ok, get_key, set_key, digits_value,
}
use wealthboard.Decimal.{big_int}
use wealthboard.World.{World, withdrawal}
use wealthboard.Engine.Ledgers.{Engine, txns, events, txn_effect}
use wealthboard.Engine.Values.{cash_at, sum_until}
use wealthboard.Adapter.Entries.{
  Host, TransferCreate, create_transfer, TransactionCreate, create_transaction, new_transaction,
  push_txn, side, find_account, positive_minor, read_amount, integer, arrives, remove_transaction,
}
use wealthboard.Adapter.Prices.{RateCreate, create_rate, remove_rate}
use wealthboard.Adapter.Found.{next}
use wealthboard.Adapter.Transfer.{moved, create_transfer-cash_at, create_transfer_conserves}
use wealthboard.Adapter.Withdrawal.{create_transaction_covered}
use wealthboard.Adapter.Undo.{remove_transaction-create_transfer}
use wealthboard.Adapter.Recorded.{create_rate-Distinct, DistinctRates}
use wealthboard.Adapter.Leaves.{Leaves}
use wealthboard.Adapter.Refers.{Refers}
use wealthboard.Adapter.Integrity.{perform-Refers}
use wealthboard.Adapter.Backend.{
  rate_create, rate_remove, account_remove, Cached, Backend, world_for, engine_for, write, run,
  finish, perform, reply_of, record_reply, recorded, bump,
}
use wealthboard.Adapter.Cache.{Coherent, engine_for-current, write-Coherent}
use wealthboard.Adapter.Replays.{Submission, after_writes, write_replays}
use wealthboard.Adapter.Pages.{page_of}
use wealthboard.Adapter.Catalogue.{remove_instrument}
use wealthboard.Adapter.Paging.{page_of-join, page_of_has_more, Priced, remove_instrument-Priced}
use wealthboard.Adapter.Entries.{is_empty}
use wealthboard.Base.{not, ◌++◌, List}
use wealthboard.Tests.{share, engine, ledger, savings, broker}

abbrev host : Host
host = record { random_id = λ n. 100 + n; now = 5000 }

abbrev two : Engine
two = record {
  world = record ledger {
    accounts = savings ∷ record savings { id = 2 } ∷ [];
    position_events = [];
  };
  today = 20;
}

abbrev moving : TransferCreate
moving = record {
  from_account_id = 1;
  to_account_id = 2;
  source_amount_minor = codes "250";
  destination_amount_minor = none;
  transaction_date = 15;
  description = some (codes "rent");
}

abbrev after : World
after =
    push_txn (side 102 100 2 (pos 250) 15 21 (codes "rent") 5000)
      (push_txn (side 101 100 1 (neg (pos 250)) 15 20 (codes "rent") 5000) two.world)

transferred : create_transfer host moving two ≡ ok after
unfolding create_transfer find_account positive_minor integer big_int arrives same digits_value
transferred = refl

create_transfer-cash_at_example :
    (source : ℤ) × (dest : ℤ) × (positive_minor (codes "250") ≡ ok source)
    × (pos 0 <ℤ source)
    × (pos 0 <ℤ dest)
    × (cash_at (next two after) 1 16
        ≡ cash_at two 1 16 +ℤ moved 1 15 (neg source) 1 16 +ℤ moved 2 15 dest 1 16)
create_transfer-cash_at_example = create_transfer-cash_at host moving two after 1 16 transferred

from_found : find_account two.world 1 ≡ ok savings
unfolding find_account
from_found = refl

to_found : find_account two.world 2 ≡ ok (record savings { id = 2 })
unfolding find_account
to_found = refl

one_currency : same (codes "KES") (codes "KES") ≡ true
unfolding same
one_currency = refl

create_transfer_conserves_example :
    cash_at (next two after) 1 16 +ℤ cash_at (next two after) 2 16
    ≡ cash_at two 1 16 +ℤ cash_at two 2 16
create_transfer_conserves_example =
    create_transfer_conserves host moving two after savings (record savings { id = 2 }) 16
      from_found to_found one_currency refl transferred

remove_transaction-create_transfer_example :
    (w' : World) × (remove_transaction 101 (next two after) ≡ ok w')
    × (w'.transactions ≡ two.world.transactions)
remove_transaction-create_transfer_example =
    remove_transaction-create_transfer host moving two after ((refl, refl), ((refl, refl), tt))
      transferred

abbrev taking : TransactionCreate
taking = record {
  account_id = 2;
  kind = withdrawal;
  amount_minor = codes "1000";
  transaction_date = 15;
  description = none;
  notes = none;
  external_id = none;
}

broker_found : find_account ledger 2 ≡ ok broker
unfolding find_account
broker_found = refl

taken :
    create_transaction host taking engine
    ≡ ok (push_txn (new_transaction host ledger broker (pos 1000) taking) ledger)
unfolding create_transaction find_account read_amount positive_minor integer big_int digits_value
    cash_at sum_until txns events txn_effect ◌+ℤ◌
taken = refl

create_transaction_covered_example :
    pos 0
    ≤ℤ cash_at
        (next engine (push_txn (new_transaction host ledger broker (pos 1000) taking) ledger))
        2
        15
create_transaction_covered_example =
    create_transaction_covered host taking engine
      (push_txn (new_transaction host ledger broker (pos 1000) taking) ledger) broker broker_found
      refl refl taken

placed : Refers ledger
placed = ((refl, (refl, tt)), (refl, tt), (refl, tt))

perform-Refers_example : Refers (perform host (account_remove 1 (codes "Savings")) engine).0
perform-Refers_example = perform-Refers host (account_remove 1 (codes "Savings")) engine placed

abbrev backend : Backend
backend = record {
  user = some 1;
  failing = false;
  worlds = (1, ledger) ∷ [];
  engines = [];
  idempotency = [];
}

coherent : (u : ℕ) → Coherent u backend
unfolding get_key
coherent u = tt

write-Coherent_example : Coherent 1 (write host 20 (λ u. ledger) (rate_remove 1) none backend).0
write-Coherent_example =
    write-Coherent host 20 (λ u. ledger) (rate_remove 1) none backend 1 refl coherent

abbrev kept : Cached
kept = record { version = 0; engine = engine }

engine_for-current_example :
    ((engine_for 20 ledger (some kept)).version ≡ ledger.version)
    × ((engine_for 20 ledger (some kept)).engine.world ≡ ledger)
engine_for-current_example = engine_for-current 20 ledger (some kept) (inr (refl, refl))

abbrev written : Backend
written = record backend {
  worlds = (1, bump (record ledger { rates = [] })) ∷ [];
  engines = (1, kept) ∷ [];
  idempotency = (codes "k", none) ∷ [];
}

first_write :
    write host 20 (λ u. ledger) (rate_remove 1) (some (codes "k")) backend ≡ (written, ok none)
unfolding write run finish world_for engine_for recorded record_reply perform reply_of remove_rate
    get_key set_key
first_write = refl

abbrev euro_rate : RateCreate
euro_rate = record {
  base_currency = codes "EUR";
  quote_currency = codes "KES";
  rate = codes "150";
  effective_date = 12;
}

-- What the user does between the two: the rate is recorded again, and the retry leaves it.
abbrev between : List Submission
between =
    record { host = host; today = 25; request = rate_create euro_rate; key = some (codes "j") } ∷ []

write_replays_example :
    write host 30
      (λ u. ledger)
      (rate_remove 1)
      (some (codes "k"))
      (after_writes (λ u. ledger) between written)
    ≡ (after_writes (λ u. ledger) between written, ok none)
write_replays_example =
    write_replays host host 20 30 (λ u. ledger) (rate_remove 1) 107 [] backend written none between
      first_write

create_rate-Distinct_example : Leaves DistinctRates (create_rate host euro_rate engine)
create_rate-Distinct_example = create_rate-Distinct host euro_rate engine (tt, tt)

abbrev letters : List ℕ
letters = 1 ∷ 2 ∷ 3 ∷ 4 ∷ 5 ∷ []

page_of-join_example :
    (page_of 2 1 letters).items ++ (page_of 1 3 letters).items ≡ (page_of 3 1 letters).items
page_of-join_example = page_of-join 2 1 1 letters

page_of_has_more_example :
    (page_of 2 1 letters).has_more ≡ not (is_empty (page_of 1 3 letters).items)
page_of_has_more_example = page_of_has_more 2 0 1 letters

abbrev with_spare : Engine
with_spare = record {
  world = record ledger { instruments = share ∷ record share { id = 8 } ∷ [] };
  today = 20;
}

remove_instrument-Priced_example : Leaves Priced (remove_instrument 8 with_spare)
remove_instrument-Priced_example = remove_instrument-Priced 8 with_spare ((refl, tt), (refl, tt))
