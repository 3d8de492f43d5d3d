-- ===== src/Lib.antt =====
-- The data sources of the web client: the ledger engine behind the mock one, web/src/api/mock, with
-- the decimal arithmetic that it stands on, and the one that talks to the server, web/src/api/http,
-- with the contract of the API.
--
-- A user's world (world.ts) holds accounts, transactions, valuations, trades of securities, prices,
-- exchange rates and goals. The adapter (adapter.ts) keeps a world for each user, checks what a call
-- asks for and changes the world. The engine (engine.ts) sorts it into one ledger for each account,
-- and derives values, totals, flows, allocations and the projections of goals from it. Amounts are
-- whole minor units of a currency (`bigint`); prices, rates and quantities are decimal texts, which
-- decimal.ts scales by 10^12.
--
-- The other data source (http/httpAdapter.ts) has the same interface (datasource.ts). A call sends one
-- request, through the typed client of openapi-fetch or through `rawFetch`, and reads the reply; the
-- state is the CSRF token, which replies that start a session give and which requests that change
-- something carry. The contract (schema.ts, generated from the OpenAPI document) declares the paths,
-- the operations and the types.
--
-- The files, by the code they are about:
--   Base       shared helpers: Boolean tests, lists, signed integers, texts, results, tables, digits
--   Money      web/src/lib/money.ts: `minorExponent`
--   Amounts    web/src/lib/money.ts: `minorToDecimal` and `decimalToMinor`; Compare (`minorSign`,
--              `compareMinor`) and Format (what is printed); Clean, Readback, RoundTrip,
--              Format/Percent, Format/Printed and Format/Parts hold the theorems (`percentToBps` is
--              with Adapter/Goals, which calls it)
--   Decimal    web/src/api/mock/decimal.ts, every function; Decimal/Rounding is about `divRound`,
--              Decimal/RoundTrip and Decimal/Exact about prints that are read back
--   World      web/src/api/mock/world.ts, and the API types that the engine reads
--   Engine     web/src/api/mock/engine.ts: Ledgers (constructor, `txnEffect`), Lookup (`priceAt`,
--              `rateAt`, `convert`), Values (`quantitiesAt`, `cashAt`, `valueAt`), Totals (`totalsAt`,
--              `allocation`), Flows (`flowsBetween`); Order, Cash, Replay, Quotes, Periods and Worth hold
--              the theorems
--   Goals      engine.ts, the goals; Growth and Required hold the theorems
--   Adapter    web/src/api/mock/adapter.ts: Entries (`transactions`, `valuations`, `transfers`),
--              Accounts, Trades (`positionEvents`), Prices (`prices`, `exchangeRates`), Catalogue
--              (`instruments`, `categories`), Goals, Wills (`estate`, on the state of side.ts), Pages
--              (`checkPage` and the paged reads) and Backend (`write`, `engineFor`, `worldFor`); Found,
--              Transfer, Withdrawal, Undo, Recorded, Paging, Shares, Leaves, Refers, Placement,
--              Integrity, Versions, Gate, Cache and Replays hold the theorems
--   Estate     web/src/features/estate/model.ts: tiers and the view of a plan; Review holds the review
--              and the roles, Complete the theorem
--   Json       the JSON values of requests and replies
--   Contract   web/src/api/schema.ts: Schemas (`components`), Shared (its parameters, headers, bodies and
--              responses), Operations (`operations`), Paths (`paths`), and Fits, which checks a value
--              against a type
--   Http       web/src/api/http/httpAdapter.ts: Problem (with problem.ts), Transport (`unwrap`,
--              `rawFetch`, `getJson`, `sendJson`), Encode (`encodeURIComponent` of
--              the language), Inputs and Calls (datasource.ts), Requests (the request of each call),
--              Readings (what a call makes of a reply, Perform the whole call). Routes holds the
--              requests against the contract, Csrf is about their headers, and under Readings Failing,
--              Tokens, Answers, Suits, Bodies and Resolving are about replies
--   Tests      a small ledger, and the theorems at it
--
-- How the model stands to the code. A method of the class `Engine` is a function of the record Engine,
-- which holds the world and today's date; the memo tables of the class only save work and are left
-- out. A `for` loop is recursion on its list, and a `break` is a branch that returns. What the code
-- throws is an `err` of Result. `Map` is an association list in the order of insertion, and an update
-- keeps the place of its key. A calendar date is the number of its day and a timestamp a number of
-- seconds, so the order of both is that of the code's texts. An id is a number. The case of a letter
-- is that of ASCII.
--
-- Fuel. The search of `requiredMonthly` halves an interval of whole amounts; its fuel is the first
-- length of the interval, and each round makes it shorter. The loop of `scenario` has the 601 rounds
-- that the source gives it.
--
-- Writes. A handler of the adapter is a function from the engine, which holds the world, to the world
-- that it leaves or the problem that it throws; `accounts.create` returns both, since it can throw
-- when it has changed the world already. `perform` takes a request to its handler, and `write` is the
-- state of the mock server before and after. The worlds, the cached engines and the results that were
-- recorded under a key are tables in that state. A world that is changed in place in the code is a new
-- world here, so a cached engine keeps the world that it was built from.
--
-- Requests. A path that is built around an id is a text, and its segments are matched with the
-- templates of the contract, concrete ones first; a path of the typed client is its template with the
-- values of the parameters. The query stands apart from the path. A reply has the fields that are
-- read, with its body as a text and as JSON, if it is JSON. The typed client reads 204 and an empty
-- body as `undefined`, and rejects a body that is not JSON. A CSRF token is a text, as the contract
-- says of the member `csrfToken`. The numbers of JSON values are natural. A call is its request and
-- its way of reading, since no handler sends twice.
--
-- Parameters. `Intl.NumberFormat` is a function from the options that the code passes and a decimal
-- text to a text, and an omitted option has its default filled in. The network of the HTTP data source
-- is a function from a request to a reply, or to nothing when `fetch` rejects; openapi-fetch, which
-- substitutes and encodes the values of a template, is not under this repository and is the target of
-- a request. The ids that `randomId` returns and the clock are the record Host of Adapter/Entries, and
-- the fixtures' world of a new user is an argument of `write`. The calendar that `monthsUntil` and
-- `scenario` take from date-fns is the record Calendar of Goals.
--
-- Not modelled: the numbers of charts (`toChartNumber`), which are floating point; latency, sessions
-- and the remaining writes of the adapter; the reports of the engine, which assemble these values into
-- the shapes of the API; the address that `oidcStartUrl` builds, to which the browser goes; the
-- fixtures, which are demo data; the React interface; the Go server, a program of its own in another
-- language. The handlers of Catalogue, Goals and Wills are not among the requests of `perform` and
-- `write`.
pub mod Base
pub mod Money
pub mod Decimal
pub mod World
pub mod Json
pub mod Contract
pub mod Http
pub mod Engine
pub mod Goals
pub mod Adapter
pub mod Estate
pub mod Amounts
pub mod Tests
