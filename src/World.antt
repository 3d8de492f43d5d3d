-- ===== src/World.antt =====
-- web/src/api/mock/world.ts: the records of a user's ledger, and the parts of the API types that
-- the engine reads. An id is only compared, so it is a number; a text is its code units. A calendar
-- date YYYY-MM-DD is the number of its day, whose order is that of the texts, and a timestamp is a
-- number of seconds, so that the date of a timestamp is a division. `null` and a missing field are
-- `none`.
use wealthboard.Base.{ℕ, ◌*◌, ◌/◌, Bool, Option, List, Text, ℤ}

pub data TransactionType : Type 0 where
  opening_balance deposit withdrawal interest dividend capital_gain capital_loss : TransactionType
  fee purchase sale manual_adjustment liability_payment liability_increase transfer :
      TransactionType

pub data EventType : Type 0 where
  opening_position buy sell quantity_adjustment : EventType

pub data TrackingMode : Type 0 where
  balance positions : TrackingMode

pub data Side : Type 0 where
  asset liability : Side

pub data AssetType : Type 0 where
  stock etf fund : AssetType

pub data GoalStatus : Type 0 where
  active paused completed cancelled : GoalStatus

pub data Frequency : Type 0 where
  weekly monthly quarterly annually custom : Frequency

-- A balance-affecting entry of an account.
pub record TxnRecord : Type 0 where
  pub id : ℕ
  pub account_id : ℕ
  pub kind : TransactionType
  pub amount_minor : ℤ
  pub date : ℕ
  pub seq : ℕ
  pub description : Option Text
  pub notes : Option Text
  pub external_id : Option Text
  pub transfer_group_id : Option ℕ
  pub instrument_id : Option ℕ
  pub created_at : ℕ

pub record ValuationRecord : Type 0 where
  pub id : ℕ
  pub account_id : ℕ
  pub value_minor : ℤ
  pub date : ℕ
  pub seq : ℕ
  pub notes : Option Text
  pub created_at : ℕ

pub record PositionEventRecord : Type 0 where
  pub id : ℕ
  pub account_id : ℕ
  pub instrument_id : ℕ
  pub kind : EventType
  pub quantity : Text
  pub unit_price : Text
  pub trade_currency : Text
  pub fee_minor : ℤ
  pub cash_effect_minor : ℤ
  pub date : ℕ
  pub seq : ℕ
  pub description : Option Text
  pub notes : Option Text
  pub created_at : ℕ

pub record AccountRecord : Type 0 where
  pub id : ℕ
  pub name : Text
  pub description : Option Text
  pub category_id : ℕ
  pub institution_id : Option ℕ
  pub currency : Text
  pub tracking_mode : TrackingMode
  pub is_included_in_net_worth : Bool
  pub cost_basis_minor : Option ℤ
  pub account_reference : Option Text
  pub notes : Option Text
  pub opened_at : ℕ
  pub archived_at : Option ℕ

pub record GoalRecord : Type 0 where
  pub id : ℕ
  pub name : Text
  pub description : Option Text
  pub target_minor : ℤ
  pub manual_current_minor : ℤ
  pub currency : Text
  pub target_date : ℕ
  pub linked_account_id : Option ℕ
  pub icon : Text
  pub status : GoalStatus
  pub priority : ℕ
  pub assumed_annual_return_bps : ℤ
  pub planned_contribution_minor : ℤ
  pub frequency : Frequency
  pub plan_start_date : ℕ
  pub plan_end_date : Option ℕ

pub record MilestoneRecord : Type 0 where
  pub id : ℕ
  pub goal_id : ℕ
  pub name : Text
  pub target_minor : ℤ
  pub target_date : Option ℕ

pub record Category : Type 0 where
  pub id : ℕ
  pub name : Text
  pub display_order : ℕ
  pub asset_or_liability : Side
  pub is_liquid : Bool
  pub is_investible : Bool
  pub is_archived : Bool

pub record Instrument : Type 0 where
  pub id : ℕ
  pub name : Text
  pub symbol : Option Text
  pub asset_type : AssetType
  pub quote_currency : Text
  pub archived_at : Option ℕ

pub record SecurityPrice : Type 0 where
  pub id : ℕ
  pub instrument_id : ℕ
  pub price : Text
  pub currency : Text
  pub effective_date : ℕ
  pub source : Text

pub record ExchangeRate : Type 0 where
  pub id : ℕ
  pub base_currency : Text
  pub quote_currency : Text
  pub rate : Text
  pub effective_date : ℕ

pub record UserSettings : Type 0 where
  pub base_currency : Text
  pub supported_currencies : List Text
  pub position_stale_days_stock : ℕ
  pub position_stale_days_etf : ℕ
  pub position_stale_days_fund : ℕ

pub record World : Type 0 where
  pub settings : UserSettings
  pub categories : List Category
  pub instruments : List Instrument
  pub prices : List SecurityPrice
  pub rates : List ExchangeRate
  pub accounts : List AccountRecord
  pub transactions : List TxnRecord
  pub valuations : List ValuationRecord
  pub position_events : List PositionEventRecord
  pub goals : List GoalRecord
  pub milestones : List MilestoneRecord
  pub dismissed_alerts : List (ℕ × ℕ)
  pub version : ℕ
  pub seq : ℕ

-- `dateOf` and `tsOf`
abbrev pub date_of : ℕ → ℕ
date_of t = t / 86400

abbrev pub ts_of : ℕ → ℕ
ts_of d = d * 86400
