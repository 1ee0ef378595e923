-- ===== src/Ledger/Models.antt =====
-- The rows of apps/ledger/models.py, with the parts of companies and invoice drafts that the
-- ledger reads, and the database that holds them. A key is a number; dates are ordinals
-- (`date.toordinal`), times are seconds, amounts are cents. Rows keep their order of creation.
use shiftlush_api.Prelude.{ℕ, Bool, Text, Option, List}

pub data AccountKind : Type 0 where
  customer supplier staff : AccountKind

pub data CashKind : Type 0 where
  cash bank card : CashKind

pub data MovementSource : Type 0 where
  invoice invoice_cancel collection payment_out manual transfer opening reversal : MovementSource

pub data Direction : Type 0 where
  debit credit : Direction

pub data CashDirection : Type 0 where
  cash_in cash_out : CashDirection

pub data PaymentMethod : Type 0 where
  cash transfer card : PaymentMethod

pub data TransferKind : Type 0 where
  account cash : TransferKind

pub data CashAccountRole : Type 0 where
  default carried_over : CashAccountRole

pub data InvoiceStatus : Type 0 where
  draft issued paid cancelled : InvoiceStatus

pub record Company : Type 0 where
  pub id : ℕ
  pub ledger_closed_through : Option ℕ

pub record Account : Type 0 where
  pub id : ℕ
  pub company : ℕ
  pub kind : AccountKind
  pub customer : Option ℕ
  pub supplier : Option ℕ
  pub user : Option ℕ
  pub name : Text
  pub currency : ℕ
  pub is_active : Bool
  pub is_deleted : Bool

-- The parties, as far as the ledger reads them.
pub record Customer : Type 0 where
  pub id : ℕ
  pub company : ℕ
  pub legal_name : Text

pub record Supplier : Type 0 where
  pub id : ℕ
  pub company : ℕ
  pub name : Text

pub record User : Type 0 where
  pub id : ℕ
  pub company : ℕ
  pub full_name : Text
  pub email : Text

pub record CashAccount : Type 0 where
  pub id : ℕ
  pub company : ℕ
  pub kind : CashKind
  pub name : Text
  pub role : Option CashAccountRole
  pub currency : ℕ
  pub is_active : Bool
  pub is_deleted : Bool

-- How a movement names its source document: the model's label and the row's key.
pub data DocumentType : Type 0 where
  invoice_draft collection payment_out manual_entry transfer opening_balance : DocumentType

pub record Movement : Type 0 where
  pub id : ℕ
  pub company : ℕ
  pub account : Option ℕ
  pub cash_account : Option ℕ
  pub date : ℕ
  pub direction : Option Direction
  pub cash_direction : Option CashDirection
  pub amount : ℕ
  pub currency : ℕ
  pub source : MovementSource
  pub document_type : Option DocumentType
  pub document_id : Option ℕ
  pub reverses : Option ℕ
  pub description : Text

-- A collection, payment out, manual entry, transfer or opening balance: what the five tables
-- share, with the columns of each in its body.
pub data DocumentBody : Type 0 where
  -- number, account, cash account, method, note
  collection payment_out : Text → ℕ → ℕ → PaymentMethod → Text → DocumentBody
  -- account, direction, reason
  manual_entry : ℕ → Direction → Text → DocumentBody
  -- kind, from_account, to_account, from_cash, to_cash, note
  transfer : TransferKind → Option ℕ → Option ℕ → Option ℕ → Option ℕ → Text → DocumentBody
  -- account, cash account, direction
  opening_balance : Option ℕ → Option ℕ → Direction → DocumentBody

pub record Document : Type 0 where
  pub id : ℕ
  pub company : ℕ
  pub amount : ℕ
  pub date : ℕ
  pub cancelled_at : Option ℕ
  pub is_deleted : Bool
  pub body : DocumentBody

pub record CollectionApplication : Type 0 where
  pub id : ℕ
  pub company : ℕ
  pub collection : ℕ
  pub invoice : ℕ
  pub amount : ℕ
  pub is_deleted : Bool

pub record DocumentCounter : Type 0 where
  pub company : ℕ
  pub prefix : Text
  pub last : ℕ

-- apps/billing/models.py
pub record InvoiceDraft : Type 0 where
  pub id : ℕ
  pub company : ℕ
  pub contract : ℕ
  pub customer : ℕ
  pub period_start : ℕ
  pub period_end : ℕ
  pub status : InvoiceStatus
  pub currency : ℕ
  pub vat_rate : ℕ
  pub subtotal : ℕ
  pub vat_amount : ℕ
  pub total : ℕ
  pub invoice_number : Text
  pub invoice_date : Option ℕ
  pub paid_on : Option ℕ
  pub cancelled_at : Option ℕ
  pub cancel_reason : Text
  pub notes : Text

pub data InvoiceLineKind : Type 0 where
  contract_fee elevator_fee fault manual : InvoiceLineKind

-- A quantity is in ten-thousandths. The exact fraction of a prorated line is
-- `months * covered_days / period_days`, all three set or none.
pub record InvoiceLine : Type 0 where
  pub id : ℕ
  pub company : ℕ
  pub draft : ℕ
  pub kind : InvoiceLineKind
  pub description : Text
  pub elevator : Option ℕ
  pub fault : Option ℕ
  pub fault_released : Bool
  pub quantity : ℕ
  pub months : Option ℕ
  pub covered_days : Option ℕ
  pub period_days : Option ℕ
  pub unit_price : Option ℕ
  pub amount : ℕ
  pub needs_price : Bool
  pub position : ℕ
  pub is_deleted : Bool

-- The database, with the clock: `today` is `local_today()`, `now` is `timezone.now()`, and
-- `next_id` is a key that no row has.
pub record Books : Type 0 where
  pub today : ℕ
  pub now : ℕ
  pub next_id : ℕ
  pub companies : List Company
  pub customers : List Customer
  pub suppliers : List Supplier
  pub users : List User
  pub accounts : List Account
  pub cash_accounts : List CashAccount
  pub movements : List Movement
  pub documents : List Document
  pub applications : List CollectionApplication
  pub counters : List DocumentCounter
  pub drafts : List InvoiceDraft
  pub lines : List InvoiceLine
