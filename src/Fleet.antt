-- ===== src/Fleet.antt =====
-- The firm's lifts, the contracts that cover them and the faults reported on them: the rows of
-- apps/contracts/models.py and apps/faults/models.py, with the parts of lifts and users that their
-- services read. Keys are numbers, days are ordinals, times are seconds, amounts are cents.
use shiftlush_api.Prelude.{ℕ, Bool, Option, List, Text}

pub data ElevatorStatus : Type 0 where
  active suspended sealed out_of_service uncontracted : ElevatorStatus

-- `customer` is the customer of the lift's building.
pub record Elevator : Type 0 where
  pub id : ℕ
  pub company : ℕ
  pub customer : ℕ
  pub status : ElevatorStatus
  pub is_deleted : Bool

pub data ContractStatus : Type 0 where
  draft active expired terminated renewed : ContractStatus

pub data Scope : Type 0 where
  maintenance_only maintenance_and_repair full_coverage : Scope

pub data PricingType : Type 0 where
  per_elevator flat : PricingType

pub data BillingPeriod : Type 0 where
  monthly quarterly semiannual annual : BillingPeriod

pub record Contract : Type 0 where
  pub id : ℕ
  pub company : ℕ
  pub customer : ℕ
  pub contract_number : Text
  pub status : ContractStatus
  pub scope : Scope
  pub start_date : ℕ
  pub end_date : ℕ
  pub pricing_type : PricingType
  pub monthly_fee : Option ℕ
  pub currency : ℕ
  pub vat_rate : Option ℕ
  pub billing_period : BillingPeriod
  pub auto_renew : Bool
  pub renewal_notice_days : ℕ
  pub previous_contract : Option ℕ
  pub terminated_at : Option ℕ
  pub termination_reason : Text
  pub is_deleted : Bool

pub record ContractElevator : Type 0 where
  pub id : ℕ
  pub company : ℕ
  pub contract : ℕ
  pub elevator : ℕ
  pub unit_price : Option ℕ
  pub added_at : ℕ
  pub removed_at : Option ℕ
  pub is_deleted : Bool

pub data Role : Type 0 where
  owner admin operations technician accountant : Role

-- `customers`: the customers the user is assigned to.
pub record User : Type 0 where
  pub id : ℕ
  pub company : ℕ
  pub role : Role
  pub is_active : Bool
  pub customers : List ℕ

pub data FaultChannel : Type 0 where
  staff public_qr customer_portal : FaultChannel

pub data FaultPriority : Type 0 where
  emergency high normal : FaultPriority

pub data FaultStatus : Type 0 where
  opened assigned on_site resolved closed cancelled : FaultStatus

-- A later public report of the same fault.
pub record AdditionalReport : Type 0 where
  pub reported_at : ℕ
  pub description : Text
  pub someone_trapped : Bool
  pub elevator_stopped : Bool

-- `FaultStatus.OPEN` is `opened`.
pub record Fault : Type 0 where
  pub id : ℕ
  pub company : ℕ
  pub elevator : ℕ
  pub reference : Text
  pub channel : FaultChannel
  pub reported_by : Option ℕ
  pub reported_by_portal_account : Option ℕ
  pub reporter_name : Text
  pub reporter_phone : Text
  pub description : Text
  pub additional_reports : List AdditionalReport
  pub priority : FaultPriority
  pub status : FaultStatus
  pub technician : Option ℕ
  pub reported_at : ℕ
  pub assigned_at : Option ℕ
  pub on_site_at : Option ℕ
  pub resolved_at : Option ℕ
  pub closed_at : Option ℕ
  pub cancelled_at : Option ℕ
  pub cancel_reason : Text
  pub resolution_notes : Text
  pub parts_used : Text
  pub billable : Option Bool
  pub billable_overridden : Bool
  pub stopped_elevator : Bool
  pub is_deleted : Bool

pub data NoticeKind : Type 0 where
  fault_reported fault_emergency fault_assigned fault_resolved : NoticeKind

-- One call of `notify`: what about, and to whom.
pub record Notice : Type 0 where
  pub kind : NoticeKind
  pub fault : ℕ
  pub recipients : List ℕ

-- The database and the clock; `drawn` counts the random references drawn so far.
pub record Fleet : Type 0 where
  pub today : ℕ
  pub now : ℕ
  pub next_id : ℕ
  pub drawn : ℕ
  pub elevators : List Elevator
  pub contracts : List Contract
  pub lines : List ContractElevator
  pub users : List User
  pub faults : List Fault
  pub notices : List Notice
