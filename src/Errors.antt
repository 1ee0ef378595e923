-- ===== src/Errors.antt =====
-- The answers a service raises: core/exceptions.py and the codes of core/error_codes.py that the
-- modelled services use. A field error carries the field's name.
use shiftlush_api.Prelude.{ℕ, String}

pub data ErrorCode : Type 0 where
  validation_error not_found : ErrorCode
  end_date_before_start_date termination_reason_required : ErrorCode
  idempotency_key_reused idempotency_key_required idempotency_key_in_flight : ErrorCode
  elevator_already_contracted : ErrorCode
  invoice_transition_not_allowed invoice_lines_need_price duplicate_invoice_number : ErrorCode
  fault_transition_not_allowed : ErrorCode
  currency_mismatch period_closed already_reversed invoice_has_collections : ErrorCode
  overpayment_on_invoice : ErrorCode

-- The exception classes. The first five are DRF's `ValidationError` on one field, with its code:
-- `invalid`, `required`, `does_not_exist`, `unique`, or a rule of `ErrorCode` (`field_error`).
pub data Error : Type 0 where
  invalid required does_not_exist unique : String → Error
  field_error : String → ErrorCode → Error
  -- Django's `IntegrityError`: the database refused a row
  integrity_error : Error
  -- Python's `RuntimeError`: an answer of status 500
  runtime_error : Error
  -- the decimal module's `InvalidOperation`, and Django's `DataError`: a value that a column cannot
  -- hold
  invalid_operation data_error : Error
  business_rule bad_request conflict record_in_use duplicate_record : ErrorCode → Error

-- The HTTP status of the answer.
unfoldable pub status_code : Error → ℕ
status_code (business_rule _) = 422
status_code (conflict _) = 409
status_code (record_in_use _) = 409
status_code (duplicate_record _) = 409
status_code integrity_error = 409
status_code runtime_error = 500
status_code invalid_operation = 500
status_code data_error = 500
status_code _ = 400
