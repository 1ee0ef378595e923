-- ===== src/Ledger/Services.antt =====
-- apps/ledger/services.py, what every document shares: the checks of arguments, numbers, the
-- document rows and their cancellation. The row locks have no effect on one caller's result.
use shiftlush_api.Prelude.{
  ℕ, ◌+◌, Bool, false, not, ◌&&◌, Option, none, some, List, [], ◌∷◌, ◌++◌, String, Text, text,
  is_some, text_eq, zero_padded, find, any, update, ◌==◌, if◌then◌else◌,
}
use shiftlush_api.Errors.{invalid, does_not_exist, conflict, already_reversed}
use shiftlush_api.Action.{
  Action, ⊤, pure, raise, gets, or_raise, raise_if, atomic, modify, ◌>>=◌, ◌>>◌,
}
use shiftlush_api.Ledger.Decimal.{Decimal, check_money}
use shiftlush_api.Ledger.Models.{
  PaymentMethod, MovementSource, DocumentType, DocumentBody, Document, DocumentCounter, Books,
}
use shiftlush_api.Ledger.Posting.{Choice, chosen}
use shiftlush_api.Ledger.Reversal.{reverse_document}

-- `_same_firm` for one record, given by its company.
unfoldable pub same_firm : ℕ → String → ℕ → Action Books ⊤
same_firm company_id field record_company =
    raise_if (not (record_company == company_id)) (does_not_exist field)

unfoldable pub check_amount : Decimal → Action Books ⊤
check_amount amount = check_money (invalid "amount") amount

-- `_check_method`: one of `PaymentMethod.values`.
unfoldable pub check_method : Choice PaymentMethod → Action Books PaymentMethod
check_method (chosen method) = pure method
check_method _ = raise (invalid "method")

abbrev pub collection_prefix : Text
collection_prefix = text "T-"

abbrev pub payment_out_prefix : Text
payment_out_prefix = text "O-"

unfoldable pub counts : ℕ → Text → DocumentCounter → Bool
counts company prefix c = c.company == company && text_eq c.prefix prefix

abbrev pub last_of : Option DocumentCounter → ℕ
last_of none = 0
last_of (some c) = c.last

abbrev pub new_counter : ℕ → Text → DocumentCounter
new_counter company prefix = record { company = company; prefix = prefix; last = 0 }

-- `DocumentCounter.unscoped.create(...)` where the firm has none under the prefix
unfoldable pub with_counter : ℕ → Text → List DocumentCounter → List DocumentCounter
unfolding counts
with_counter company prefix cs =
    if any (counts company prefix) cs then cs else cs ++ (new_counter company prefix ∷ [])

abbrev pub bump : DocumentCounter → DocumentCounter
bump c = record c { last = c.last + 1 }

unfoldable pub next_number : ℕ → Text → Action Books Text
next_number company prefix = atomic (do
  modify (λ s. record s { counters = with_counter company prefix s.counters })
  last ← gets (λ s. last_of (find (counts company prefix) s.counters))
  modify (λ s. record s { counters = update (counts company prefix) bump s.counters })
  pure (prefix ++ zero_padded 6 (last + 1)))

-- A document's row goes in under a new key.
unfoldable pub create_document : ℕ → ℕ → ℕ → DocumentBody → Action Books Document
create_document company amount date body = do
  id ← gets (λ s. s.next_id)
  let d : Document = record {
    id = id;
    company = company;
    amount = amount;
    date = date;
    cancelled_at = none;
    is_deleted = false;
    body = body;
  }
  modify (λ s. record s { documents = s.documents ++ (d ∷ []); next_id = id + 1 })
  pure d

abbrev pub type_of_body : DocumentBody → DocumentType
type_of_body (DocumentBody.collection _ _ _ _ _) = DocumentType.collection
type_of_body (DocumentBody.payment_out _ _ _ _ _) = DocumentType.payment_out
type_of_body (DocumentBody.manual_entry _ _ _) = DocumentType.manual_entry
type_of_body (DocumentBody.transfer _ _ _ _ _ _) = DocumentType.transfer
type_of_body (DocumentBody.opening_balance _ _ _) = DocumentType.opening_balance

-- What `post` is told of its document: the type's label and the key.
abbrev pub reference : Document → Option (DocumentType × ℕ)
reference d = some (type_of_body d.body, d.id)

abbrev pub has_id : ℕ → Document → Bool
has_id k d = d.id == k

-- `_lock`: the document's row, refused if it is already cancelled.
unfoldable pub lock : ℕ → Action Books Document
lock k = do
  found ← gets (λ s. find (has_id k) s.documents)
  locked ← or_raise found (does_not_exist "document")
  raise_if (is_some locked.cancelled_at) (conflict already_reversed)
  pure locked

abbrev pub stamp : ℕ → Document → Document
stamp now d = record d { cancelled_at = some now }

unfoldable pub stamp_cancelled : Document → Action Books ⊤
stamp_cancelled locked = do
  today ← gets (λ s. s.today)
  reverse_document (type_of_body locked.body) locked.id today MovementSource.reversal
  now ← gets (λ s. s.now)
  modify (λ s. record s { documents = update (has_id locked.id) (stamp now) s.documents })

unfoldable pub cancel : ℕ → Action Books Document
cancel k =
    atomic
      (do locked ← lock k; stamp_cancelled locked; now ← gets (λ s. s.now); pure (stamp now locked))
