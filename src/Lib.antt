-- ===== src/Lib.antt =====
-- The core services of the shiftlush API, of firms that maintain lifts: the ledger, the life of a
-- fault, contracts, invoice drafts and their daily generation, and what keeps requests, jobs and
-- sign-ins apart. They are modelled from the Python sources under apps/ and core/.
--
-- How a service is modelled. A service call is an `Action S A` (Action): it reads and writes a
-- state `S` that stands for the database and the clock, and returns or raises. What was written
-- before a raise stays in the state, so that `atomic` (`transaction.atomic`) has something to take
-- back. Action/Outcome has the rules for how a call ends, Action/Keeps those for what it keeps,
-- Action/AllOrNothing those for calls that write all or nothing, and Action/Never those for calls
-- that cannot fail. Errors has the exceptions of core/exceptions.py. A table is a list of rows in
-- order of creation; Prelude/Lists has the queries (`select`, `find`, `any`, `update`, `put`,
-- `sum_where`), Prelude/Sorted the ordering by a key, and Prelude/Queries what a write does to a
-- query. Keys are numbers from a fresh `next_id`, days are ordinals (Calendar), times are seconds,
-- amounts of money are cents, and a currency is a number that is only compared. Texts are lists of
-- code points.
--
-- The ledger (apps/ledger). Ledger/Models has the rows of models.py and the database `Books`.
-- Ledger/Decimal is Python's `Decimal` as far as `is_money` asks, with the 28 digits of its context. posting.py is in Ledger/Posting
-- (`post` writes a movement) and Ledger/Reversal (`reverse_document` writes the mirrors of a
-- document's movements); Ledger/Balances is balances.py. services.py is in seven files:
-- Ledger/Services (what the documents share), Ledger/Documents (payments out, manual entries),
-- Ledger/Transfers, Ledger/Openings, Ledger/Parties (accounts and tills), Ledger/Invoices (an
-- invoice's debit and status) and Ledger/Collections (money received and the invoices it pays).
-- Ledger/Calls makes one type of the calls that move money.
--
-- The faults (apps/faults). Fleet has the rows of faults, contracts and lifts and the database
-- `Fleet`. Faults/Reports has the three ways to report a fault, and the merging of public reports,
-- whose rows are in Faults/Rows; Faults/Transitions has the state machine, billing and the office's
-- corrections, Faults/Covering the contract that covers a lift on a day; Faults/Notices says who is
-- told; Faults/Retention blanks reporters' names. Faults/Lifecycle states the moves that a call may
-- make of a row as a step relation, and Faults/Calls/Steps that each call makes one of them.
--
-- Contracts (apps/contracts/services.py) puts lifts under a contract, takes them off and terminates
-- it, over the same `Fleet`. Contracts/Terms is the next term and its number, Contracts/Renewal the
-- renewal and the nightly expiry, Contracts/Calls one type of the calls that write contract lines.
--
-- Dates (core/dates.py, apps/billing/periods.py). Calendar/Months moves a day by whole months, and
-- Calendar/RoundTrip and Calendar/Order relate days to ordinals. Periods is the periods that a
-- contract is billed by, and the days that two ranges share.
--
-- Billing (apps/billing). Billing is the rows of drafts and their lines, Billing/Money the rounding
-- and the division of money.py, Billing/Lines the services that edit a draft and its lines,
-- Billing/Drafts those that issue, pay and cancel it, Billing/Calls one type of them.
-- Billing/Generation is the daily job that makes drafts from contracts and faults, whose lines are
-- in Billing/Fees: `Sources` are what it reads from elsewhere, the tables of contracts and faults,
-- the time zone and the words of a line. Contracts that ended and periods that ended count for 92
-- days, as in the source. Ledger/Statement is the rows of an account's statement
-- (apps/ledger/statement.py).
--
-- Idempotency (core/idempotency.py) is the replay protection of the views that create: the table of
-- keys (Idempotency/Table), `_reserve` with its takeovers, `_complete`, which stores what JSON gives back of an answer's data, `_release`, and the wrapper
-- around a handler, which is a parameter. Its `Step` is what one transaction does to the table, for
-- requests that interleave.
--
-- Scheduling is core/scheduling.py, the daily schedules and the tick that claims and queues the
-- day's runs; the task backend and the time zone are parameters. Lockout is apps/users/lockout.py,
-- the count of failed sign-ins and the lock of a pair of e-mail and address. Its cache is the
-- record `Cache`, whose laws are what Django's documentation says of `add`, `incr`, `set` and
-- `delete`; the lower-casing and the hash are parameters. Routing is apps/maintenance/routing.py,
-- the suggested order of a day's stops: nearest neighbour, improved by reversals. The floats and
-- their functions are the record `Floats` of Routing/Stops, a parameter. An index of a list is
-- always in range there, so that the model answers a missing one with no point.
--
-- Bounds and fuel. `_insert` of apps/faults/services.py makes eight attempts to draw a free
-- reference and raises after them; so does the model, which takes the references from a parameter.
-- The digits of a number are printed with fuel `n + 1`, more than it has digits. The places of a
-- decimal quotient, 28 digits in Python's context, are counted with fuel 60: that is enough for a
-- divisor below 10 ^ 32, where the days of a period have five digits, and a quotient that is zero
-- is zero at any number of places. `_reserve` makes three attempts and raises after them, as the
-- source does. The loop over the periods of a contract has the number of its days and one as fuel;
-- a period is at least 28 days long. The nearest neighbour's loop has the number of the stops that
-- remain as fuel, one of which is taken each time; the improvement makes at most 200 passes, as the
-- source does. Every other loop runs along a list.
--
-- Not modelled: row locks and races between callers, except on the keys of Idempotency and the
-- claims of Scheduling (the branches after an IntegrityError are modelled where a call can meet one
-- by itself); what the columns of the documents refuse (that of a movement is modelled); audit columns, tenant scoping of the managers, soft deletion of invoice drafts, the
-- wording of notices; a date that `add_months` would move past the year 9999; the signs, spaces and
-- underscores that Python's int() reads in a contract number; the loop of `run_scheduler` around
-- the tick; the count of the notices that a run makes; a statement as CSV, PDF or mail; users and
-- their sessions, inspections, and visits and their checklists; views, serializers, mail, storage,
-- reports, migrations and demo data.
pub mod Prelude
pub mod Errors
pub mod Action
pub mod Routing
pub mod Scheduling
pub mod Lockout
pub mod Idempotency
pub mod Calendar
pub mod Periods
pub mod Fleet
pub mod Faults
pub mod Contracts
pub mod Ledger
pub mod Billing
