-- ===== src/Fdb.antt =====
-- The database client, crate `foundationdb`: the values that dcb-layer hands to a transaction, and
-- a transaction as a parameter, seen through the operations that the source calls.
pub mod Laws
pub mod Lookup
use dcb_layer.Common.{ℕ, Bool, false, Option, none, List, ◌∷◌, Result}
use dcb_layer.Common.Bytes.{Bytes}
use dcb_layer.Error.{FdbError}

pub record KeyValue : Type 0 where
  pub key : Bytes
  pub value : Bytes

abbrev pub FdbResult : Type 0 → Type 0
FdbResult A = Result A FdbError

pub data StreamingMode : Type 0 where
  iterator small want_all : StreamingMode

pub record RangeOption : Type 0 where
  pub begin : Bytes
  pub end : Bytes
  pub limit : Option ℕ
  pub mode : StreamingMode
  pub reverse : Bool

-- `RangeOption::from(begin..end)`.
unfoldable pub range_option : Bytes × Bytes → RangeOption
range_option (begin, end) = record {
  begin = begin;
  end = end;
  limit = none;
  mode = iterator;
  reverse = false;
}

-- The write operations of a transaction, buffered until its commit.
pub data Mutation : Type 0 where
  set : Bytes → Bytes → Mutation
  set_versionstamped_key : Bytes → Bytes → Mutation
  set_versionstamped_value : Bytes → Bytes → Mutation

pub data TransactionOption : Type 0 where
  retry_limit : ℕ → TransactionOption
  automatic_idempotency : TransactionOption

-- One attempt of a transaction. A range read is the list of what its stream yields; the `Bool` is
-- `snapshot`. `options` and `watches` are the options that were set and the keys that were watched,
-- `commit` is given these and what was buffered, `get_versionstamp` is what its future resolves to
-- after a commit, and `retries` counts the resets that led here.
pub record Transaction : Type 0 where
  pub retries : ℕ
  pub options : List TransactionOption
  pub watches : List Bytes
  pub set_option : TransactionOption → FdbResult (Unit {0})
  pub get : Bytes → Bool → FdbResult (Option Bytes)
  pub get_ranges_keyvalues : RangeOption → Bool → List (FdbResult KeyValue)
  pub commit : List TransactionOption → List Bytes → List Mutation → FdbResult (Unit {0})
  pub get_versionstamp : FdbResult Bytes

-- The transaction once an option is set, and once a key is watched.
abbrev pub with_option : TransactionOption → Transaction → Transaction
with_option option tr = record tr { options = option ∷ tr.options }

abbrev pub with_watch : Bytes → Transaction → Transaction
with_watch key tr = record tr { watches = key ∷ tr.watches }

-- The commit of the buffered writes, under the options and with the watches of the transaction.
abbrev pub commit_writes : Transaction → List Mutation → FdbResult (Unit {0})
commit_writes tr writes = tr.commit tr.options tr.watches writes

-- `on_error` backs off and gives the transaction to go on with, or gives up: of a transaction, and
-- of the error of its commit.
pub record Database : Type 0 where
  pub create_trx : FdbResult Transaction
  pub on_error : Transaction → FdbError → FdbResult Transaction

-- `TransactOption`, as far as the source sets it; the rest is its default.
pub record TransactOption : Type 0 where
  pub retry_limit : Option ℕ
