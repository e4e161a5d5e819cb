-- ===== src/Fdb/Laws.antt =====
-- What the database documents of reads: within a transaction they see one sorted set of pairs.
use mathlib.Core.List.{reverse}
use dcb_layer.Common.{
  ℕ, suc, ◌<◌, ◌≡◌, true, All, Bool, ◌&&◌, Option, none, some, List, [], ◌∷◌, map, ok, err, take,
  In, false, if◌then◌else◌,
}
use dcb_layer.Common.Bytes.{Bytes, lt, le, eq}
use dcb_layer.Error.{FdbError}
use dcb_layer.Fdb.{
  KeyValue, RangeOption, Mutation, TransactionOption, retry_limit, automatic_idempotency,
  Transaction, Database, with_option,
}

-- The key lies in `begin..end`.
unfoldable pub in_range : Bytes × Bytes → Bytes → Bool
in_range (begin, end) key = le begin key && lt key end

-- The pairs of a range, in key order.
unfoldable pub slice : Bytes × Bytes → List KeyValue → List KeyValue
slice range [] = []
slice range (kv ∷ kvs) =
    let rest = slice range kvs in if in_range range kv.key then kv ∷ rest else rest

unfoldable pub lookup : Bytes → List KeyValue → Option Bytes
lookup key [] = none
lookup key (kv ∷ kvs) = if eq kv.key key then some kv.value else lookup key kvs

abbrev pub limited : Option ℕ → List KeyValue → List KeyValue
limited none kvs = kvs
limited (some n) kvs = take n kvs

abbrev pub directed : Bool → List KeyValue → List KeyValue
directed b kvs = if b then reverse kvs else kvs

-- The pairs ascend by key, so no key occurs twice.
abbrev pub KeysAscend : List KeyValue → Type 0
KeysAscend [] = Unit
KeysAscend (kv ∷ kvs) = All (λ k. lt kv.key k.key ≡ true) kvs × KeysAscend kvs

-- The reads of one kind, snapshot reads or reads that conflict with what others commit, succeed and
-- see exactly the pairs `kvs`, ascending by key. A transaction that commits does so on the pairs
-- that its reads of the second kind saw; what snapshot reads saw may have changed.
pub record Sees (snapshot : Bool) (tr : Transaction) (kvs : List KeyValue) : Type 0 where
  pub keys_ascend : KeysAscend kvs
  pub get_lem : (key : Bytes) → tr.get key snapshot ≡ ok (lookup key kvs)
  pub range_lem :
      (o : RangeOption)
      → tr.get_ranges_keyvalues o snapshot
        ≡ map ok (limited o.limit (directed o.reverse (slice (o.begin, o.end) kvs)))

-- Neither options nor watches change what a transaction reads.
pub with_option-Sees :
    (option : TransactionOption) (snapshot : Bool) (tr : Transaction) (kvs : List KeyValue)
    → Sees snapshot tr kvs
    → Sees snapshot (with_option option tr) kvs
with_option-Sees option snapshot tr kvs sees = record {
  keys_ascend = sees.keys_ascend;
  get_lem = sees.get_lem;
  range_lem = sees.range_lem;
}

-- What the client documents of the option: a transaction that has the retry limit set keeps it when
-- it is reset, and the client gives up after that many resets.
pub record RetriesAtMost (limit : ℕ) (db : Database) : Type 0 where
  pub fresh : (tr : Transaction) → db.create_trx ≡ ok tr → tr.retries ≡ 0
  pub counted :
      (tr tr' : Transaction) (e : FdbError)
      → In (retry_limit limit) tr.options
      → db.on_error tr e ≡ ok tr'
      → (tr'.retries ≡ suc tr.retries) × (tr.retries < limit) × In (retry_limit limit) tr'.options

-- What the client documents of the option: a commit under automatic idempotency does not leave open
-- whether it took effect.
abbrev pub KnowsOutcome : Transaction → Type 0
KnowsOutcome tr =
    (options : List TransactionOption) (watches : List Bytes) (writes : List Mutation)
    (e : FdbError)
    → In automatic_idempotency options
    → tr.commit options watches writes ≡ err e
    → e.maybe_committed ≡ false

pub record IdempotentCommits (db : Database) : Type 0 where
  pub fresh_knows : (tr : Transaction) → db.create_trx ≡ ok tr → KnowsOutcome tr
  pub next_knows :
      (tr tr' : Transaction) (e : FdbError) → db.on_error tr e ≡ ok tr' → KnowsOutcome tr'
