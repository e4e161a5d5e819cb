-- ===== src/Append/Positions.antt =====
-- The position that `append` of dcb-layer/src/append.rs returns is that of the last event of its
-- batch.
use dcb_layer.Common.{
  ℕ, suc, ◌+◌, ◌-◌, ◌%◌, ◌<◌, ◌≡◌, ap, ◌∙◌, false, Option, none, some, List, [], ◌∷◌, ◌++◌, map,
  length, arith, is_empty, Result, ok, err, map_err, ◌>>=◌,
}
use dcb_layer.Common.Bytes.{Bytes, Text}
use dcb_layer.Types.{Event, Versionstamp}
use dcb_layer.Error.{FdbError, Error, fdb}
use dcb_layer.Tuple.{Codec}
use dcb_layer.Tuple.Laws.{be_bytes}
use dcb_layer.Fdb.{FdbResult, Transaction, commit_writes}
use dcb_layer.Append.{return, retry, batch, commit_batch, after_commit}
use dcb_layer.Append.Commit.{positioned}
use dcb_layer.Read.Pages.{last_position}

-- The last position of a batch is that of its last event.
last_position-positioned :
    (after : Option Versionstamp) (tx : Bytes) (i : ℕ) (events : List Event)
    → 0 < length events
    → last_position after (map (λ se. se.position) (positioned tx i events))
      ≡ some (tx ++ be_bytes ((i + (length events - 1)) % 65536))
last_position-positioned after tx i [] l = absurd (omega arith)
last_position-positioned after tx i (event ∷ []) l =
    let same : i ≡ i + (length (event ∷ []) - 1) = omega arith in
    ap (λ (n : ℕ). some (tx ++ be_bytes (n % 65536))) same
last_position-positioned after tx i (event ∷ event' ∷ events) l =
    let same : suc i + (length (event' ∷ events) - 1) ≡ i + (length (event ∷ event' ∷ events) - 1) =
      omega arith in
    last_position-positioned (some (tx ++ be_bytes (i % 65536))) tx (suc i) (event' ∷ events)
      (omega arith)
    ∙ ap (λ (n : ℕ). some (tx ++ be_bytes (n % 65536))) same

is_empty-length : (events : List Event) → is_empty events ≡ false → 0 < length events
is_empty-length [] h = absurd cc
is_empty-length (event ∷ events) h = omega arith

pub last_position-batch :
    (tx : Bytes) (events : List Event)
    → is_empty events ≡ false
    → last_position none (map (λ se. se.position) (positioned tx 0 events))
      ≡ some (tx ++ be_bytes ((length events - 1) % 65536))
last_position-batch tx events any_event =
    let same : 0 + (length events - 1) ≡ length events - 1 = omega arith in
    last_position-positioned none tx 0 events (is_empty-length events any_event)
    ∙ ap (λ (n : ℕ). some (tx ++ be_bytes (n % 65536))) same

-- A committed batch is answered with the version that the transaction is told of.
pub commit_batch-position :
    (c : Codec) (tr : Transaction) (namespace : Text) (events : List Event)
    {position : Versionstamp} {version : Bytes}
    → commit_batch c tr namespace events ≡ return (ok position)
    → tr.get_versionstamp ≡ ok version
    → position ≡ version ++ be_bytes ((length events - 1) % 65536)
unfolding commit_batch after_commit
commit_batch-position c tr namespace events {position} {version} =
    go (commit_writes tr _) tr.get_versionstamp
  where
    go :
        (r : FdbResult (Unit {0})) (v : FdbResult Bytes)
        → after_commit r (
            map_err fdb v >>= λ fdb_slice. ok (fdb_slice ++ be_bytes ((length events - 1) % 65536)))
          ≡ return (ok position)
        → v ≡ ok version
        → position ≡ version ++ be_bytes ((length events - 1) % 65536)
    go (ok a) (ok w) e told = cc
    go (ok a) (err x) e told = absurd cc
    go (err x) v e told = absurd cc

-- A round that hands an error on has it from its commit.
pub commit_batch-retry :
    (c : Codec) (tr : Transaction) (namespace : Text) (events : List Event) {e : FdbError}
    → commit_batch c tr namespace events ≡ retry e
    → commit_writes tr (batch c namespace events) ≡ err e
unfolding commit_batch after_commit
commit_batch-retry c tr namespace events {e} = go (commit_writes tr _) _
  where
    go :
        (r : FdbResult (Unit {0})) (v : Result Versionstamp Error)
        → after_commit r v ≡ retry e
        → r ≡ err e
    go (ok a) v q = absurd cc
    go (err x) v q = cc
