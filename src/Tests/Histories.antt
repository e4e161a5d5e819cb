-- ===== src/Tests/Histories.antt =====
-- Runs of the store: a call that retries, a read before an append, reads in pages. Witnesses.
use dcb_layer.Common.{
  ℕ, suc, ◌≡◌, refl, subst, inl, inr, false, some, List, In, [], ◌∷◌, ◌++◌, ok, err, ltb, ltb→lt,
  Bool-cases, if◌then◌else◌, arith,
}
use dcb_layer.Common.Bytes.{lt}
use dcb_layer.Types.{StoredEvent}
use dcb_layer.Error.{FdbError}
use dcb_layer.Fdb.{
  Transaction, Database, FdbResult, TransactionOption, retry_limit, automatic_idempotency,
  with_option,
}
use dcb_layer.Fdb.Laws.{Sees, RetriesAtMost, IdempotentCommits, KnowsOutcome}
use dcb_layer.Append.{
  append_retry_limit, append, append_round, retry, return, commit_batch, after_commit,
}
use dcb_layer.System.{additions, IsRound, LeadsTo, SpecReachable, start}
use dcb_layer.System.Invariant.{Represents, outcome}
use dcb_layer.System.Serving.{Serves, commits, retries, unchanged, Call}
use dcb_layer.System.Attempts.{append-Call}
use dcb_layer.Tests.Plain.{plain, plain_laws}
use dcb_layer.Tests.Scene.{namespace, condition}
use dcb_layer.Tests.Running.{
  version_1, batch_1, state_0, state_1, on_pairs, state_0-IsRound, state_0-Represents,
  batch_1-Persisted,
}

-- The transaction after some resets, with the options that are set.
abbrev pub attempt : ℕ → List TransactionOption → Transaction
attempt n set = record (on_pairs []) { retries = n; options = set }

abbrev pub conflicted : FdbError
conflicted = record { code = 1020; maybe_committed = false }

abbrev pub first_attempt : Transaction
first_attempt = record (on_pairs []) { commit = λ options watches ms. err conflicted }

-- What is left of the options when a transaction is reset.
abbrev pub kept : List TransactionOption → List TransactionOption
kept [] = []
kept (automatic_idempotency ∷ set) = kept set
kept (retry_limit n ∷ set) = retry_limit n ∷ kept set

In-kept :
    (limit : ℕ) (set : List TransactionOption)
    → In (retry_limit limit) set
    → In (retry_limit limit) (kept set)
In-kept limit [] m = m
In-kept limit (automatic_idempotency ∷ set) (inl e) = absurd cc
In-kept limit (automatic_idempotency ∷ set) (inr m) = In-kept limit set m
In-kept limit (retry_limit n ∷ set) (inl e) = inl e
In-kept limit (retry_limit n ∷ set) (inr m) = inr (In-kept limit set m)

-- A database whose first commit fails, and that gives up after 100 resets.
abbrev pub retrying : Database
retrying = record {
  create_trx = ok first_attempt;
  on_error =
      λ tr e. if ltb tr.retries 100 then ok (attempt (suc tr.retries) (kept tr.options)) else err e;
}

same : (tr tr' : Transaction) → ◌≡◌ {A = FdbResult Transaction} (ok tr) (ok tr') → tr ≡ tr'
same tr tr' h = cc

retrying-RetriesAtMost : RetriesAtMost append_retry_limit retrying
unfolding on_pairs
retrying-RetriesAtMost = record {
  fresh = λ tr h. subst (λ (t : Transaction). t.retries ≡ 0) (same first_attempt tr h) refl;
  counted = λ tr tr' e limited h. elim (Bool-cases (ltb tr.retries 100)) [
    | inr n ↦
        let gave_up : ◌≡◌ {A = FdbResult Transaction} (err e) (ok tr') = rw n at h in absurd cc
    | inl l ↦
        let again : ◌≡◌ {A = FdbResult Transaction}
            (ok (attempt (suc tr.retries) (kept tr.options))) (ok tr') =
          rw l at h in
        (
          subst (λ (t : Transaction). t.retries ≡ suc tr.retries)
              (same (attempt (suc tr.retries) (kept tr.options)) tr' again) refl,
          ltb→lt tr.retries 100 l,
          subst (λ (t : Transaction). In (retry_limit append_retry_limit) t.options)
              (same (attempt (suc tr.retries) (kept tr.options)) tr' again)
              (In-kept append_retry_limit tr.options limited),
        )
  ];
}

retrying-IdempotentCommits : IdempotentCommits retrying
unfolding on_pairs
retrying-IdempotentCommits = record {
  fresh_knows = λ tr h.
      subst KnowsOutcome (same first_attempt tr h) (λ options watches writes e set failed.
        let known : conflicted ≡ e = cc in
        subst (λ (x : FdbError). x.maybe_committed ≡ false) known refl);
  next_knows = λ tr tr' e h. elim (Bool-cases (ltb tr.retries 100)) [
    | inr n ↦
        let gave_up : ◌≡◌ {A = FdbResult Transaction} (err e) (ok tr') = rw n at h in absurd cc
    | inl l ↦
        let again : ◌≡◌ {A = FdbResult Transaction}
            (ok (attempt (suc tr.retries) (kept tr.options))) (ok tr') =
          rw l at h in
        subst KnowsOutcome (same (attempt (suc tr.retries) (kept tr.options)) tr' again)
          (λ options watches writes e' set failed. absurd cc)
  ];
}

-- The transaction runs the round that appends the event to the empty store.
abbrev IsFirstRound : Transaction → Type 0
IsFirstRound tr = IsRound plain namespace state_0 tr batch_1 (condition ∷ [])

with_pairs :
    (tr : Transaction)
    → Sees false tr []
    → tr.set_option automatic_idempotency ≡ ok tt
    → IsFirstRound tr
with_pairs tr sees set = record {
  sees = sees;
  idempotent = set;
  valid = state_0-IsRound.valid;
  appendable = state_0-IsRound.appendable;
  typed = state_0-IsRound.typed;
}

-- The first attempt, once `append` has set its retry limit.
abbrev limited_attempt : Transaction
limited_attempt = with_option (retry_limit append_retry_limit) first_attempt

first_attempt-IsFirstRound : IsFirstRound limited_attempt
unfolding on_pairs
first_attempt-IsFirstRound =
    with_pairs limited_attempt
      (record { keys_ascend = tt; get_lem = λ key. refl; range_lem = λ o. refl }) refl

attempt-IsFirstRound : (n : ℕ) (set : List TransactionOption) → IsFirstRound (attempt n set)
unfolding on_pairs
attempt-IsFirstRound n set =
    with_pairs (attempt n set)
      (record { keys_ascend = tt; get_lem = λ key. refl; range_lem = λ o. refl }) refl

-- Nothing conflicts in the empty store.
commits_batch :
    (tr : Transaction)
    → IsFirstRound tr
    → append_round plain tr namespace batch_1 (condition ∷ [])
      ≡ commit_batch plain (with_option automatic_idempotency tr) namespace batch_1
commits_batch tr round = elim (outcome plain plain_laws namespace state_0-Represents round) [
  | inl ((cond, m, (item, k, (se, n, p, a))), e) ↦ absurd n
  | inr (clear, e) ↦ e
]

first_attempt-retry :
    append_round plain limited_attempt namespace batch_1 (condition ∷ []) ≡ retry conflicted
unfolding commit_batch after_commit on_pairs
first_attempt-retry = commits_batch limited_attempt first_attempt-IsFirstRound

attempt-return :
    (n : ℕ) (set : List TransactionOption)
    → append_round plain (attempt n set) namespace batch_1 (condition ∷ [])
      ≡ return (ok (version_1 ++ 0 ∷ 0 ∷ []))
unfolding commit_batch after_commit on_pairs
attempt-return n set = commits_batch (attempt n set) (attempt-IsFirstRound n set)

abbrev limit_set : List TransactionOption
limit_set = retry_limit append_retry_limit ∷ []

retrying-Serves :
    Serves plain namespace retrying batch_1
      (condition ∷ [])
      state_0
      limited_attempt
      (ok (version_1 ++ 0 ∷ 0 ∷ []))
      []
      state_1
unfolding lt on_pairs
retrying-Serves =
    retries {tr' = attempt 1 limit_set} {before = []} {e = conflicted} LeadsTo.stays
      first_attempt-IsFirstRound first_attempt-retry unchanged refl
      (commits LeadsTo.stays (attempt-IsFirstRound 1 limit_set) (attempt-return 1 limit_set) refl
        batch_1-Persisted)

first_attempt-limit : first_attempt.set_option (retry_limit append_retry_limit) ≡ ok tt
unfolding on_pairs
first_attempt-limit = refl

append-Call_example :
    (append plain 101 retrying (record { namespace = namespace }) batch_1 (condition ∷ [])
      ≡ some (ok (version_1 ++ 0 ∷ 0 ∷ [])))
    × (history : List StoredEvent) × SpecReachable history
    × Represents plain namespace history state_1
    × Call batch_1 (condition ∷ []) ([] ++ additions []) (ok (version_1 ++ 0 ∷ 0 ∷ [])) history
append-Call_example =
    append-Call plain plain_laws (record { namespace = namespace }) retrying batch_1
      (condition ∷ []) retrying-IdempotentCommits retrying-RetriesAtMost first_attempt refl
      first_attempt-limit state_0 state_1 _ [] [] 101 state_0-Represents start retrying-Serves
      state_0-IsRound.valid (omega arith)
