-- ===== src/Append/Signals.antt =====
-- The sentinel that every batch of `append` of dcb-layer/src/append.rs writes, which the watches of
-- dcb-layer/src/subscribe.rs are for.
use dcb_layer.Common.{
  ◌≡◌, refl, sym, ◌∙◌, subst, inl, inr, some, List, [], ◌∷◌, ◌++◌, In, In-append, In-append_right,
  length,
}
use dcb_layer.Common.Bytes.{Bytes, Text, IsBytes}
use dcb_layer.Types.{Event, StoredEvent}
use dcb_layer.Tuple.{Codec}
use dcb_layer.Tuple.Laws.{CodecLaws, NulFree}
use dcb_layer.Fdb.{KeyValue, Mutation, set_versionstamped_value}
use dcb_layer.Fdb.Laws.{lookup}
use dcb_layer.Fdb.Lookup.{In-lookup}
use dcb_layer.Encoding.Keys.{pack_sentinel_key}
use dcb_layer.Store.{IsStorable}
use dcb_layer.Append.{append_events, batch}
use dcb_layer.Append.Commit.{written_key, Commits, positioned, events_sources}
use dcb_layer.Append.Keys.{event-ne_sentinel, index_key-inside, sentinel-outside, IsIndexed}

module _ (c : Codec) (laws : CodecLaws c) (namespace : Text) (namespace_bytes : IsBytes namespace)
    (free : NulFree namespace) (tx : Bytes) (ten : length tx ≡ 10) (events : List Event)
    (storable : (se : StoredEvent) → In se (positioned tx 0 events) → IsStorable se) where
  abbrev signal : Mutation
  signal =
      set_versionstamped_value (pack_sentinel_key c namespace)
        (0 ∷ 0 ∷ 0 ∷ 0 ∷ 0 ∷ 0 ∷ 0 ∷ 0 ∷ 0 ∷ 0 ∷ 0 ∷ 0 ∷ 0 ∷ 0 ∷ 0 ∷ 0 ∷ [])

  -- No event's write is at the sentinel's key.
  event_write-ne_sentinel :
      (m : Mutation)
      → In m (append_events c namespace events 0)
      → ¬ (written_key c tx m ≡ pack_sentinel_key c namespace)
  event_write-ne_sentinel m k e =
      let (se, n, w) =
        events_sources c laws namespace namespace_bytes tx ten events 0 storable m k in
      elim w [
        | inl q ↦ event-ne_sentinel c laws namespace free se.position (sym e ∙ q)
        | inr (subset, u, q) ↦ sentinel-outside c laws namespace free (
            subst (IsIndexed c laws namespace free) (sym q ∙ e)
              (index_key-inside c laws namespace free subset se.event.type_name _))
      ]

  only_signal :
      (m : Mutation)
      → In m (batch c namespace events)
      → written_key c tx m ≡ pack_sentinel_key c namespace
      → m ≡ signal
  unfolding batch
  only_signal m k e = elim (In-append m (append_events c namespace events 0) _ k) [
    | inl n ↦ absurd (event_write-ne_sentinel m n e)
    | inr (inl q) ↦ q
    | inr (inr n) ↦ absurd n
  ]

  -- A committed batch leaves its version in the sentinel.
  pub sentinel-committed :
      (kvs kvs' : List KeyValue)
      → Commits c tx (batch c namespace events) kvs kvs'
      → lookup (pack_sentinel_key c namespace) kvs' ≡ some (tx ++ 0 ∷ 0 ∷ [])
  unfolding batch
  sentinel-committed kvs kvs' commits = In-lookup kvs' _ _ commits.ascend (
      subst (λ (v : Bytes). In (record { key = pack_sentinel_key c namespace; value = v }) kvs')
        (laws.stamp-zeros tx)
        (commits.given signal (In-append_right _ (append_events c namespace events 0) _ (inl refl))
          only_signal))
