-- ===== src/Subscribe/Watch.antt =====
-- The watches of dcb-layer/src/subscribe.rs and the writes of dcb-layer/src/append.rs.
use dcb_layer.Common.{◌≡◌, refl, inl, inr, List, [], In, In-append_right, ok, err, Result-cases}
use dcb_layer.Common.Bytes.{Bytes}
use dcb_layer.Types.{Event, FdbStore}
use dcb_layer.Error.{fdb}
use dcb_layer.Tuple.{Codec}
use dcb_layer.Fdb.{set_versionstamped_value, Transaction, Database, commit_writes, with_watch}
use dcb_layer.Encoding.Keys.{pack_sentinel_key}
use dcb_layer.Append.{append_events, batch}
use dcb_layer.Subscribe.{register_sentinel_watch}

module _ (c : Codec) {W : Type 0} (watch : Transaction → Bytes → W) (db : Database)
    (store : FdbStore) (w : W) where
  -- The future is that of a transaction that was created and committed, for the sentinel.
  pub register_sentinel_watch-eq_ok :
      register_sentinel_watch c watch db store ≡ ok w
      → (tr : Transaction) × (db.create_trx ≡ ok tr)
        × (commit_writes (with_watch (pack_sentinel_key c store.namespace) tr) [] ≡ ok tt)
        × (w
            ≡ watch
                (with_watch (pack_sentinel_key c store.namespace) tr)
                (pack_sentinel_key c store.namespace))
  unfolding register_sentinel_watch
  register_sentinel_watch-eq_ok h = elim (Result-cases db.create_trx) [
    | inr (e, q) ↦ let none_made : err (fdb e) ≡ ok w = rw q at h in absurd cc
    | inl (tr, q) ↦
        elim (Result-cases
          (commit_writes (with_watch (pack_sentinel_key c store.namespace) tr) [])) [
            | inr (e, r) ↦ let failed : err (fdb e) ≡ ok w = rw (q, r) at h in absurd cc
            | inl (u, r) ↦
                let made : ok (
                      watch (with_watch (pack_sentinel_key c store.namespace) tr)
                        (pack_sentinel_key c store.namespace))
                    ≡ ok w =
                  rw (q, r) at h in
                (tr, q, r, cc)
          ]
  ]

  -- Where `register_sentinel_watch` returns a future, it is that of a transaction that was created
  -- and committed, for a key that every batch of `append` in the namespace writes, whatever its
  -- events.
  pub register_sentinel_watch-batch :
      (events : List Event)
      → register_sentinel_watch c watch db store ≡ ok w
      → (tr : Transaction) × (key value : Bytes) × (db.create_trx ≡ ok tr)
        × (commit_writes (with_watch key tr) [] ≡ ok tt)
        × (w ≡ watch (with_watch key tr) key)
        × In (set_versionstamped_value key value) (batch c store.namespace events)
  unfolding batch
  register_sentinel_watch-batch events h =
      let (tr, q, r, made) = register_sentinel_watch-eq_ok h in
      (
        tr,
        pack_sentinel_key c store.namespace,
        _,
        q,
        r,
        made,
        In-append_right _ (append_events c store.namespace events 0) _ (inl refl),
      )
