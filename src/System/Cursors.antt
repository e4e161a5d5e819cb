-- ===== src/System/Cursors.antt =====
-- `set_cursor` of dcb-layer/src/subscribe.rs leaves the history of the store as it is.
use dcb_layer.Common.{◌≡◌, sym, ◌∙◌, subst, inl, inr, true, List, ap, take, In, arith}
use dcb_layer.Common.Bytes.{Text, IsBytes, lt, lt_asymm, not_lt_trans}
use dcb_layer.Types.{Versionstamp, StoredEvent}
use dcb_layer.Tuple.{Codec}
use dcb_layer.Tuple.Laws.{CodecLaws}
use dcb_layer.Fdb.{Mutation}
use dcb_layer.Fdb.Lookup.{lookup-In, In-lookup}
use dcb_layer.Encoding.Keys.{pack_cursor_key}
use dcb_layer.Query.Strinc.{StartsWith}
use dcb_layer.Append.Commit.{written_key, Commits}
use dcb_layer.Append.Keys.{IsPrimary, cursor-outside, cursor-ne_event, cursor-outside_events}
use dcb_layer.Subscribe.{cursor_writes}
use dcb_layer.System.{State}
use dcb_layer.System.Invariant.{Represents}

module _ (c : Codec) (laws : CodecLaws c) (namespace : Text) {history : List StoredEvent}
    {s : State} (inv : Represents c namespace history s) (s' : State) (name : Text)
    (position : Versionstamp) (name_bytes : IsBytes name) where
  -- The one key that is written.
  written_cursor :
      (m : Mutation)
      → In m (cursor_writes (pack_cursor_key c namespace name) position)
      → written_key c s'.version m ≡ pack_cursor_key c namespace name
  written_cursor m (inl e) = ap (written_key c s'.version) e
  written_cursor m (inr n) = absurd n

  cursor-IsBytes : IsBytes (pack_cursor_key c namespace name)
  unfolding pack_cursor_key
  cursor-IsBytes = laws.pack-IsBytes _ (inv.holds.namespace_bytes, (omega arith, (name_bytes, tt)))

  pub set_cursor-Represents :
      lt s.version s'.version ≡ true
      → Commits c s'.version
          (cursor_writes (pack_cursor_key c namespace name) position)
          s.kvs
          s'.kvs
      → Represents c namespace history s'
  set_cursor-Represents above commits = record {
    holds = record {
      namespace_bytes = inv.holds.namespace_bytes;
      namespace_free = inv.holds.namespace_free;
      storable = inv.holds.storable;
      key_bytes = λ kv m. elim (commits.sources kv m) [
        | inl n ↦ inv.holds.key_bytes kv n
        | inr (w, n, e) ↦ subst IsBytes (sym (e ∙ written_cursor w n)) cursor-IsBytes
      ];
      complete = λ se subset m u.
          let (kv, k, e) = inv.holds.complete se subset m u in
          let (kv', k', e') = commits.kept kv k in (kv', k', e' ∙ e);
      sound = λ kv m inside. elim (commits.sources kv m) [
        | inl n ↦ inv.holds.sound kv n inside
        | inr (w, n, e) ↦ absurd (
            cursor-outside c laws namespace inv.holds.namespace_free name
              (subst (StartsWith _) (e ∙ written_cursor w n) inside))
      ];
    };
    stored = λ se m. (
      (inv.stored se m).0,
      In-lookup s'.kvs _ _ commits.ascend (
          commits.unwritten _ (lookup-In s.kvs _ _ (inv.stored se m).1) (λ w n e.
            cursor-ne_event c laws namespace inv.holds.namespace_free name se.position
              (sym (written_cursor w n) ∙ e))),
    );
    positions_ascend = inv.positions_ascend;
    not_above = λ se m.
        not_lt_trans (take 10 se.position) s.version s'.version (inv.not_above se m)
          (lt_asymm s.version s'.version above);
    keys_ascend = commits.ascend;
    primary = λ kv m starts. elim (commits.sources kv m) [
      | inl k ↦ inv.primary kv k starts
      | inr (w, k, e) ↦
          let free = inv.holds.namespace_free in
          absurd (
            cursor-outside_events c laws namespace free name
              (subst (IsPrimary c laws namespace free) (e ∙ written_cursor w k) starts))
    ];
  }
