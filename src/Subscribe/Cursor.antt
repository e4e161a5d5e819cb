-- ===== src/Subscribe/Cursor.antt =====
-- What a cursor is read as.
use dcb_layer.Common.{
  ℕ, ◌≡◌, ◌≢◌, refl, ap, ◌∙◌, true, ◌↔◌, inl, inr, false, Option, none, some, List, length, ◌==◌,
  Bool-cases, arith, ok,
}
use dcb_layer.Common.Bytes.{Bytes, Text}
use dcb_layer.Types.{Versionstamp, FdbStore}
use dcb_layer.Tuple.{Codec}
use dcb_layer.Fdb.{KeyValue, Transaction, Database}
use dcb_layer.Fdb.Laws.{Sees, lookup}
use dcb_layer.Subscribe.{cursor_value, get_cursor}
use dcb_layer.Encoding.Keys.{pack_cursor_key}

cursor_value-eq_ok_iff :
    (o : Option Bytes) (vs : Versionstamp)
    → (cursor_value o ≡ ok (some vs)) ↔ ((o ≡ some vs) × (length vs ≡ 12))
unfolding cursor_value
cursor_value-eq_ok_iff none vs = (λ h. absurd cc, λ h. absurd cc)
cursor_value-eq_ok_iff (some val) vs = elim (Bool-cases (length val == 12)) [
  | inl is12 ↦ rw is12 (
    λ h. let e : val ≡ vs = cc in (ap some e, omega (arith, twelve (length val) is12, ap length e)),
    λ h. ap ok h.0,
  )
  | inr not12 ↦ rw not12 (
    λ h. absurd cc,
    λ h. let e : val ≡ vs = cc in absurd (not_twelve (length val) not12 (ap length e ∙ h.1)),
  )
]
  where
    twelve : (n : ℕ) → (n == 12) ≡ true → n ≡ 12
    twelve n h = ground arith

    not_twelve : (n : ℕ) → (n == 12) ≡ false → n ≢ 12
    not_twelve n h e = ground arith

-- `get_cursor` gives what the value at the cursor's key stands for.
pub get_cursor-Sees :
    (c : Codec) (db : Database) (store : FdbStore) (name : Text) (tr : Transaction)
    (kvs : List KeyValue)
    → db.create_trx ≡ ok tr
    → Sees false tr kvs
    → get_cursor c db store name
      ≡ cursor_value (lookup (pack_cursor_key c store.namespace name) kvs)
unfolding get_cursor
get_cursor-Sees c db store name tr kvs fresh sees =
    rw (fresh, sees.get_lem (pack_cursor_key c store.namespace name)) refl

-- Where the reads of the transaction that is created see the pairs of the store, `get_cursor`
-- returns a position exactly if it is the value at the cursor's key and 12 bytes long; so a value
-- of another length is never returned.
pub get_cursor-eq_ok_iff :
    (c : Codec) (db : Database) (store : FdbStore) (name : Text) (tr : Transaction)
    (kvs : List KeyValue) (vs : Versionstamp)
    → db.create_trx ≡ ok tr
    → Sees false tr kvs
    → (get_cursor c db store name ≡ ok (some vs))
      ↔ ((lookup (pack_cursor_key c store.namespace name) kvs ≡ some vs) × (length vs ≡ 12))
get_cursor-eq_ok_iff c db store name tr kvs vs fresh sees =
    rw (get_cursor-Sees c db store name tr kvs fresh sees)
      (cursor_value-eq_ok_iff (lookup (pack_cursor_key c store.namespace name) kvs) vs)
