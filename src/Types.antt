-- ===== src/Types.antt =====
-- dcb-layer/src/types.rs: the values that pass between the store and its callers.
-- `FdbStore` is its namespace: the database handle is the parameter `Database` of Fdb.antt.
use dcb_layer.Common.{ℕ, Bool, Option, List, ◌&&◌, not, is_empty}
use dcb_layer.Common.Bytes.{Bytes, Text}

-- 12 bytes: the transaction version (10, big-endian), then the batch index (2, big-endian).
abbrev pub Versionstamp : Type 0
Versionstamp = Bytes

-- `data` is spelled `payload`, a reserved word being no field name.
pub record Event : Type 0 where
  pub type_name : Text
  pub tags : List Text
  pub payload : Bytes

pub record StoredEvent : Type 0 where
  pub event : Event
  pub position : Versionstamp

pub record QueryItem : Type 0 where
  pub types : List Text
  pub tags : List Text

unfoldable pub has_no_type_nor_tags : QueryItem → Bool
has_no_type_nor_tags item = is_empty item.types && is_empty item.tags

unfoldable pub has_types_only : QueryItem → Bool
has_types_only item = not (is_empty item.types) && is_empty item.tags

unfoldable pub has_types_and_tags : QueryItem → Bool
has_types_and_tags item = not (is_empty item.types) && not (is_empty item.tags)

pub record Query : Type 0 where
  pub items : List QueryItem

pub record AppendCondition : Type 0 where
  pub query : Query
  pub after : Option Versionstamp

-- A limit of 0 is no limit.
pub record ReadOptions : Type 0 where
  pub limit : ℕ
  pub after : Option Versionstamp
  pub reverse : Bool

pub record FdbStore : Type 0 where
  pub namespace : Text

-- `Event::new` and `FdbStore::new` only convert and store their arguments.
unfoldable pub new_event : Text → List Text → Bytes → Event
new_event type_name tags payload = record { type_name = type_name; tags = tags; payload = payload }

unfoldable pub new_store : Text → FdbStore
new_store namespace = record { namespace = namespace }
