-- ===== src/Error.antt =====
-- dcb-layer/src/error.rs. An error of the database is its code, and whether the commit that ended
-- in it may have taken effect, `is_maybe_committed` of the client. A message is what `format!` puts
-- into it; its rendering as text is not modelled.
pub mod Laws
use dcb_layer.Common.{ℕ, Bool, Result, ok, err}
use dcb_layer.Common.Bytes.{Text}
use dcb_layer.Tuple.{Element}

pub record FdbError : Type 0 where
  pub code : ℕ
  pub maybe_committed : Bool

pub data Message : Type 0 where
  unpack_failed : Text → Message
  expected_3_elements : ℕ → Message
  type_not_string : Element → Message
  tag_not_string : Element → Message
  tags_not_tuple : Element → Message
  data_not_bytes : Element → Message
  last_not_versionstamp : Message
  cursor_not_12_bytes : ℕ → Message
  encode_failed : Text → Message

pub data Error : Type 0 where
  empty_events append_condition_failed invalid_query missing_event_type : Error
  batch_too_large too_many_tags reserved_tag all_ff_key : Error
  fdb : FdbError → Error
  tuple_encode : Message → Error
  tuple_decode : Message → Error
  event_not_found : Text → Error

-- `FdbError::try_from(e)`: the retry harness of the database client retries only what is `ok` here.
unfoldable pub try_from : Error → Result FdbError Error
try_from (fdb e) = ok e
try_from other = err other
