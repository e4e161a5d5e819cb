-- ===== src/Nif/Errors.antt =====
-- The errors of the binding of dcb-layer-ex/native/dcb_layer_nif/src/lib.rs.
use dcb_layer.Common.{◌≡◌, ◌≢◌, refl, ◌↔◌, arith}
use dcb_layer.Common.Bytes.{Text, text}
use dcb_layer.Error.{
  Message, Error, empty_events, append_condition_failed, invalid_query, missing_event_type,
  batch_too_large, too_many_tags, reserved_tag, all_ff_key, fdb, tuple_encode, tuple_decode,
  event_not_found,
}
use dcb_layer.Nif.{encode_dcb_error}
use dcb_layer.Nif.Rustler.{Terms, TermsLaws}

module _ (t : Terms) (laws : TermsLaws t) (render : Message → Text) where
  abbrev failed : Text
  failed = text "append_condition_failed"

  apart : (s : Text) → s ≢ failed → t.atom s ≢ t.atom failed
  apart s ne e = ne (laws.atom-inj s failed e)

  -- For terms with the documented laws: the term of an error is the atom append_condition_failed
  -- exactly if the error is AppendConditionFailed, so a caller can tell a failed condition from
  -- every other error.
  pub encode_dcb_error-conflict :
      (e : Error) → (encode_dcb_error t render e ≡ t.atom failed) ↔ (e ≡ append_condition_failed)
  unfolding encode_dcb_error
  encode_dcb_error-conflict e = (λ h. only e h, λ h. rw h refl)
    where
      only : (e : Error) → encode_dcb_error t render e ≡ t.atom failed → e ≡ append_condition_failed
      only append_condition_failed h = refl
      only empty_events h = absurd (apart (text "empty_events") (ground arith) h)
      only invalid_query h = absurd (apart (text "invalid_query") (ground arith) h)
      only missing_event_type h = absurd (apart (text "missing_event_type") (ground arith) h)
      only batch_too_large h = absurd (apart (text "batch_too_large") (ground arith) h)
      only too_many_tags h = absurd (apart (text "too_many_tags") (ground arith) h)
      only reserved_tag h = absurd (apart (text "reserved_tag") (ground arith) h)
      only all_ff_key h = absurd (apart (text "all_ff_key") (ground arith) h)
      only (fdb x) h = absurd (laws.pair-ne_atom _ _ _ h)
      only (tuple_encode m) h = absurd (laws.pair-ne_atom _ _ _ h)
      only (tuple_decode m) h = absurd (laws.pair-ne_atom _ _ _ h)
      only (event_not_found s) h = absurd (laws.pair-ne_atom _ _ _ h)
