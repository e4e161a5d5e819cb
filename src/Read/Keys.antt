-- ===== src/Read/Keys.antt =====
-- `extract_vs_from_key` of dcb-layer/src/read.rs.
use dcb_layer.Common.{
  sym, append_assoc, ◌-◌, ◌≡◌, ◌++◌, ◌∷◌, ◌||◌, not, length, length-append, drop, drop-append,
  get_or, get_or-append, ltb, ◌==◌, if◌then◌else◌, Result, ok, err, arith, ap, ◌∙◌, ◌+◌, [],
}
use dcb_layer.Common.Bytes.{Bytes}
use dcb_layer.Types.{Versionstamp}
use dcb_layer.Error.{Error, tuple_decode, last_not_versionstamp}

-- The last 13 bytes are the code 0x33 and the stamp.
unfoldable pub extract_vs_from_key : Bytes → Result Versionstamp Error
extract_vs_from_key key =
    if ltb (length key) 13 || not (get_or key (length key - 13) 0 == 0x33)
    then err (tuple_decode last_not_versionstamp)
    else ok (drop (length key - 12) key)

-- A key that ends in a stamp gives that stamp.
pub extract-append :
    (p : Bytes) (vs : Versionstamp) → length vs ≡ 12 → extract_vs_from_key (p ++ 0x33 ∷ vs) ≡ ok vs
unfolding extract_vs_from_key
extract-append p vs h =
    let long : length (p ++ 0x33 ∷ vs) ≡ length p + 13 =
      omega (arith, length-append p (0x33 ∷ vs)) in
    let code = get_or-append p (0x33 ∷ vs) (length p + 13 - 13) 0 0 (omega arith) in
    let last =
      ap (drop (length p + 13 - 12)) (sym (append_assoc p (0x33 ∷ []) vs))
      ∙ drop-append (p ++ 0x33 ∷ []) vs (length p + 13 - 12)
          (omega (arith, length-append p (0x33 ∷ []))) in
    rw long (ground (arith, code, last))
