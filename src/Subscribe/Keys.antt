-- ===== src/Subscribe/Keys.antt =====
-- The keys of cursors, events and the sentinel are told apart.
use dcb_layer.Common.{◌≡◌, sym, ap, ◌∙◌, List, [], ◌∷◌, All, arith, Result, ok}
use dcb_layer.Common.Bytes.{Text, IsBytes}
use dcb_layer.Tuple.{Element, string, Codec}
use dcb_layer.Tuple.Laws.{CodecLaws, IsPackable}
use dcb_layer.Encoding.Keys.{subs_sub, pack_cursor_key}

module _ (c : Codec) (laws : CodecLaws c) where
  -- Tuples that can be packed are told apart by their keys.
  pub pack-injective :
      (xs ys : List Element)
      → All IsPackable xs
      → All IsPackable ys
      → c.pack xs ≡ c.pack ys
      → xs ≡ ys
  pack-injective xs ys hx hy e =
      ok-injective (sym (laws.unpack-pack xs hx) ∙ ap c.unpack e ∙ laws.unpack-pack ys hy)
    where
      ok-injective : ◌≡◌ {A = Result (List Element) Text} (ok xs) (ok ys) → xs ≡ ys
      ok-injective h = cc

  -- For a codec that meets the laws, cursors whose namespaces and names are bytes have the same key
  -- only if namespace and name agree.
  pub pack_cursor_key-injective :
      (namespace namespace' name name' : Text)
      → IsBytes namespace
      → IsBytes namespace'
      → IsBytes name
      → IsBytes name'
      → pack_cursor_key c namespace name ≡ pack_cursor_key c namespace' name'
      → (namespace ≡ namespace') × (name ≡ name')
  unfolding pack_cursor_key
  pack_cursor_key-injective namespace namespace' name name' hn hn' hk hk' e =
      let same =
        pack-injective (string namespace ∷ string subs_sub ∷ string name ∷ [])
          (string namespace' ∷ string subs_sub ∷ string name' ∷ []) (hn, (omega arith, (hk, tt)))
          (hn', (omega arith, (hk', tt))) e in
      parts same
    where
      parts :
          {namespace namespace' name name' : Text}
          → ◌≡◌ {A = List Element}
              (string namespace ∷ string subs_sub ∷ string name ∷ [])
              (string namespace' ∷ string subs_sub ∷ string name' ∷ [])
          → (namespace ≡ namespace') × (name ≡ name')
      parts h = (cc, cc)
