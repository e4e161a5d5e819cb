-- ===== src/Tuple.antt =====
-- The crate `foundationdb::tuple` and `hex::encode`, which dcb-layer calls and does not implement:
-- the elements that it builds and reads, and the operations as a parameter with the documented
-- laws of the tuple encoding.
pub mod Laws
use dcb_layer.Common.{ℕ, List, [], ◌∷◌, Result}
use dcb_layer.Common.Bytes.{Bytes, Text}

-- `Versionstamp::complete([u8; 10], u16)` and `Versionstamp::incomplete(u16)`.
pub data FdbVs : Type 0 where
  complete : Bytes → ℕ → FdbVs
  incomplete : ℕ → FdbVs

-- `Element`, with the variants that the source names; `other` stands for the rest of them
-- (`Nil`, `Int`, `Bool`, ...), which the source only tells apart from these. `Elements` is the
-- `Vec<Element>` of a nested tuple.
mutual
  pub data Element : Type 0 where
    string : Text → Element
    bytes : Bytes → Element
    tuple : Elements → Element
    versionstamp : FdbVs → Element
    other : ℕ → Element

  pub data Elements : Type 0 where
    nil : Elements
    cons : Element → Elements → Elements

unfoldable pub of_list : List Element → Elements
of_list [] = nil
of_list (e ∷ es) = cons e (of_list es)

unfoldable pub to_list : Elements → List Element
to_list nil = []
to_list (cons e es) = e ∷ to_list es

-- `pack`, `pack_with_versionstamp`, `unpack` (its error by its text), and `hex::encode`.
-- `stamp version bytes` is what the database writes at commit for the key of a
-- `SetVersionstampedKey` operation, or for the value of a `SetVersionstampedValue` operation: the
-- trailing offset is removed, and the transaction's version replaces the placeholder at that
-- offset.
pub record Codec : Type 0 where
  pub pack : List Element → Bytes
  pub pack_with_versionstamp : List Element → Bytes
  pub unpack : Bytes → Result (List Element) Text
  pub hex_encode : Bytes → Text
  pub stamp : Bytes → Bytes → Bytes
