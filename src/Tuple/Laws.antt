-- ===== src/Tuple/Laws.antt =====
-- What the tuple layer documents of its encoding, as the laws of a `Codec`.
use dcb_layer.Common.{ℕ, ◌/◌, ◌%◌, ◌<◌, ◌≡◌, ◌≢◌, ◌⊎◌, List, [], ◌∷◌, ◌++◌, ok, All, length}
use dcb_layer.Common.Bytes.{Bytes, Text, IsBytes}
use dcb_layer.Tuple.{
  FdbVs, complete, incomplete, Element, Elements, string, bytes, tuple, versionstamp, other, nil,
  cons, Codec,
}

-- `u16::to_be_bytes`.
abbrev pub be_bytes : ℕ → Bytes
be_bytes n = n / 256 % 256 ∷ n % 256 ∷ []

-- The elements that can be packed: texts and bytes of bytes, complete stamps of 10 bytes and a
-- 16-bit user version.
abbrev pub IsComplete : FdbVs → Type 0
IsComplete (complete tx user) = (length tx ≡ 10) × IsBytes tx × (user < 65536)
IsComplete (incomplete user) = ⊥

abbrev mutual
  pub IsPackable : Element → Type 0
  IsPackable (string s) = IsBytes s
  IsPackable (bytes b) = IsBytes b
  IsPackable (tuple es) = ArePackable es
  IsPackable (versionstamp v) = IsComplete v
  IsPackable (other n) = ⊥

  pub ArePackable : Elements → Type 0
  ArePackable nil = Unit
  ArePackable (cons e es) = IsPackable e × ArePackable es

-- No byte of the text is NUL.
abbrev pub NulFree : Text → Type 0
NulFree = All (λ b. b ≢ 0)

-- The bytes do not begin with 0xFF, the second half of an escaped NUL.
abbrev pub NoEscape : Bytes → Type 0
NoEscape [] = Unit
NoEscape (b ∷ bs) = b ≢ 255

pub record CodecLaws (c : Codec) : Type 0 where
  -- A tuple is packed element by element.
  pub pack-nil : c.pack [] ≡ []
  pub pack-append : (xs ys : List Element) → c.pack (xs ++ ys) ≡ c.pack xs ++ c.pack ys
  pub unpack-pack : (xs : List Element) → All IsPackable xs → c.unpack (c.pack xs) ≡ ok xs
  pub pack-IsBytes : (xs : List Element) → All IsPackable xs → IsBytes (c.pack xs)
  -- A versionstamp is the code 0x33 and its 12 bytes.
  pub pack-versionstamp :
      (tx : Bytes) (user : ℕ)
      → c.pack (versionstamp (complete tx user) ∷ []) ≡ 0x33 ∷ tx ++ be_bytes user
  -- A text is the code 0x02, its bytes with each NUL escaped as 00 FF, and the terminator 00.
  pub pack-string_code : (s : Text) → (r : Bytes) × (c.pack (string s ∷ []) ≡ 0x02 ∷ r)
  pub pack-string_inj :
      (s t : Text) (x y : Bytes)
      → NoEscape y
      → c.pack (string s ∷ []) ++ x ≡ c.pack (string t ∷ []) ++ y
      → ((s ≡ t) × (x ≡ y)) ⊎ ((u : Text) × (t ≡ s ++ 0 ∷ u))
  pub pack-string_nul :
      (s u : Text)
      → (r : Bytes) × (c.pack (string (s ++ 0 ∷ u) ∷ []) ≡ c.pack (string s ∷ []) ++ 0xFF ∷ r)
  -- At commit the version of the transaction completes the one incomplete stamp of the key.
  pub stamp-pack :
      (tx : Bytes) (xs : List Element) (user : ℕ)
      → All IsPackable xs
      → c.stamp tx (c.pack_with_versionstamp (xs ++ versionstamp (incomplete user) ∷ []))
        ≡ c.pack (xs ++ versionstamp (complete tx user) ∷ [])
  -- So does it a placeholder at the offset 0, with two bytes behind.
  pub stamp-zeros :
      (tx : Bytes)
      → c.stamp tx (0 ∷ 0 ∷ 0 ∷ 0 ∷ 0 ∷ 0 ∷ 0 ∷ 0 ∷ 0 ∷ 0 ∷ 0 ∷ 0 ∷ 0 ∷ 0 ∷ 0 ∷ 0 ∷ [])
        ≡ tx ++ 0 ∷ 0 ∷ []
