-- ===== src/Tests/Plain.antt =====
-- A codec that meets the laws: the published binary format of the tuple layer, for the elements
-- that the library uses.
use dcb_layer.Common.{
  ℕ, zero, suc, ◌+◌, ◌-◌, ◌*◌, ◌/◌, ◌%◌, ◌<◌, ◌≡◌, ◌≢◌, refl, sym, ap, ap₂, ◌∙◌, ◌⊎◌, inl, inr,
  Option, none, some, List, [], ◌∷◌, ◌++◌, append_assoc, append-nil, length, length-append, take,
  take-append, drop, drop-append, get_or, All, All-append, arith, ◌==◌, if◌then◌else◌, Bool-cases,
  Result, ok, err,
}
use dcb_layer.Common.Bytes.{Bytes, Text, IsBytes}
use dcb_layer.Tuple.{
  FdbVs, complete, incomplete, Element, Elements, string, bytes, tuple, versionstamp, other, nil,
  cons, of_list, to_list, Codec,
}
use dcb_layer.Tuple.Laws.{CodecLaws, IsPackable, ArePackable, NoEscape, be_bytes}

-- Each NUL is followed by 0xFF.
escape : Bytes → Bytes
escape [] = []
escape (b ∷ bs) = let rest = escape bs in if b == 0 then 0 ∷ 255 ∷ rest else b ∷ rest

encode_stamp : FdbVs → Bytes
encode_stamp (complete tx user) = tx ++ be_bytes user
encode_stamp (incomplete user) =
    255 ∷ 255 ∷ 255 ∷ 255 ∷ 255 ∷ 255 ∷ 255 ∷ 255 ∷ 255 ∷ 255 ∷ be_bytes user

mutual
  encode : Element → Bytes
  encode (string s) = 2 ∷ (escape s ++ 0 ∷ [])
  encode (bytes b) = 1 ∷ (escape b ++ 0 ∷ [])
  encode (tuple es) = 5 ∷ (encode_all es ++ 0 ∷ [])
  encode (versionstamp v) = 51 ∷ encode_stamp v
  encode (other n) = 6 ∷ []

  encode_all : Elements → Bytes
  encode_all nil = []
  encode_all (cons e es) = encode e ++ encode_all es

pack : List Element → Bytes
unfolding encode escape encode_stamp
pack [] = []
pack (e ∷ es) = encode e ++ pack es

-- The text up to its terminator, and what follows.
prepend {ℓ} : {A : Type ℓ} → A → Option (List A × Bytes) → Option (List A × Bytes)
prepend a none = none
prepend a (some (as', rest)) = some (a ∷ as', rest)

unescape : Bytes → Option (Bytes × Bytes)
unfolding prepend
unescape [] = none
unescape (b ∷ []) = if b == 0 then some ([], []) else none
unescape (b ∷ d ∷ r) =
    let deeper = unescape r in
    let next = unescape (d ∷ r) in
    if b == 0 then (if d == 255 then prepend 0 deeper else some ([], d ∷ r)) else prepend b next

unescape_plain : (b : ℕ) (l : Bytes) → b ≢ 0 → l ≢ [] → unescape (b ∷ l) ≡ prepend b (unescape l)
unfolding unescape
unescape_plain b [] h k = absurd (k refl)
unescape_plain b (d ∷ l) h k = ground arith

append-ne_nil : (s rest : Bytes) → s ++ 0 ∷ rest ≢ []
append-ne_nil [] rest e = cc
append-ne_nil (b ∷ s) rest e = cc

unescape-escape :
    (s rest : Bytes) → NoEscape rest → unescape (escape s ++ 0 ∷ rest) ≡ some (s, rest)
unfolding escape unescape prepend
unescape-escape [] [] h = refl
unescape-escape [] (d ∷ rest) h = ground arith
unescape-escape (b ∷ s) rest h = elim (Bool-cases (b == 0)) [
  | inl z ↦ let e : b ≡ 0 = ground arith in rw (e, unescape-escape s rest h) refl
  | inr n ↦
      rw
        (
          n,
          unescape_plain b (escape s ++ 0 ∷ rest) (ground arith) (append-ne_nil (escape s) rest),
          unescape-escape s rest h,
        )
        refl
]

escape_inj :
    (s t x y : Bytes)
    → NoEscape y
    → escape s ++ 0 ∷ x ≡ escape t ++ 0 ∷ y
    → ((s ≡ t) × (x ≡ y)) ⊎ ((u : Text) × (t ≡ s ++ 0 ∷ u))
unfolding escape
escape_inj [] [] x y h e = inl (refl, cc)
escape_inj [] (b ∷ t) x y h e = inr (t, ground arith)
escape_inj (b ∷ s) [] x y h e = absurd (ground arith)
escape_inj (b ∷ s) (d ∷ t) x y h e = ground (arith, escape_inj s t x y h)

pub data Kind : Type 0 where
  stop blob text nest stamp unknown : Kind

kind : ℕ → Kind
kind code =
    if code == 0
    then stop
    else if code == 1
    then blob
    else if code == 2
    then text
    else if code == 5
    then nest
    else if code == 51
    then stamp
    else unknown

decode_stamp : Bytes → FdbVs
decode_stamp r = complete (take 10 r) (get_or r 10 0 * 256 + get_or r 11 0)

-- The elements up to the end of the bytes or of the nested tuple, and what follows.
decode : ℕ → Bytes → Option (List Element × Bytes)
unfolding kind unescape prepend decode_stamp of_list
decode zero b = none
decode (suc fuel) [] = some ([], [])
decode (suc fuel) (code ∷ r) = elim (kind code) [
  | stop ↦ some ([], r)
  | blob ↦ elim (unescape r) [ none ↦ none | some (s, q) ↦ prepend (bytes s) (decode fuel q) ]
  | text ↦ elim (unescape r) [ none ↦ none | some (s, q) ↦ prepend (string s) (decode fuel q) ]
  | nest ↦ elim (decode fuel r) [
    | none ↦ none
    | some (es, q) ↦ prepend (tuple (of_list es)) (decode fuel q)
  ]
  | stamp ↦ prepend (versionstamp (decode_stamp r)) (decode fuel (drop 12 r))
  | unknown ↦ none
]

unpack : Bytes → Result (List Element) Text
unfolding decode
unpack b = elim (decode (suc (length b)) b) [
  | none ↦ err []
  | some (es, []) ↦ ok es
  | some (es, _ ∷ _) ↦ err []
]

-- What decoding leaves: nothing, or what follows the end of the nested tuple.
abbrev Ends : Bytes → Bytes → Type 0
Ends rest q = ((rest ≡ []) × (q ≡ [])) ⊎ (rest ≡ 0 ∷ q)

NoEscape-pack :
    (xs : List Element) (rest q : Bytes)
    → All IsPackable xs
    → Ends rest q
    → NoEscape (pack xs ++ rest)
unfolding pack encode
NoEscape-pack [] rest q h (inl (r, _)) = rw r tt
NoEscape-pack [] rest q h (inr r) = rw r (omega arith)
NoEscape-pack (string s ∷ xs) rest q h e = omega arith
NoEscape-pack (bytes s ∷ xs) rest q h e = omega arith
NoEscape-pack (tuple s ∷ xs) rest q h e = omega arith
NoEscape-pack (versionstamp s ∷ xs) rest q h e = omega arith
NoEscape-pack (other s ∷ xs) rest q h e = omega arith

reassoc : (a b c : Bytes) → ((a ++ 0 ∷ []) ++ b) ++ c ≡ a ++ 0 ∷ (b ++ c)
reassoc a b c = simp append_assoc

length_shorter : (a b c : Bytes) → length (b ++ c) + length a < length (((a ++ 0 ∷ []) ++ b) ++ c)
length_shorter a b c = rw (reassoc a b c) (omega (arith, length-append a (0 ∷ (b ++ c))))

encode_all-pack : (es : Elements) → encode_all es ≡ pack (to_list es)
unfolding encode pack to_list
encode_all-pack nil = refl
encode_all-pack (cons e es) = ap (λ (k : Bytes). encode e ++ k) (encode_all-pack es)

All-to_list : (es : Elements) → ArePackable es → All IsPackable (to_list es)
unfolding to_list
All-to_list nil h = tt
All-to_list (cons e es) h = (h.0, All-to_list es h.1)

of_list-to_list : (es : Elements) → of_list (to_list es) ≡ es
unfolding of_list to_list
of_list-to_list nil = refl
of_list-to_list (cons e es) = ap (cons e) (of_list-to_list es)

stamp_parts :
    (tx : Bytes) (user : ℕ) (rest : Bytes)
    → length tx ≡ 10
    → user < 65536
    → (decode_stamp ((tx ++ be_bytes user) ++ rest) ≡ complete tx user)
      × (drop 12 ((tx ++ be_bytes user) ++ rest) ≡ rest)
unfolding decode_stamp
stamp_parts (a ∷ b ∷ c ∷ d ∷ e ∷ f ∷ g ∷ h ∷ i ∷ j ∷ []) user rest l u =
    (ap (complete (a ∷ b ∷ c ∷ d ∷ e ∷ f ∷ g ∷ h ∷ i ∷ j ∷ [])) (omega arith), refl)
stamp_parts _ user rest l u = absurd (omega arith)

module _ (fuel : ℕ) (r : Bytes) {q t : Bytes} {es : List Element}
    (next : decode fuel q ≡ some (es, t)) where
  decode_text :
      (s : Text) → unescape r ≡ some (s, q) → decode (suc fuel) (2 ∷ r) ≡ some (string s ∷ es, t)
  unfolding decode
  decode_text s h = ground arith

  decode_blob :
      (s : Bytes) → unescape r ≡ some (s, q) → decode (suc fuel) (1 ∷ r) ≡ some (bytes s ∷ es, t)
  unfolding decode
  decode_blob s h = ground arith

  decode_nest :
      (xs : List Element)
      → decode fuel r ≡ some (xs, q)
      → decode (suc fuel) (5 ∷ r) ≡ some (tuple (of_list xs) ∷ es, t)
  unfolding decode
  decode_nest xs h = ground arith

  decode_version :
      (v : FdbVs)
      → decode_stamp r ≡ v
      → drop 12 r ≡ q
      → decode (suc fuel) (51 ∷ r) ≡ some (versionstamp v ∷ es, t)
  unfolding decode
  decode_version v h k = ground arith

decode-pack :
    (fuel : ℕ) (xs : List Element) (rest q : Bytes)
    → All IsPackable xs
    → Ends rest q
    → length (pack xs ++ rest) < fuel
    → decode fuel (pack xs ++ rest) ≡ some (xs, q)
unfolding decode pack encode encode_stamp
decode-pack zero xs rest q h e l = absurd (omega arith)
decode-pack (suc fuel) [] rest q h (inl (r, s)) l = rw (r, s) refl
decode-pack (suc fuel) [] rest q h (inr r) l = rw r refl
decode-pack (suc fuel) (string s ∷ xs) rest q h e l =
    let ih =
      decode-pack fuel xs rest q h.1 e (omega (arith, length_shorter (escape s) (pack xs) rest)) in
    rw (reassoc (escape s) (pack xs) rest) (
      decode_text fuel (escape s ++ 0 ∷ (pack xs ++ rest)) ih s
        (unescape-escape s (pack xs ++ rest) (NoEscape-pack xs rest q h.1 e)))
decode-pack (suc fuel) (bytes s ∷ xs) rest q h e l =
    let ih =
      decode-pack fuel xs rest q h.1 e (omega (arith, length_shorter (escape s) (pack xs) rest)) in
    rw (reassoc (escape s) (pack xs) rest) (
      decode_blob fuel (escape s ++ 0 ∷ (pack xs ++ rest)) ih s
        (unescape-escape s (pack xs ++ rest) (NoEscape-pack xs rest q h.1 e)))
decode-pack (suc fuel) (tuple es ∷ xs) rest q h e l =
    let ih =
      decode-pack fuel xs rest q h.1 e
        (omega (arith, length_shorter (encode_all es) (pack xs) rest)) in
    let inner =
      decode-pack fuel (to_list es) (0 ∷ (pack xs ++ rest)) (pack xs ++ rest) (All-to_list es h.0)
        (inr refl)
        (rw (← encode_all-pack es) (
          omega (
            arith,
            length_shorter (encode_all es) (pack xs) rest,
            ap length (reassoc (encode_all es) (pack xs) rest),
          ))) in
    rw (reassoc (encode_all es) (pack xs) rest, encode_all-pack es)
      (decode_nest fuel _ ih (to_list es) inner
        ∙ ap (λ (k : Elements). some (tuple k ∷ xs, q)) (of_list-to_list es))
decode-pack (suc fuel) (versionstamp (complete tx user) ∷ xs) rest q h e l =
    let ih = decode-pack fuel xs rest q h.1 e (
      omega (
        arith,
        length-append (tx ++ be_bytes user) (pack xs ++ rest),
        ap length (append_assoc (tx ++ be_bytes user) (pack xs) rest),
      )) in
    let parts = stamp_parts tx user (pack xs ++ rest) h.0.0 h.0.2 in
    rw (append_assoc (tx ++ be_bytes user) (pack xs) rest)
      (decode_version fuel _ ih (complete tx user) parts.0 parts.1)
decode-pack (suc fuel) (versionstamp (incomplete user) ∷ xs) rest q h e l = absurd h.0
decode-pack (suc fuel) (other n ∷ xs) rest q h e l = absurd h.0

-- What the database makes of a key at commit. The offset counts from the front; here the stamp is
-- the end of the tuple, as in every key that the library builds.
stamp_key : Bytes → Bytes → Bytes
stamp_key version key = take (length key - 16) key ++ version ++ take 2 (drop (length key - 6) key)

pack_stamped : List Element → Bytes
unfolding pack
pack_stamped xs = pack xs ++ 0 ∷ 0 ∷ 0 ∷ 0 ∷ []

unfoldable pub plain : Codec
unfolding pack pack_stamped unpack stamp_key
plain = record {
  pack = pack;
  pack_with_versionstamp = pack_stamped;
  unpack = unpack;
  hex_encode = λ b. b;
  stamp = stamp_key;
}

pack-append : (xs ys : List Element) → pack (xs ++ ys) ≡ pack xs ++ pack ys
unfolding pack
pack-append [] ys = refl
pack-append (x ∷ xs) ys =
    ap (λ (k : Bytes). encode x ++ k) (pack-append xs ys)
    ∙ sym (append_assoc (encode x) (pack xs) (pack ys))

unpack-pack : (xs : List Element) → All IsPackable xs → unpack (pack xs) ≡ ok xs
unfolding unpack
unpack-pack xs h =
    let e = rw append-nil at (
      decode-pack (suc (length (pack xs))) xs [] [] h (inl (refl, refl))
        (omega (arith, length-append (pack xs) []))) in
    ground (arith, e)

escape-IsBytes : (s : Bytes) → IsBytes s → IsBytes (escape s)
unfolding escape
escape-IsBytes [] h = tt
escape-IsBytes (b ∷ s) h = ground (arith, escape-IsBytes s h.1)

mutual
  unfolding encode encode_all encode_stamp

  encode-IsBytes : (e : Element) → IsPackable e → IsBytes (encode e)
  encode-IsBytes (string s) h =
      (omega arith, All-append _ (escape s) (0 ∷ []) (escape-IsBytes s h) (omega arith))
  encode-IsBytes (bytes s) h =
      (omega arith, All-append _ (escape s) (0 ∷ []) (escape-IsBytes s h) (omega arith))
  encode-IsBytes (tuple es) h =
      (omega arith, All-append _ (encode_all es) (0 ∷ []) (encode_all-IsBytes es h) (omega arith))
  encode-IsBytes (versionstamp (complete tx user)) h =
      (omega arith, All-append _ tx (be_bytes user) h.1 (omega arith))
  encode-IsBytes (versionstamp (incomplete user)) h = absurd h
  encode-IsBytes (other n) h = absurd h

  encode_all-IsBytes : (es : Elements) → ArePackable es → IsBytes (encode_all es)
  encode_all-IsBytes nil h = tt
  encode_all-IsBytes (cons e es) h =
      All-append _ (encode e) (encode_all es) (encode-IsBytes e h.0) (encode_all-IsBytes es h.1)

pack-IsBytes : (xs : List Element) → All IsPackable xs → IsBytes (pack xs)
unfolding pack
pack-IsBytes [] h = tt
pack-IsBytes (x ∷ xs) h =
    All-append _ (encode x) (pack xs) (encode-IsBytes x h.0) (pack-IsBytes xs h.1)

string_code : (s : Text) → (r : Bytes) × (pack (string s ∷ []) ≡ 2 ∷ r)
unfolding pack encode
string_code s = (_, refl)

string_inj :
    (s t : Text) (x y : Bytes)
    → NoEscape y
    → pack (string s ∷ []) ++ x ≡ pack (string t ∷ []) ++ y
    → ((s ≡ t) × (x ≡ y)) ⊎ ((u : Text) × (t ≡ s ++ 0 ∷ u))
unfolding pack encode
string_inj s t x y h e =
    escape_inj s t x y h
      (sym (reassoc (escape s) [] x) ∙ ap (λ (k : Bytes). drop 1 k) e ∙ reassoc (escape t) [] y)

escape-append : (s t : Bytes) → escape (s ++ t) ≡ escape s ++ escape t
unfolding escape
escape-append [] t = refl
escape-append (b ∷ s) t = ground (arith, escape-append s t)

string_nul :
    (s u : Text) → (r : Bytes) × (pack (string (s ++ 0 ∷ u) ∷ []) ≡ pack (string s ∷ []) ++ 255 ∷ r)
unfolding pack encode escape
string_nul s u = (escape u ++ 0 ∷ [], simp (escape-append, append_assoc, append-nil))

-- The placeholder of ten bytes 0xFF.
abbrev placeholder : Bytes
placeholder = 255 ∷ 255 ∷ 255 ∷ 255 ∷ 255 ∷ 255 ∷ 255 ∷ 255 ∷ 255 ∷ 255 ∷ []

module _ (p : Bytes) (a b : ℕ) where
  -- A stamped key: what comes first, the placeholder, the batch index, the offset.
  abbrev stamped : Bytes
  stamped = p ++ 51 ∷ placeholder ++ a ∷ b ∷ 0 ∷ 0 ∷ 0 ∷ 0 ∷ []

  length-stamped : length stamped ≡ length p + 17
  length-stamped = omega (
    arith,
    length-append (p ++ 51 ∷ placeholder) (a ∷ b ∷ 0 ∷ 0 ∷ 0 ∷ 0 ∷ []),
    length-append p (51 ∷ placeholder),
  )

  take-stamped : take (length stamped - 16) stamped ≡ p ++ 51 ∷ []
  take-stamped =
      ap (take (length stamped - 16)) regroup
      ∙ take-append (p ++ 51 ∷ []) (placeholder ++ a ∷ b ∷ 0 ∷ 0 ∷ 0 ∷ 0 ∷ []) (length stamped - 16)
          (omega (arith, length-stamped, length-append p (51 ∷ [])))
    where
      regroup : stamped ≡ (p ++ 51 ∷ []) ++ (placeholder ++ a ∷ b ∷ 0 ∷ 0 ∷ 0 ∷ 0 ∷ [])
      regroup = simp append_assoc

  drop-stamped : drop (length stamped - 6) stamped ≡ a ∷ b ∷ 0 ∷ 0 ∷ 0 ∷ 0 ∷ []
  drop-stamped =
      drop-append (p ++ 51 ∷ placeholder) (a ∷ b ∷ 0 ∷ 0 ∷ 0 ∷ 0 ∷ []) (length stamped - 6)
        (omega (arith, length-stamped, length-append p (51 ∷ placeholder)))

  stamp_plain : (tx : Bytes) → stamp_key tx stamped ≡ p ++ 51 ∷ tx ++ a ∷ b ∷ []
  unfolding stamp_key
  stamp_plain tx =
      ap₂ (λ (u v : Bytes). u ++ tx ++ take 2 v) take-stamped drop-stamped ∙ simp append_assoc

stamp-pack :
    (tx : Bytes) (xs : List Element) (user : ℕ)
    → stamp_key tx (pack_stamped (xs ++ versionstamp (incomplete user) ∷ []))
      ≡ pack (xs ++ versionstamp (complete tx user) ∷ [])
unfolding pack_stamped pack encode encode_stamp
stamp-pack tx xs user =
    ap (stamp_key tx) key
    ∙ stamp_plain (pack xs) (user / 256 % 256) (user % 256) tx
    ∙ sym (pack-append xs (versionstamp (complete tx user) ∷ []) ∙ simp (append_assoc, append-nil))
  where
    key :
        pack_stamped (xs ++ versionstamp (incomplete user) ∷ [])
        ≡ stamped (pack xs) (user / 256 % 256) (user % 256)
    key =
        ap (λ (k : Bytes). k ++ 0 ∷ 0 ∷ 0 ∷ 0 ∷ [])
          (pack-append xs (versionstamp (incomplete user) ∷ []))
        ∙ simp append_assoc

pub plain_laws : CodecLaws plain
unfolding plain pack encode encode_stamp
plain_laws = record {
  pack-nil = refl;
  pack-append = pack-append;
  unpack-pack = unpack-pack;
  pack-IsBytes = pack-IsBytes;
  pack-versionstamp = λ tx user. append-nil (51 ∷ tx ++ be_bytes user);
  pack-string_code = string_code;
  pack-string_inj = string_inj;
  pack-string_nul = string_nul;
  stamp-pack = λ tx xs user h. stamp-pack tx xs user;
  stamp-zeros = λ tx. refl;
}
