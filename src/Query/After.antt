-- ===== src/Query/After.antt =====
-- `after_range` holds the keys of a subspace whose stamp is strictly after the given one.
use dcb_layer.Common.{
  ℕ, ◌+◌, ◌*◌, ◌<◌, ◌≡◌, refl, sym, ap, ◌∙◌, ◌↔◌, true, false, not, [], ◌∷◌, ◌++◌, append_assoc,
  length, All-append, take, get_or, arith, Result, ok, >>=-eq_ok,
}
use dcb_layer.Common.Bytes.{Bytes, IsBytes, lt, le, lt-append, not_lt_trans}
use dcb_layer.Error.{Error}
use dcb_layer.Types.{Versionstamp}
use dcb_layer.Tuple.{versionstamp, Codec}
use dcb_layer.Tuple.Laws.{CodecLaws, be_bytes}
use dcb_layer.Fdb.Laws.{in_range}
use dcb_layer.Encoding.Keys.{vs_to_fdb}
use dcb_layer.Query.{strinc, after_range}
use dcb_layer.Query.Strinc.{StartsWith, strinc_lem}

pub record IsVersionstamp (vs : Versionstamp) : Type 0 where
  pub length_lem : length vs ≡ 12
  pub bytes_lem : IsBytes vs

be_bytes-pair : (k l : ℕ) → k < 256 → l < 256 → be_bytes (k * 256 + l) ≡ k ∷ l ∷ []
be_bytes-pair k l hk hl = ground arith

-- The 10 and 2 bytes of a position are the whole of it.
pub vs_to_fdb-bytes :
    (vs : Versionstamp)
    → IsVersionstamp vs
    → take 10 vs ++ be_bytes (get_or vs 10 0 * 256 + get_or vs 11 0) ≡ vs
vs_to_fdb-bytes (a ∷ b ∷ c ∷ d ∷ e ∷ f ∷ g ∷ h ∷ i ∷ j ∷ k ∷ l ∷ []) v =
    rw (be_bytes-pair k l (omega arith) (omega arith)) refl
vs_to_fdb-bytes _ v = absurd (omega arith)

-- Of byte strings of one length, the one with a NUL behind it is below the other exactly if it is
-- below without.
le-append_nul : (a b : Bytes) → length a ≡ length b → le (a ++ 0 ∷ []) b ≡ lt a b
unfolding le lt
le-append_nul [] [] h = refl
le-append_nul [] (y ∷ b) h = absurd (omega arith)
le-append_nul (x ∷ a) [] h = absurd (omega arith)
le-append_nul (x ∷ a) (y ∷ b) h = ground (arith, le-append_nul a b)

le-append : (p a b : Bytes) → le (p ++ a) (p ++ b) ≡ le a b
unfolding le
le-append p a b = ap not (lt-append p b a)

lt-prefix : (p s : Bytes) → lt (p ++ s) p ≡ false
unfolding lt
lt-prefix [] s = refl
lt-prefix (x ∷ p) s = ground (arith, lt-prefix p s)

in_range_iff : (b e k : Bytes) → (in_range (b, e) k ≡ true) ↔ ((le b k ≡ true) × (lt k e ≡ true))
unfolding in_range
in_range_iff b e k = ground arith

pair_eq :
    {b e : Bytes} {r : Bytes × Bytes}
    → ◌≡◌ {A = Result (Bytes × Bytes) Error} (ok (b, e)) (ok r)
    → r ≡ (b, e)
pair_eq h = cc

-- What is above a continued prefix is above the prefix.
le-prefix : (p s k : Bytes) → le (p ++ s) k ≡ true → le p k ≡ true
unfolding le
le-prefix p s k h = ground (arith, not_lt_trans p (p ++ s) k, lt-prefix p s)

module _ (c : Codec) (laws : CodecLaws c) (prefix : Bytes) (prefix_bytes : IsBytes prefix)
    (after : Versionstamp) (after_stamp : IsVersionstamp after) where
  -- The lower end of the range: the prefix, the stamp, and a NUL.
  after_begin :
      (prefix ++ c.pack (versionstamp (vs_to_fdb after) ∷ [])) ++ 0x00 ∷ []
      ≡ prefix ++ 0x33 ∷ (after ++ 0x00 ∷ [])
  unfolding vs_to_fdb
  after_begin =
      rw (laws.pack-versionstamp (take 10 after) _, vs_to_fdb-bytes after after_stamp)
        (append_assoc prefix (0x33 ∷ after) (0x00 ∷ []))

  after_range_parts :
      {r : Bytes × Bytes}
      → after_range c prefix after ≡ ok r
      → (end : Bytes) × (strinc prefix ≡ ok end)
        × (r ≡ (prefix ++ 0x33 ∷ (after ++ 0x00 ∷ []), end))
  unfolding after_range
  after_range_parts {r} h =
      let (end, p, q) = >>=-eq_ok (strinc prefix) _ h in (end, p, pair_eq (rw after_begin at q))

  -- For a codec that meets the laws, a prefix of bytes, and two positions of 12 bytes: the key made
  -- of the prefix, the code 0x33 and the second position is in the range of the prefix after the
  -- first position, where the prefix has a range, exactly if the second position is strictly
  -- greater.
  pub after_range_lem :
      (vs : Versionstamp) {r : Bytes × Bytes}
      → IsVersionstamp vs
      → after_range c prefix after ≡ ok r
      → (in_range r (prefix ++ 0x33 ∷ vs) ≡ true) ↔ (lt after vs ≡ true)
  after_range_lem vs {r} hv h =
      let (end, p, q) = after_range_parts h in
      let within =
        (in_range_iff prefix end _).0
          ((strinc_lem prefix _ prefix_bytes key_bytes p).1 (0x33 ∷ vs, refl)) in
      rw q (
        λ m. sym from_start ∙ ((in_range_iff _ end _).0 m).0,
        λ b. (in_range_iff _ end _).1 (from_start ∙ b, within.1),
      )
    where
      key_bytes : IsBytes (prefix ++ 0x33 ∷ vs)
      key_bytes = All-append _ prefix (0x33 ∷ vs) prefix_bytes (omega arith, hv.bytes_lem)

      from_start : le (prefix ++ 0x33 ∷ (after ++ 0x00 ∷ [])) (prefix ++ 0x33 ∷ vs) ≡ lt after vs
      from_start =
          le-append prefix (0x33 ∷ (after ++ 0x00 ∷ [])) (0x33 ∷ vs)
          ∙ le-append (0x33 ∷ []) (after ++ 0x00 ∷ []) vs
          ∙ le-append_nul after vs (after_stamp.length_lem ∙ sym hv.length_lem)

  -- Every key in the range has the prefix.
  pub after_range-StartsWith :
      (k : Bytes) {r : Bytes × Bytes}
      → IsBytes k
      → after_range c prefix after ≡ ok r
      → in_range r k ≡ true
      → StartsWith prefix k
  after_range-StartsWith k {r} hk h m =
      let (end, p, q) = after_range_parts h in
      (strinc_lem prefix k prefix_bytes hk p).0 (
        (in_range_iff prefix end k).1 (
          le-prefix prefix _ k ((in_range_iff _ end k).0 (rw q at m)).0,
          ((in_range_iff _ end k).0 (rw q at m)).1,
        ))
