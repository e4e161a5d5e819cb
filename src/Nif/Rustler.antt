-- ===== src/Nif/Rustler.antt =====
-- The crate `rustler`, which the binding calls and does not implement: the terms of the Erlang
-- runtime as a parameter, by the operations that the source calls, and what is documented of them.
use dcb_layer.Common.{ℕ, ◌<◌, ◌^◌, ◌≡◌, ◌≢◌, Bool, true, false, List, map, Result, ok}
use dcb_layer.Common.Bytes.{Bytes, Text, text}

-- `rustler::Error`, with the variant that the source names; `other` stands for the rest.
pub data NifError : Type 0 where
  bad_arg : NifError
  other : ℕ → NifError

abbrev pub NifResult : Type 0 → Type 0
NifResult A = Result A NifError

-- The encoders of atoms, strings, binaries, integers, lists and pairs, the operations on maps and
-- atoms, and `decode` at the types that the source decodes.
pub record Terms : Type 1 where
  pub Term : Type 0
  pub atom : Text → Term
  pub string : Text → Term
  pub binary : Bytes → Term
  pub integer : ℕ → Term
  pub list : List Term → Term
  pub pair : Term → Term → Term
  pub map_new : Term
  pub map_put : Term → Term → Term → NifResult Term
  pub map_get : Term → Term → NifResult Term
  pub is_atom : Term → Bool
  pub atom_to_string : Term → NifResult Text
  pub decode_string : Term → NifResult Text
  pub decode_strings : Term → NifResult (List Text)
  pub decode_binary : Term → NifResult Bytes
  pub decode_list : Term → NifResult (List Term)
  pub decode_usize : Term → NifResult ℕ
  pub decode_bool : Term → NifResult Bool

-- Booleans are atoms.
abbrev pub bool_name : Bool → Text
bool_name true = text "true"
bool_name false = text "false"

pub record TermsLaws (t : Terms) : Type 1 where
  -- What is decoded is what was encoded.
  pub decode-string : (s : Text) → t.decode_string (t.string s) ≡ ok s
  pub decode-strings : (ss : List Text) → t.decode_strings (t.list (map t.string ss)) ≡ ok ss
  pub decode-binary : (b : Bytes) → t.decode_binary (t.binary b) ≡ ok b
  pub decode-list : (ts : List t.Term) → t.decode_list (t.list ts) ≡ ok ts
  pub decode-usize : (n : ℕ) → n < 2 ^ 64 → t.decode_usize (t.integer n) ≡ ok n
  pub decode-bool : (b : Bool) → t.decode_bool (t.atom (bool_name b)) ≡ ok b
  pub atom_to_string-atom : (s : Text) → t.atom_to_string (t.atom s) ≡ ok s
  pub is_atom-atom : (s : Text) → t.is_atom (t.atom s) ≡ true
  pub is_atom-binary : (b : Bytes) → t.is_atom (t.binary b) ≡ false
  -- Atoms are equal only by their names, and no pair is an atom.
  pub atom-inj : (s u : Text) → t.atom s ≡ t.atom u → s ≡ u
  pub pair-ne_atom : (x y : t.Term) (s : Text) → t.pair x y ≢ t.atom s
  -- Maps with atoms as keys.
  pub IsMap : t.Term → Type 0
  pub map_new-IsMap : IsMap t.map_new
  pub map_put-IsMap :
      (m : t.Term) (s : Text) (v : t.Term)
      → IsMap m
      → (m' : t.Term) × (t.map_put m (t.atom s) v ≡ ok m') × IsMap m'
  pub map_get-put :
      (m : t.Term) (s : Text) (v m' : t.Term)
      → t.map_put m (t.atom s) v ≡ ok m'
      → t.map_get m' (t.atom s) ≡ ok v
  pub map_get-other :
      (m : t.Term) (s : Text) (v m' : t.Term) (u : Text)
      → t.map_put m (t.atom s) v ≡ ok m'
      → s ≢ u
      → t.map_get m' (t.atom u) ≡ t.map_get m (t.atom u)
