-- ===== src/Tests/Binding.antt =====
-- Terms as a data type, with the documented laws, and the theorems of the binding applied to them.
use dcb_layer.Common.{
  ℕ, ◌<◌, ◌^◌, ltb, ◌≡◌, ◌≢◌, refl, ap, ◌↔◌, Bool, true, false, some, List, [], ◌∷◌, map, ◌>>=◌, ok,
  err, collect, if◌then◌else◌, arith,
}
use dcb_layer.Common.Bytes.{Bytes, Text, text, eq, eq_iff}
use dcb_layer.Error.{Message, append_condition_failed}
use dcb_layer.Append.{append}
use dcb_layer.Nif.{
  decode_vs, decode_event, encode_stored_event, encode_all, encode_dcb_error, dcb_store_append,
  answer, vs_answer,
}
use dcb_layer.Nif.Rustler.{bad_arg, bool_name, NifResult, Terms, TermsLaws}
use dcb_layer.Nif.RoundTrip.{decode_event-encode_stored_event, dcb_store_append-encode_all}
use dcb_layer.Nif.Errors.{encode_dcb_error-conflict}
use dcb_layer.Tests.Plain.{plain}
use dcb_layer.Tests.Scene.{stamp_1, stored_1, history, event_1, database, namespace}

mutual
  pub data PlainTerm : Type 0 where
    atom : Text → PlainTerm
    binary : Bytes → PlainTerm
    integer : ℕ → PlainTerm
    pair : PlainTerm → PlainTerm → PlainTerm
    list : PlainList → PlainTerm
    dict : PlainDict → PlainTerm

  pub data PlainList : Type 0 where
    nil : PlainList
    cons : PlainTerm → PlainList → PlainList

  pub data PlainDict : Type 0 where
    empty : PlainDict
    entry : Text → PlainTerm → PlainDict → PlainDict

abbrev pub of_list : List PlainTerm → PlainList
of_list [] = nil
of_list (x ∷ xs) = cons x (of_list xs)

abbrev to_list : PlainList → List PlainTerm
to_list nil = []
to_list (cons x xs) = x ∷ to_list xs

abbrev binary_of : PlainTerm → NifResult Bytes
binary_of (binary b) = ok b
binary_of _ = err bad_arg

abbrev list_of : PlainTerm → NifResult (List PlainTerm)
list_of (list xs) = ok (to_list xs)
list_of _ = err bad_arg

abbrev name_of : PlainTerm → NifResult Text
name_of (atom s) = ok s
name_of _ = err bad_arg

abbrev find : Text → PlainDict → NifResult PlainTerm
find k empty = err bad_arg
find k (entry s x d) = let rest = find k d in if eq s k then ok x else rest

abbrev put : PlainTerm → PlainTerm → PlainTerm → NifResult PlainTerm
put (dict d) (atom s) x = ok (dict (entry s x d))
put _ _ _ = err bad_arg

abbrev get : PlainTerm → PlainTerm → NifResult PlainTerm
get (dict d) (atom s) = find s d
get _ _ = err bad_arg

abbrev is_atom_term : PlainTerm → Bool
is_atom_term (atom s) = true
is_atom_term _ = false

-- A 64-bit integer.
abbrev size_of : PlainTerm → NifResult ℕ
size_of (integer n) = if ltb n (2 ^ 64) then ok n else err bad_arg
size_of _ = err bad_arg

abbrev bool_of : Text → NifResult Bool
bool_of s =
    if eq s (text "true") then ok true else (if eq s (text "false") then ok false else err bad_arg)

abbrev pub terms : Terms
terms = record {
  Term = PlainTerm;
  atom = λ s. atom s;
  string = λ s. binary s;
  binary = λ b. binary b;
  integer = λ n. integer n;
  list = λ xs. list (of_list xs);
  pair = λ x y. pair x y;
  map_new = dict empty;
  map_put = put;
  map_get = get;
  is_atom = is_atom_term;
  atom_to_string = name_of;
  decode_string = binary_of;
  decode_strings = λ x. (list_of x >>= λ xs. collect binary_of xs);
  decode_binary = binary_of;
  decode_list = list_of;
  decode_usize = size_of;
  decode_bool = λ x. (name_of x >>= bool_of);
}

to_list-of_list : (xs : List PlainTerm) → to_list (of_list xs) ≡ xs
to_list-of_list [] = refl
to_list-of_list (x ∷ xs) = ap (◌∷◌ x) (to_list-of_list xs)

collect-binary : (ss : List Text) → collect binary_of (map (λ s. binary s) ss) ≡ ok ss
collect-binary [] = refl
collect-binary (s ∷ ss) = rw (collect-binary ss) refl

abbrev IsDict : PlainTerm → Type 0
IsDict (dict d) = Unit
IsDict _ = ⊥

put-IsDict :
    (m : PlainTerm) (s : Text) (v : PlainTerm)
    → IsDict m
    → (m' : PlainTerm) × (put m (atom s) v ≡ ok m') × IsDict m'
put-IsDict (dict d) s v i = (dict (entry s v d), refl, tt)
put-IsDict _ s v i = absurd i

get-put :
    (m : PlainTerm) (s : Text) (v m' : PlainTerm)
    → put m (atom s) v ≡ ok m'
    → get m' (atom s) ≡ ok v
get-put (dict d) s v m' e =
    let same : m' ≡ dict (entry s v d) = cc in rw (same, (eq_iff s s).1 refl) refl
get-put _ s v m' e = absurd cc

eq-false : (s u : Text) → s ≢ u → eq s u ≡ false
eq-false s u ne = ground (arith, eq_iff s u)

get-other :
    (m : PlainTerm) (s : Text) (v m' : PlainTerm) (u : Text)
    → put m (atom s) v ≡ ok m'
    → s ≢ u
    → get m' (atom u) ≡ get m (atom u)
get-other (dict d) s v m' u e ne =
    let same : m' ≡ dict (entry s v d) = cc in rw (same, eq-false s u ne) refl
get-other _ s v m' u e ne = absurd cc

fits : (n : ℕ) → n < 2 ^ 64 → ltb n (2 ^ 64) ≡ true
fits n h = ground arith

bool_back : (b : Bool) → bool_of (bool_name b) ≡ ok b
unfolding eq
bool_back true = refl
bool_back false = refl

pub terms_laws : TermsLaws terms
terms_laws = record {
  decode-string = λ s. refl;
  decode-strings = λ ss. rw (to_list-of_list (map (λ s. binary s) ss)) (collect-binary ss);
  decode-binary = λ b. refl;
  decode-list = λ ts. ap (λ (l : List PlainTerm). ok l) (to_list-of_list ts);
  decode-usize = λ n h. rw (fits n h) refl;
  decode-bool = λ b. bool_back b;
  atom_to_string-atom = λ s. refl;
  is_atom-atom = λ s. refl;
  is_atom-binary = λ b. refl;
  atom-inj = λ s u e. cc;
  pair-ne_atom = λ x y s e. absurd cc;
  IsMap = IsDict;
  map_new-IsMap = tt;
  map_put-IsMap = put-IsDict;
  map_get-put = get-put;
  map_get-other = get-other;
}

-- A rendering of messages.
abbrev pub render : Message → Text
render m = text "m"

decode_event-encode_stored_event_example :
    (term : PlainTerm) × (encode_stored_event terms render stored_1 ≡ some term)
    × (decode_event terms render term ≡ ok event_1)
    × ((get term (atom (text "position")) >>= decode_vs terms render) ≡ ok stamp_1)
decode_event-encode_stored_event_example =
    decode_event-encode_stored_event terms terms_laws render stored_1 refl

encode_dcb_error-conflict_example :
    (encode_dcb_error terms render append_condition_failed ≡ atom (text "append_condition_failed"))
    ↔ (append_condition_failed ≡ append_condition_failed)
encode_dcb_error-conflict_example =
    encode_dcb_error-conflict terms terms_laws render append_condition_failed

dcb_store_append-encode_all_example :
    (list_1 : List PlainTerm) × (encode_all terms render history ≡ some list_1)
    × (dcb_store_append terms render plain 1 database
          (record { namespace = namespace })
          (list (of_list list_1))
          (list nil)
        ≡ answer
            (append plain 1 database (record { namespace = namespace }) (event_1 ∷ []) [])
            (vs_answer terms render))
dcb_store_append-encode_all_example =
    dcb_store_append-encode_all terms terms_laws render plain 1 database
      (record { namespace = namespace }) history (refl, tt)
