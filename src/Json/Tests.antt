-- ===== src/Json/Tests.antt =====
-- encode and decode on a concrete array, with a concrete Melon that keeps the laws: an integer's
-- double is twice the integer, so an odd double is no integer.
use melang.Base.{
  ◌*◌, ◌/◌, ◌≡◌, refl, true, false, List, [], ◌∷◌, Option, none, some, ◌==◌, bytes_eq, bytes_eq→eq,
  bytes_eq_refl, if◌then◌else◌, arith, Bool-cases, inl, inr, ap, subst, ◌∙◌,
}
use melang.Script.{Bytes, ok}
use melang.Json.{
  Datum, nil, bool, real, string, array, Array, Indexed, no_index, index, Keyed, no_key, key,
  index_num, Json, json_null, no_items, Members, no_members, pair, key_search, member_search, given,
}
use melang.Json.Melon.{Melon, Slot, next, at_index, at_key}
use melang.Json.Encode.{generate_value, encode_process}
use melang.Json.Decode.{decode_process}
use melang.Json.Encodable.{encodable, holds_from}
use melang.Json.Laws.{IsMelon, snoc, Unique, empty, lookup, Puts}
use melang.Json.RoundTrip.{Step, at, canonical}
use melang.Json.Process.{document, encode_process-answers, decode_process-encode_process}

abbrev update : Bytes → Json → Members → Members
update k j no_members = pair k j no_members
update k j (pair l i ms) = if bytes_eq k l then pair l j ms else pair l i (update k j ms)

abbrev key_snoc : Keyed → Bytes → Datum → Keyed
key_snoc no_key k d = key (some k) d no_key
key_snoc (key l e ks) k d = key l e (key_snoc ks k d)

abbrev found_or : Option Datum → Array → Array → Array
found_or none a b = b
found_or (some d) a b = a

abbrev set_at : Slot → Datum → Array → Array
set_at next d a = record a { elems_index = index (index_num a.elems_index) d a.elems_index }
set_at (at_index i) d a = record a { elems_index = index i d a.elems_index }
set_at (at_key k) d a = record {
  elems_index = index (index_num a.elems_index) d a.elems_index;
  elems_key = key_snoc a.elems_key k d;
}

-- 7 ↦ the boolean 2, 4 ↦ an integer, and an array in an array.
abbrev inner : Datum
inner = array (index 0 (real 5) (index 1 nil no_index)) no_key

abbrev outer_index : Indexed
outer_index = index 0 (bool 2) (index 1 inner no_index)

abbrev outer_key : Keyed
outer_key = key (some (97 ∷ [])) (bool 2) (key (some (98 ∷ [])) inner no_key)

abbrev small : Json → Melon
small tree = record {
  json_array_init = some no_items;
  json_array_append = λ j items. some (snoc items j);
  json_obj_init = some no_members;
  json_obj_update = λ k j ms. some (update k j ms);
  json_encode = λ j. some (123 ∷ []);
  json_decode = λ s. some tree;
  array_new = some empty;
  array_get = λ slot a. some (found_or (lookup slot a) a (set_at slot nil a));
  value_set = λ slot d a. some (set_at slot d a);
  double_of = λ i. i * 2;
  s64_of = λ f. f / 2;
  doubles_equal = λ f g. f == g;
}

key_search-snoc : (ks : Keyed) (k : Bytes) (d : Datum) → key_search k (key_snoc ks k d) ≡ some d
key_search-snoc no_key k d = ground (arith, bytes_eq_refl k)
key_search-snoc (key l e ks) k d = ground (arith, key_search-snoc ks k d)

key_search-other :
    (ks : Keyed) (k l : Bytes) (d : Datum)
    → bytes_eq l k ≡ false
    → key_search l (key_snoc ks k d) ≡ key_search l ks
key_search-other no_key k l d h = ground (arith, h)
key_search-other (key m e ks) k l d h = ground (arith, key_search-other ks k l d h)

set_at-Puts : (slot : Slot) (d : Datum) (a : Array) → Puts slot d a (set_at slot d a)
set_at-Puts next d a = tt
set_at-Puts (at_index i) d a = (ground arith, (λ l ne. ground (arith, ne)), refl)
set_at-Puts (at_key k) d a =
    (key_search-snoc a.elems_key k d, (λ l ne. key_search-other a.elems_key k l d ne))

update-found : (k : Bytes) (j : Json) (ms : Members) → member_search k (update k j ms) ≡ some j
update-found k j no_members = ground (arith, bytes_eq_refl k)
update-found k j (pair l i ms) = ground (arith, update-found k j ms)

update-other :
    (k l : Bytes) (j : Json) (ms : Members)
    → bytes_eq l k ≡ false
    → member_search l (update k j ms) ≡ member_search l ms
update-other k l j no_members h = ground (arith, h)
update-other k l j (pair m i ms) h = elim (Bool-cases (bytes_eq k m)) [
  | inl same ↦ ground (arith, same, h, subst (λ x. bytes_eq l x ≡ false) (bytes_eq→eq k m same) h)
  | inr other ↦ ground (arith, other, update-other k l j ms h)
]

bytes_eq-swap : (k m : Bytes) → bytes_eq k m ≡ false → bytes_eq m k ≡ false
bytes_eq-swap k m h = elim (Bool-cases (bytes_eq m k)) [
  | inl same ↦ absurd (
      let e : bytes_eq k k ≡ false = subst (λ x. bytes_eq k x ≡ false) (bytes_eq→eq m k same) h in
      ground (arith, e, bytes_eq_refl k))
  | inr other ↦ other
]

update-Unique : (k : Bytes) (j : Json) (ms : Members) → Unique ms → Unique (update k j ms)
update-Unique k j no_members u = (refl, tt)
update-Unique k j (pair m i ms) (absent, u) = elim (Bool-cases (bytes_eq k m)) [
  | inl same ↦ rw same (absent, u)
  | inr other ↦
      rw other (update-other k m j ms (bytes_eq-swap k m other) ∙ absent, update-Unique k j ms u)
]

Puts-after :
    (slot : Slot) (d e : Datum) (a b c : Array)
    → Puts slot e a b
    → Puts slot d b c
    → Puts slot d a c
Puts-after next d e a b c p q = tt
Puts-after (at_index i) d e a b c (f, o, k) (g, p, m) = (g, (λ l h. p l h ∙ o l h), m ∙ k)
Puts-after (at_key k) d e a b c (f, o) (g, p) = (g, (λ l h. p l h ∙ o l h))

set_at-found_or :
    (slot : Slot) (d : Datum) (a : Array) (o : Option Datum)
    → Puts slot d a (set_at slot d (found_or o a (set_at slot nil a)))
set_at-found_or slot d a (some e) = set_at-Puts slot d a
set_at-found_or slot d a none =
    let b = set_at slot nil a in
    Puts-after slot d nil a b (set_at slot d b) (set_at-Puts slot nil a) (set_at-Puts slot d b)

found_or-Puts :
    (slot : Slot) (a : Array) (o : Option Datum)
    → o ≡ none
    → Puts slot nil a (found_or o a (set_at slot nil a))
found_or-Puts slot a none h = set_at-Puts slot nil a
found_or-Puts slot a (some e) h = absurd (ground (arith, h))

small-IsMelon : (tree : Json) → IsMelon (small tree)
small-IsMelon tree = record {
  json_array_init_law = refl;
  json_array_append_law = λ j items. refl;
  json_obj_init_law = refl;
  json_obj_update_law = λ k j ms. (
    update k j ms,
    refl,
    (update-found k j ms, (λ l h. update-other k l j ms h), update-Unique k j ms),
  );
  array_new_law = refl;
  array_get_law = λ slot a. (
    found_or (lookup slot a) a (set_at slot nil a),
    refl,
    (λ h. found_or-Puts slot a (lookup slot a) h),
    (λ d. (
      set_at slot d (found_or (lookup slot a) a (set_at slot nil a)),
      refl,
      set_at-found_or slot d a (lookup slot a),
    )),
  );
}

abbrev tree_of : Option Json → Json
tree_of none = json_null
tree_of (some j) = j

abbrev outer : Datum
outer = array outer_index outer_key

-- The tree that encode builds of `outer`; it does not depend on the codec.
abbrev outer_tree : Json
outer_tree = tree_of (generate_value (small json_null) outer)

abbrev melon : Melon
melon = small outer_tree

outer_tree_made : (j : Json) → generate_value melon outer ≡ some j → outer_tree ≡ j
unfolding generate_value
outer_tree_made j h = ground (arith, h)

outer-encodable : encodable outer ≡ true
unfolding encodable holds_from
outer-encodable = refl

encode_process-answers_example :
    (document outer ≡ true
      → (s : Bytes) × (encode_process melon true (given outer) ≡ ok (string s)))
    × (document outer ≡ false → encode_process melon true (given outer) ≡ ok (bool 0))
encode_process-answers_example =
    encode_process-answers melon (small-IsMelon outer_tree) outer (λ j. (123 ∷ [], refl))
      (λ e. ground (arith, e))

decode_process-encode_process_example :
    (s : Bytes) × (d : Datum) × (encode_process melon true (given outer) ≡ ok (string s))
    × (decode_process melon true (given (string s)) ≡ ok d)
    × ((p : List Step) (x : Datum) → at p outer ≡ some x → at p d ≡ some (canonical melon x))
decode_process-encode_process_example =
    decode_process-encode_process melon (small-IsMelon outer_tree) outer_index outer_key
      outer-encodable (λ j h. (123 ∷ [], refl, ap some (outer_tree_made j h)))
