-- ===== src/Json/Encode.antt =====
-- lib_src/json/mln_lang_json.c: encode. The library walks the array and builds the JSON tree, of
-- which Melon makes the text.
use melang.Base.{ℕ, zero, suc, Bool, true, false, Option, none, some, ◌>>=◌, ◌==◌, if◌then◌else◌}
use melang.Script.{Bytes, Result, err, invalid_argument, no_memory}
use melang.Json.{
  Datum, nil, bool, int, real, string, null_string, obj, func, array, null_array, Indexed, no_index,
  index, Keyed, no_key, key, Json, json_none, json_null, json_true, json_false, json_number,
  json_string, json_array, json_obj, Items, Members, index_num, key_num, Argument, with_argument,
  created,
}
use melang.Json.Melon.{Melon}

-- Each element of elems_index with what it becomes, `none` where that fails.
pub data Made : Type 0 where
  no_made : Made
  made : ℕ → Option Json → Made → Made

abbrev pub made_search : ℕ → Made → Option Json
made_search i no_made = none
made_search i (made k j ms) = if i == k then j else made_search i ms

abbrev pub is_none : Json → Bool
is_none json_none = true
is_none j = false

module _ (melon : Melon) where
  -- mln_json_is_none(&j) skips the element.
  unfoldable pub append_unless_none : Json → Items → Option Items
  append_unless_none j items = if is_none j then some items else melon.json_array_append j items

  -- The loop `for (i = 0; i < n; ++i)`, with `n` rounds left.
  unfoldable pub items_loop : ℕ → ℕ → Made → Items → Option Items
  unfolding append_unless_none
  items_loop zero i ms items = some items
  items_loop (suc n) i ms items = do
    j ← made_search i ms
    longer ← append_unless_none j items
    items_loop n (suc i) ms longer

  unfoldable pub update_unless_none : Bytes → Json → Members → Option Members
  update_unless_none k j members =
      if is_none j then some members else melon.json_obj_update k j members

  unfoldable pub generate_array_of : ℕ → Made → Option Json
  unfolding items_loop
  generate_array_of n ms = do
    items ← melon.json_array_init
    full ← items_loop n 0 ms items
    some (json_array full)

  unfoldable pub generate_obj : (Members → Option Members) → Option Json
  generate_obj iteration = do
    members ← melon.json_obj_init
    full ← iteration members
    some (json_obj full)

  -- An array without keys is a JSON array, one in which each element has a key an object. What the
  -- elements become is at hand: `ms` for elems_index, `iteration` for elems_key.
  unfoldable pub generate : Indexed → Keyed → Made → (Members → Option Members) → Option Json
  unfolding generate_array_of generate_obj
  generate ix no_key ms iteration = generate_array_of (index_num ix) ms
  generate ix (key k d ks) ms iteration =
      if index_num ix == key_num (key k d ks) then generate_obj iteration else none

  unfoldable mutual
    unfolding generate update_unless_none

    -- The switch on the type of an element.
    pub generate_value : Datum → Option Json
    generate_value nil = some json_null
    generate_value (bool b) = some (if b == 0 then json_false else json_true)
    generate_value (int i) = some (json_number (melon.double_of i))
    generate_value (real f) = some (json_number f)
    generate_value (string s) = some (json_string s)
    generate_value null_string = none
    generate_value obj = none
    generate_value func = none
    generate_value (array ix ks) = generate ix ks (generate_each ix) (λ ms. iterate ks ms)
    generate_value null_array = none

    pub generate_each : Indexed → Made
    generate_each no_index = no_made
    generate_each (index i d ix) = made i (generate_value d) (generate_each ix)

    -- The iteration over elems_key, which passes over keys that are no strings.
    pub iterate : Keyed → Members → Option Members
    iterate no_key members = some members
    iterate (key none d ks) members = iterate ks members
    iterate (key (some k) d ks) members = do
      j ← generate_value d
      more ← update_unless_none k j members
      iterate ks more

  -- What the tree becomes: its text, or false where there is no tree.
  unfoldable pub encoded : Bool → Option Json → Result Datum
  encoded granted none = created granted (bool 0)
  encoded granted (some j) = elim (melon.json_encode j) [
    | none ↦ err no_memory
    | some s ↦ created granted (string s)
  ]

  unfoldable pub encode_array : Bool → Datum → Result Datum
  unfolding generate_value encoded
  encode_array granted (array ix ks) = encoded granted (generate_value (array ix ks))
  encode_array granted null_array = err (invalid_argument 0)
  encode_array granted d = created granted (bool 0)

  -- `granted` says whether the value that it returns is.
  unfoldable pub encode_process : Bool → Argument → Result Datum
  unfolding encode_array
  encode_process granted arg = with_argument arg (encode_array granted)
