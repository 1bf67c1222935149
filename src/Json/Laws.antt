-- ===== src/Json/Laws.antt =====
-- What the json library relies on: Melon's documented behaviour of JSON arrays and objects and of a
-- script's arrays, where every allocation is granted.
use melang.Base.{ℕ, ◌≡◌, false, Option, none, some, ◌==◌, bytes_eq}
use melang.Script.{Bytes}
use melang.Json.{
  Datum, nil, Array, no_index, no_key, Json, Items, no_items, item, Members, no_members, pair,
  index_search, key_search, member_search,
}
use melang.Json.Melon.{Melon, Slot, next, at_index, at_key}

abbrev pub snoc : Items → Json → Items
snoc no_items j = item j no_items
snoc (item k ks) j = item k (snoc ks j)

-- No key stands twice.
abbrev pub Unique : Members → Type 0
Unique no_members = Unit
Unique (pair k j ms) = (member_search k ms ≡ none) × Unique ms

abbrev pub empty : Array
empty = record { elems_index = no_index; elems_key = no_key }

abbrev pub lookup : Slot → Array → Option Datum
lookup next a = none
lookup (at_index i) a = index_search i a.elems_index
lookup (at_key k) a = key_search k a.elems_key

-- The array `b` is `a` with `d` under the slot: no other index or key of the slot's kind changes,
-- and an index leaves the keys alone.
abbrev pub Puts : Slot → Datum → Array → Array → Type 0
Puts next d a b = Unit
Puts (at_index i) d a b =
    (index_search i b.elems_index ≡ some d)
    × ((l : ℕ) → (l == i) ≡ false → index_search l b.elems_index ≡ index_search l a.elems_index)
    × (b.elems_key ≡ a.elems_key)
Puts (at_key k) d a b =
    (key_search k b.elems_key ≡ some d)
    × ((l : Bytes) → bytes_eq l k ≡ false → key_search l b.elems_key ≡ key_search l a.elems_key)

-- The JSON object `new` is `old` with `j` under the key.
abbrev pub Updates : Bytes → Json → Members → Members → Type 0
Updates k j old new =
    (member_search k new ≡ some j)
    × ((l : Bytes) → bytes_eq l k ≡ false → member_search l new ≡ member_search l old)
    × (Unique old → Unique new)

-- mln_lang_array_get makes an element that is nil, or finds the one that is there; then
-- mln_lang_var_value_set sets it.
pub record IsMelon (melon : Melon) : Type 0 where
  pub json_array_init_law : melon.json_array_init ≡ some no_items
  pub json_array_append_law :
      (j : Json) (items : Items) → melon.json_array_append j items ≡ some (snoc items j)
  pub json_obj_init_law : melon.json_obj_init ≡ some no_members
  pub json_obj_update_law :
      (k : Bytes) (j : Json) (ms : Members)
      → (new : Members) × (melon.json_obj_update k j ms ≡ some new) × Updates k j ms new
  pub array_new_law : melon.array_new ≡ some empty
  pub array_get_law :
      (slot : Slot) (a : Array)
      → (b : Array) × (melon.array_get slot a ≡ some b)
        × (lookup slot a ≡ none → Puts slot nil a b)
        × ((d : Datum) → (c : Array) × (melon.value_set slot d b ≡ some c) × Puts slot d a c)
