-- ===== src/Json.antt =====
-- lib_src/json/mln_lang_json.c: the trees on both sides of the library. An array of a script is
-- what its two search trees hold, and a JSON value is what Melon's mln_json_t holds.
pub mod Melon
pub mod Encode
pub mod Decode
pub mod Laws
pub mod Encodable
pub mod RoundTrip
pub mod Process
mod Tests
use melang.Base.{
  ℕ, zero, suc, ◌+◌, Bool, true, false, List, [], ◌∷◌, Option, none, some, ◌==◌, bytes_eq,
  if◌then◌else◌,
}
use melang.Script.{Bytes, Result, ok, err, fault, missing, no_memory}

-- The values of a script, down to the elements of arrays. `null_string` and `null_array` are values
-- of these types whose pointer is NULL. `elems_index` holds an array's elements under their index,
-- `elems_key` under their key, which is `none` where the key is no string.
mutual
  pub data Datum : Type 0 where
    nil : Datum
    bool : ℕ → Datum
    int : ℕ → Datum
    real : ℕ → Datum
    string : Bytes → Datum
    null_string : Datum
    obj : Datum
    func : Datum
    array : Indexed → Keyed → Datum
    null_array : Datum

  pub data Indexed : Type 0 where
    no_index : Indexed
    index : ℕ → Datum → Indexed → Indexed

  pub data Keyed : Type 0 where
    no_key : Keyed
    key : Option Bytes → Datum → Keyed → Keyed

-- `elems_index` and `elems_key`.
pub record Array : Type 0 where
  pub elems_index : Indexed
  pub elems_key : Keyed

-- mln_json_t: its seven types and the one that is none of them.
mutual
  pub data Json : Type 0 where
    json_none : Json
    json_null : Json
    json_true : Json
    json_false : Json
    json_number : ℕ → Json
    json_string : Bytes → Json
    json_array : Items → Json
    json_obj : Members → Json

  pub data Items : Type 0 where
    no_items : Items
    item : Json → Items → Items

  pub data Members : Type 0 where
    no_members : Members
    pair : Bytes → Json → Members → Members

-- mln_rbtree_node_num of each tree.
abbrev pub index_num : Indexed → ℕ
index_num no_index = 0
index_num (index i d ix) = 1 + index_num ix

abbrev pub key_num : Keyed → ℕ
key_num no_key = 0
key_num (key k d ks) = 1 + key_num ks

-- What stands under an index, under a key, at a position of a JSON array, under a JSON key.
abbrev pub index_search : ℕ → Indexed → Option Datum
index_search i no_index = none
index_search i (index j d ix) = if i == j then some d else index_search i ix

abbrev pub same_key : Bytes → Option Bytes → Bool
same_key k none = false
same_key k (some l) = bytes_eq k l

-- The trees are binary, so a key stands once; the last of several would be the one that counts.
abbrev pub key_search : Bytes → Keyed → Option Datum
key_search k no_key = none
key_search k (key l d ks) = elim (key_search k ks) [
  | none ↦ if same_key k l then some d else none
  | some e ↦ some e
]

abbrev pub item_at : ℕ → Items → Option Json
item_at i no_items = none
item_at zero (item j js) = some j
item_at (suc i) (item j js) = item_at i js

abbrev pub member_search : Bytes → Members → Option Json
member_search k no_members = none
member_search k (pair l j ms) = if bytes_eq k l then some j else member_search k ms

-- The symbol of the one parameter of encode and of decode: NULL, no variable, or a variable.
pub data Argument : Type 0 where
  absent : Argument
  not_var : Argument
  given : Datum → Argument

abbrev pub with_argument : Argument → (Datum → Result Datum) → Result Datum
with_argument absent f = err (missing 0)
with_argument not_var f = fault
with_argument (given d) f = f d

-- A value that is made for the script, or refused.
abbrev pub created : Bool → Datum → Result Datum
created true d = ok d
created false d = err no_memory
