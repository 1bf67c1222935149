-- ===== src/Json/Decode.antt =====
-- lib_src/json/mln_lang_json.c: decode. Melon reads the text into a JSON tree, and the library fills a
-- new array from it.
use melang.Base.{ℕ, ◌+◌, Bool, Option, none, some, ◌>>=◌, if◌then◌else◌}
use melang.Script.{Bytes, Result, ok, err, invalid_type, invalid_argument, no_memory}
use melang.Json.{
  Datum, nil, bool, int, real, string, null_string, array, Array, Json, json_none, json_null,
  json_true, json_false, json_number, json_string, json_array, json_obj, Items, no_items, item,
  Members, no_members, pair, Argument, with_argument, created,
}
use melang.Json.Melon.{Melon, Slot, next, at_index, at_key}

abbrev pub whole : Array → Datum
whole a = array a.elems_index a.elems_key

module _ (melon : Melon) where
  -- A number that is an integer of 64 bits becomes one.
  unfoldable pub number : ℕ → Datum
  number num =
      if melon.doubles_equal (melon.double_of (melon.s64_of num)) num
      then int (melon.s64_of num)
      else real num

  -- mln_lang_array_get and mln_lang_var_value_set: an element is made or found, then set.
  unfoldable pub assign : Slot → Datum → Array → Option Array
  assign slot d a = do b ← melon.array_get slot a; melon.value_set slot d b

  -- What a JSON value puts under a slot: none puts nothing, null only makes the element.
  unfoldable pub put_json : Slot → Json → Option Datum → Array → Option Array
  unfolding assign
  put_json slot json_none d a = some a
  put_json slot json_null d a = melon.array_get slot a
  put_json slot j made a = do d ← made; assign slot d a

  unfoldable mutual
    unfolding number put_json

    -- The value made of a JSON value before its element is.
    pub decode_value : Json → Option Datum
    decode_value json_none = some nil
    decode_value json_null = some nil
    decode_value json_true = some (bool 1)
    decode_value json_false = some (bool 0)
    decode_value (json_number num) = some (number num)
    decode_value (json_string s) = some (string s)
    decode_value (json_array items) = do
      new ← melon.array_new
      full ← decode_array 0 items new
      some (whole full)
    decode_value (json_obj members) = do
      new ← melon.array_new
      full ← decode_obj members new
      some (whole full)

    pub decode_array : ℕ → Items → Array → Option Array
    decode_array i no_items a = some a
    decode_array i (item j js) a = do
      b ← put_json (at_index i) j (decode_value j) a
      decode_array (i + 1) js b

    pub decode_obj : Members → Array → Option Array
    decode_obj no_members a = some a
    decode_obj (pair k j ms) a = do b ← put_json (at_key k) j (decode_value j) a; decode_obj ms b

  -- The array that decode returns: an object's or an array's elements are its own, another value is
  -- its one element.
  unfoldable pub decode_top : Json → Array → Option Array
  unfolding put_json decode_value
  decode_top (json_obj members) a = decode_obj members a
  decode_top (json_array items) a = decode_array 0 items a
  decode_top j a = put_json next j (decode_value j) a

  unfoldable pub or_false : Bool → Option Array → Result Datum
  or_false granted none = created granted (bool 0)
  or_false granted (some a) = ok (whole a)

  unfoldable pub decode_text : Bool → Bytes → Array → Result Datum
  unfolding decode_top or_false
  decode_text granted s a = elim (melon.json_decode s) [
    | none ↦ created granted (bool 0)
    | some j ↦ or_false granted (decode_top j a)
  ]

  unfoldable pub decode_string_arg : Bool → Datum → Result Datum
  unfolding decode_text
  decode_string_arg granted (string s) = elim melon.array_new [
    | none ↦ err no_memory
    | some a ↦ decode_text granted s a
  ]
  decode_string_arg granted null_string = err (invalid_argument 0)
  decode_string_arg granted d = err (invalid_type 0)

  -- `granted` says whether the value false is, where it is returned.
  unfoldable pub decode_process : Bool → Argument → Result Datum
  unfolding decode_string_arg
  decode_process granted arg = with_argument arg (decode_string_arg granted)
