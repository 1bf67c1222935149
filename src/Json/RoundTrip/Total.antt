-- ===== src/Json/RoundTrip/Total.antt =====
-- decode always makes an array where every allocation is granted.
use melang.Base.{ℕ, ◌+◌, ◌≡◌, refl, subst, some, arith}
use melang.Json.{
  Datum, nil, bool, string, Array, Json, json_none, json_null, json_true, json_false, json_number,
  json_string, json_array, json_obj, Items, no_items, item, Members, no_members, pair,
}
use melang.Json.Melon.{Melon, Slot, at_index, at_key}
use melang.Json.Decode.{assign, put_json, decode_value, decode_array, decode_obj, whole, number}
use melang.Json.Laws.{IsMelon, empty}

module _ (melon : Melon) (law : IsMelon melon) where
  assign-total :
      (slot : Slot) (d : Datum) (a : Array) → (b : Array) × (assign melon slot d a ≡ some b)
  unfolding assign
  assign-total slot d a =
      let (c, e, fresh, set) = law.array_get_law slot a in
      let (b, f, puts) = set d in (b, ground (arith, e, f))

  pub put_json-total :
      (slot : Slot) (j : Json) (d : Datum) (a : Array)
      → (b : Array) × (put_json melon slot j (some d) a ≡ some b)
  unfolding put_json
  put_json-total slot json_none d a = (a, refl)
  put_json-total slot json_null d a = let (c, e, fresh, set) = law.array_get_law slot a in (c, e)
  put_json-total slot json_true d a = assign-total slot d a
  put_json-total slot json_false d a = assign-total slot d a
  put_json-total slot (json_number n) d a = assign-total slot d a
  put_json-total slot (json_string s) d a = assign-total slot d a
  put_json-total slot (json_array items) d a = assign-total slot d a
  put_json-total slot (json_obj ms) d a = assign-total slot d a

  mutual
    unfolding decode_value

    pub decode_value-total : (j : Json) → (d : Datum) × (decode_value melon j ≡ some d)
    decode_value-total json_none = (nil, refl)
    decode_value-total json_null = (nil, refl)
    decode_value-total json_true = (bool 1, refl)
    decode_value-total json_false = (bool 0, refl)
    decode_value-total (json_number n) = (number melon n, refl)
    decode_value-total (json_string s) = (string s, refl)
    decode_value-total (json_array items) =
        let (b, e) = decode_array-total 0 items empty in
        (whole b, ground (arith, law.array_new_law, e))
    decode_value-total (json_obj ms) =
        let (b, e) = decode_obj-total ms empty in (whole b, ground (arith, law.array_new_law, e))

    pub decode_array-total :
        (i : ℕ) (items : Items) (a : Array) → (b : Array) × (decode_array melon i items a ≡ some b)
    decode_array-total i no_items a = (a, refl)
    decode_array-total i (item j js) a =
        let (d, made) = decode_value-total j in
        let (c, put) = put_json-total (at_index i) j d a in
        let (b, e) = decode_array-total (i + 1) js c in (b, rw (made, put) e)

    pub decode_obj-total :
        (ms : Members) (a : Array) → (b : Array) × (decode_obj melon ms a ≡ some b)
    decode_obj-total no_members a = (a, refl)
    decode_obj-total (pair k j ms) a =
        let (d, made) = decode_value-total j in
        let (c, put) = put_json-total (at_key k) j d a in
        let (b, e) = decode_obj-total ms c in (b, rw (made, put) e)

  pub decode_value-array :
      (items : Items) (b : Array) (j : Json) (d : Datum)
      → decode_array melon 0 items empty ≡ some b
      → j ≡ json_array items
      → decode_value melon j ≡ some d
      → whole b ≡ d
  unfolding decode_value
  decode_value-array items b j d e eq h =
      let f : decode_value melon (json_array items) ≡ some d =
        subst (λ x. decode_value melon x ≡ some d) eq h in
      ground (arith, law.array_new_law, e, f)

  pub decode_value-obj :
      (ms : Members) (b : Array) (j : Json) (d : Datum)
      → decode_obj melon ms empty ≡ some b
      → j ≡ json_obj ms
      → decode_value melon j ≡ some d
      → whole b ≡ d
  unfolding decode_value
  decode_value-obj ms b j d e eq h =
      let f : decode_value melon (json_obj ms) ≡ some d =
        subst (λ x. decode_value melon x ≡ some d) eq h in
      ground (arith, law.array_new_law, e, f)
