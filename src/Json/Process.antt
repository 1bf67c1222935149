-- ===== src/Json/Process.antt =====
-- encode and decode as a script calls them.
use melang.Base.{
  ◌≡◌, refl, sym, ap, subst, ◌∙◌, ◌≢◌, ◌⊎◌, inl, inr, Bool, true, false, List, some, Option-cases,
  arith,
}
use melang.Script.{Bytes, ok}
use melang.Json.{
  Datum, bool, string, array, null_array, Indexed, Keyed, no_key, key, index_num, Json, json_array,
  json_obj, Items, Members, given,
}
use melang.Json.Melon.{Melon}
use melang.Json.Encode.{
  generate_value, generate, generate_each, iterate, encode_process, encode_array, encoded,
}
use melang.Json.Decode.{
  decode_value, decode_top, decode_process, decode_string_arg, decode_text, or_false,
}
use melang.Json.Encodable.{encodable, generate_value-is_some}
use melang.Json.Laws.{IsMelon, empty}
use melang.Json.RoundTrip.{Step, at, canonical}
use melang.Json.RoundTrip.Generated.{generate_array_of-inv, generate_obj-inv}
use melang.Json.RoundTrip.Total.{
  decode_array-total, decode_obj-total, decode_value-total, decode_value-array, decode_value-obj,
}
use melang.Json.RoundTrip.Paths.{at-canonical}

-- The values that have a JSON text: arrays of which every part has.
abbrev pub document : Datum → Bool
document (array ix ks) = encodable (array ix ks)
document d = false

module _ (melon : Melon) (law : IsMelon melon) where
  encoded-text :
      (j : Json) (s : Bytes)
      → melon.json_encode j ≡ some s
      → encoded melon true (some j) ≡ ok (string s)
  unfolding encoded
  encoded-text j s h = ground (arith, h)

  decode_string_arg-tree :
      (s : Bytes) (j : Json)
      → melon.json_decode s ≡ some j
      → decode_string_arg melon true (string s) ≡ or_false melon true (decode_top melon j empty)
  unfolding decode_string_arg decode_text
  decode_string_arg-tree s j h = ground (arith, law.array_new_law, h)

  encode_array-true :
      (d : Datum)
      → ((j : Json) → (s : Bytes) × (melon.json_encode j ≡ some s))
      → document d ≡ true
      → (s : Bytes) × (encode_array melon true d ≡ ok (string s))
  unfolding encode_array encoded
  encode_array-true (array ix ks) text h =
      elim (Option-cases (generate_value melon (array ix ks))) [
        | inl e ↦ absurd (ground (arith, h, e, generate_value-is_some melon law (array ix ks)))
        | inr (j, e) ↦ let (s, t) = text j in (s, rw e (encoded-text j s t))
      ]
  encode_array-true d text h = absurd (ground (arith, h))

  encode_array-false :
      (d : Datum) → d ≢ null_array → document d ≡ false → encode_array melon true d ≡ ok (bool 0)
  unfolding encode_array encoded
  encode_array-false (array ix ks) n h = elim (Option-cases (generate_value melon (array ix ks))) [
    | inl e ↦ rw e refl
    | inr (j, e) ↦ absurd (ground (arith, h, e, generate_value-is_some melon law (array ix ks)))
  ]
  encode_array-false null_array n h = absurd (n refl)
  encode_array-false d n h = refl

  -- Where every allocation is granted, encode gives a text for exactly the arrays that are
  -- encodable, and false for every other value but a NULL array: one that is no array, one with an
  -- index missing, with keys on some elements only, or with an object, a function or a NULL pointer
  -- in it, at any depth. An element whose key is no string is passed over, so nothing in it matters.
  pub encode_process-answers :
      (d : Datum)
      → ((j : Json) → (s : Bytes) × (melon.json_encode j ≡ some s))
      → d ≢ null_array
      → (document d ≡ true → (s : Bytes) × (encode_process melon true (given d) ≡ ok (string s)))
        × (document d ≡ false → encode_process melon true (given d) ≡ ok (bool 0))
  unfolding encode_process
  encode_process-answers d text n =
      ((λ h. encode_array-true d text h), (λ h. encode_array-false d n h))

  abbrev Container : Json → Type 0
  Container j = ((items : Items) × (j ≡ json_array items)) ⊎ ((ms : Members) × (j ≡ json_obj ms))

  generate-Container :
      (ix : Indexed) (ks : Keyed) (j : Json)
      → generate_value melon (array ix ks) ≡ some j
      → Container j
  unfolding generate_value generate
  generate-Container ix no_key j h =
      let (items, loop, e) =
        generate_array_of-inv melon law (index_num ix) (generate_each melon ix) j h in
      inl (items, e)
  generate-Container ix (key k d ks) j h =
      let (ms, it, e) =
        generate_obj-inv melon law (λ ms. iterate melon (key k d ks) ms) j (ground (arith, h)) in
      inr (ms, e)

  -- The array that decode returns is the value that the text's tree stands for.
  decode_top-Container :
      (j : Json) (d : Datum)
      → Container j
      → decode_value melon j ≡ some d
      → or_false melon true (decode_top melon j empty) ≡ ok d
  unfolding or_false decode_top
  decode_top-Container j d (inl (items, e)) h =
      let (b, f) = decode_array-total melon law 0 items empty in
      subst (λ x. or_false melon true (decode_top melon x empty) ≡ ok d) (sym e)
        (rw f (ap ok (decode_value-array melon law items b j d f e h)))
  decode_top-Container j d (inr (ms, e)) h =
      let (b, f) = decode_obj-total melon law ms empty in
      subst (λ x. or_false melon true (decode_top melon x empty) ≡ ok d) (sym e)
        (rw f (ap ok (decode_value-obj melon law ms b j d f e h)))

  -- Where every allocation is granted and Melon reads back the text that it writes of the array's
  -- own tree, decode of encode of an encodable array is an array with, at every path of indexes and
  -- keys where the first has a value, that value: a boolean as 0 or 1, a number as the double that
  -- JSON holds, an integer again where the double is one.
  pub decode_process-encode_process :
      (ix : Indexed) (ks : Keyed)
      → encodable (array ix ks) ≡ true
      → ((j : Json)
          → generate_value melon (array ix ks) ≡ some j
          → (s : Bytes) × (melon.json_encode j ≡ some s) × (melon.json_decode s ≡ some j))
      → (s : Bytes) × (d : Datum) × (encode_process melon true (given (array ix ks))
          ≡ ok (string s))
        × (decode_process melon true (given (string s)) ≡ ok d)
        × ((p : List Step) (x : Datum)
            → at p (array ix ks) ≡ some x
            → at p d ≡ some (canonical melon x))
  unfolding encode_process encode_array encoded decode_process decode_string_arg decode_text
  decode_process-encode_process ix ks h codec =
      elim (Option-cases (generate_value melon (array ix ks))) [
        | inl e ↦ absurd (ground (arith, h, e, generate_value-is_some melon law (array ix ks)))
        | inr (j, e) ↦
            let (s, write, read) = codec j e in
            let (d, dec) = decode_value-total melon law j in
            (
              s,
              d,
              rw e (encoded-text j s write),
              decode_string_arg-tree s j read
                  ∙ (decode_top-Container j d (generate-Container ix ks j e) dec),
              (λ p x found. at-canonical melon law p (array ix ks) x j d e dec found),
            )
      ]
