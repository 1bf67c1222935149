-- ===== src/Json/RoundTrip/Paths.antt =====
-- decode after encode, place by place.
use melang.Base.{
  ℕ, ◌≡◌, refl, sym, subst, ◌∙◌, List, [], ◌∷◌, some, bind-some, arith, ◌==◌, if◌then◌else◌,
}
use melang.Script.{Bytes}
use melang.Json.{
  Datum, nil, bool, int, real, string, null_string, obj, func, array, null_array, Indexed, Keyed,
  no_key, key, index_num, index_search, key_search, Json, json_null, json_true, json_false,
  json_number, json_string, no_items, no_members,
}
use melang.Json.Melon.{Melon}
use melang.Json.Encode.{generate_value, generate, generate_each, iterate}
use melang.Json.Decode.{number, decode_value}
use melang.Json.Laws.{IsMelon, empty}
use melang.Json.RoundTrip.{Step, by_index, by_key, scalar, step, at, canonical}
use melang.Json.RoundTrip.Generated.{
  generate_array_of-inv, generate_obj-inv, generate_value-is_none, items_loop-places,
  made_search-generate_each, made_search-is_none, iterate-Places,
}
use melang.Json.RoundTrip.Indexes.{items_loop-found, generate_each-below}
use melang.Json.RoundTrip.Decoded.{decode_array-Filled}
use melang.Json.RoundTrip.Objects.{decode_obj-KeyedBy}
use melang.Json.RoundTrip.Total.{
  decode_array-total, decode_obj-total, decode_value-array, decode_value-obj,
}

module _ (melon : Melon) (law : IsMelon melon) where
  -- What `step` finds in an array, what decoding leaves has there too, decoded from its own tree.
  abbrev Kept : Step → Datum → Datum → Type 0
  Kept s v d' =
      (j : Json) × (v' : Datum) × (generate_value melon v ≡ some j)
      × (decode_value melon j ≡ some v')
      × (step s d' ≡ some v')

  index-Kept :
      (ix : Indexed) (i : ℕ) (v : Datum) (j : Json) (d' : Datum)
      → generate_value melon (array ix no_key) ≡ some j
      → decode_value melon j ≡ some d'
      → index_search i ix ≡ some v
      → Kept (by_index i) v d'
  unfolding generate_value decode_value generate
  index-Kept ix i v j d' gen dec found =
      let (full, loop, e) =
        generate_array_of-inv melon law (index_num ix) (generate_each melon ix) j gen in
      let below = generate_each-below melon ix full no_items i v loop found in
      let (jv, there) =
        items_loop-found melon (index_num ix) 0 (generate_each melon ix) no_items full loop i
          (omega arith) (omega arith) in
      let made : generate_value melon v ≡ some jv =
        sym (made_search-generate_each melon ix i v found) ∙ there in
      let (b, filled) = decode_array-total melon law 0 full empty in
      let (below_b, keys, items) =
        decode_array-Filled melon law 0 full empty b (λ m le. refl) filled in
      let place =
        items_loop-places melon law (index_num ix) 0 (generate_each melon ix) no_items full i jv
          (made_search-is_none melon law ix) loop refl (omega arith) (omega arith) there in
      let (v', dv, at_i) = items i jv place (generate_value-is_none melon law v jv made) in
      (
        jv,
        v',
        made,
        dv,
        subst (λ x. step (by_index i) x ≡ some v')
            (decode_value-array melon law full b j d' filled e dec)
            (subst (λ ks. step (by_index i) (array b.elems_index ks) ≡ some v') (sym keys)
              (subst (λ n. index_search n b.elems_index ≡ some v') (omega arith) at_i)),
      )

  key-Kept :
      (ix : Indexed) (ks : Keyed) (k : Bytes) (v : Datum) (j : Json) (d' : Datum)
      → generate_value melon (array ix ks) ≡ some j
      → decode_value melon j ≡ some d'
      → key_search k ks ≡ some v
      → Kept (by_key k) v d'
  unfolding generate_value decode_value generate
  key-Kept ix no_key k v j d' gen dec found = absurd (ground (arith, found))
  key-Kept ix (key l e ks) k v j d' gen dec found =
      let (full, iterated, eq) =
        generate_obj-inv melon law (λ ms. iterate melon (key l e ks) ms) j (ground (arith, gen)) in
      let (unique, missing, present) =
        iterate-Places melon law (key l e ks) no_members full iterated in
      let (jv, made, there) = present k v found in
      let (b, filled) = decode_obj-total melon law full empty in
      let (absent, decoded) =
        decode_obj-KeyedBy melon law full empty b (unique tt) (λ l j h. refl) filled in
      let (v', dv, at_k) = decoded k jv there (generate_value-is_none melon law v jv made) in
      (
        jv,
        v',
        made,
        dv,
        subst (λ x. step (by_key k) x ≡ some v')
            (decode_value-obj melon law full b j d' filled eq dec) at_k,
      )

  step-Kept :
      (s : Step) (d v : Datum) (j : Json) (d' : Datum)
      → generate_value melon d ≡ some j
      → decode_value melon j ≡ some d'
      → step s d ≡ some v
      → Kept s v d'
  step-Kept (by_index i) (array ix no_key) v j d' gen dec found =
      index-Kept ix i v j d' gen dec found
  step-Kept (by_key k) (array ix ks) v j d' gen dec found = key-Kept ix ks k v j d' gen dec found
  step-Kept s d v j d' gen dec found = absurd (ground (arith, found))

  decoded-as :
      (k j : Json) (d' : Datum)
      → some k ≡ some j
      → decode_value melon j ≡ some d'
      → decode_value melon k ≡ some d'
  decoded-as k j d' e dec =
      let same : k ≡ j = ground (arith, e) in
      subst (λ x. decode_value melon x ≡ some d') (sym same) dec

  number-scalar : (n : ℕ) → scalar (number melon n) ≡ some (number melon n)
  unfolding number
  number-scalar n = ground arith

  scalar-canonical :
      (d x : Datum) (j : Json) (d' : Datum)
      → generate_value melon d ≡ some j
      → decode_value melon j ≡ some d'
      → scalar d ≡ some x
      → scalar d' ≡ some (canonical melon x)
  unfolding generate_value decode_value number
  scalar-canonical nil x j d' gen dec found =
      ground (arith, found, decoded-as (json_null) j d' gen dec)
  scalar-canonical (bool b) x j d' gen dec found =
      ground (arith, found, decoded-as (if b == 0 then json_false else json_true) j d' gen dec)
  scalar-canonical (int i) x j d' gen dec found =
      ground (arith, found, decoded-as (json_number (melon.double_of i)) j d' gen dec)
  scalar-canonical (real f) x j d' gen dec found =
      ground (arith, found, decoded-as (json_number f) j d' gen dec)
  scalar-canonical (string s) x j d' gen dec found =
      ground (arith, found, decoded-as (json_string s) j d' gen dec)
  scalar-canonical null_string x j d' gen dec found = absurd (ground (arith, found))
  scalar-canonical obj x j d' gen dec found = absurd (ground (arith, found))
  scalar-canonical func x j d' gen dec found = absurd (ground (arith, found))
  scalar-canonical (array ix ks) x j d' gen dec found = absurd (ground (arith, found))
  scalar-canonical null_array x j d' gen dec found = absurd (ground (arith, found))

  pub at-canonical :
      (p : List Step) (d x : Datum) (j : Json) (d' : Datum)
      → generate_value melon d ≡ some j
      → decode_value melon j ≡ some d'
      → at p d ≡ some x
      → at p d' ≡ some (canonical melon x)
  at-canonical [] d x j d' gen dec found = scalar-canonical d x j d' gen dec found
  at-canonical (s ∷ p) d x j d' gen dec found =
      let (v, e, rest) = bind-some (step s d) (at p) x found in
      let (jv, v', made, dv, there) = step-Kept s d v j d' gen dec e in
      rw there (at-canonical p v x jv v' made dv rest)
