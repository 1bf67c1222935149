-- ===== src/Json/RoundTrip/Objects.antt =====
-- What the array that decode fills from a JSON object has under each key.
use melang.Base.{
  ◌≡◌, sym, ap, subst, ◌∙◌, inl, inr, false, none, some, bytes_eq, bytes_eq→eq, bytes_eq_refl,
  arith, Bool-cases, bind-some,
}
use melang.Script.{Bytes}
use melang.Json.{Datum, Array, Json, Members, no_members, pair, key_search, member_search}
use melang.Json.Melon.{Melon, at_key}
use melang.Json.Encode.{is_none}
use melang.Json.Decode.{put_json, decode_value, decode_obj}
use melang.Json.RoundTrip.Decoded.{Step, put_json-Step}
use melang.Json.Laws.{IsMelon, Unique}

module _ (melon : Melon) (law : IsMelon melon) where
  -- An object's members are to be put under keys that are free.
  abbrev KeysFree : Members → Array → Type 0
  KeysFree ms a =
      (l : Bytes) (j : Json) → member_search l ms ≡ some j → key_search l a.elems_key ≡ none

  -- An array filled from the members of an object has under each key what its member is decoded to.
  abbrev pub KeyedBy : Members → Array → Array → Type 0
  KeyedBy ms a b =
      ((l : Bytes)
        → member_search l ms ≡ none
        → key_search l b.elems_key ≡ key_search l a.elems_key)
      × ((l : Bytes) (j : Json)
          → member_search l ms ≡ some j
          → is_none j ≡ false
          → (d : Datum) × (decode_value melon j ≡ some d) × (key_search l b.elems_key ≡ some d))

  Step-other :
      (k l : Bytes) (j : Json) (a c : Array)
      → Step melon law (at_key k) j a c
      → bytes_eq l k ≡ false
      → key_search l c.elems_key ≡ key_search l a.elems_key
  Step-other k l j a c (inl (is, same)) ne = ap (λ x. key_search l x.elems_key) (sym same)
  Step-other k l j a c (inr (solid, (d, made, (found, others)))) ne = others l ne

  Step-there :
      (k : Bytes) (j : Json) (a c : Array)
      → Step melon law (at_key k) j a c
      → is_none j ≡ false
      → (d : Datum) × (decode_value melon j ≡ some d) × (key_search k c.elems_key ≡ some d)
  Step-there k j a c (inl (is, same)) solid = absurd (ground (arith, is, solid))
  Step-there k j a c (inr (solid, (d, made, (found, others)))) s = (d, made, found)

  differs :
      (k l : Bytes) (j : Json) (ms : Members)
      → member_search k ms ≡ none
      → member_search l ms ≡ some j
      → bytes_eq l k ≡ false
  differs k l j ms absent there = elim (Bool-cases (bytes_eq l k)) [
    | inl same ↦ absurd (
        let e : l ≡ k = bytes_eq→eq l k same in
        ground (arith, subst (λ x. member_search x ms ≡ some j) e there, absent))
    | inr other ↦ other
  ]

  pub decode_obj-KeyedBy :
      (ms : Members) (a b : Array)
      → Unique ms
      → KeysFree ms a
      → decode_obj melon ms a ≡ some b
      → KeyedBy ms a b
  unfolding decode_value
  decode_obj-KeyedBy no_members a b unique free h =
      let e : a ≡ b = ground (arith, h) in
      (
        (λ l n. ap (λ x. key_search l x.elems_key) (sym e)),
        (λ l j found. absurd (ground (arith, found))),
      )
  decode_obj-KeyedBy (pair k j ms) a b (absent, unique) free h =
      let (c, put, rest) =
        bind-some (put_json melon (at_key k) j (decode_value melon j) a)
          (λ c. decode_obj melon ms c) b h in
      let st =
        put_json-Step melon law (at_key k) j a c (free k j (ground (arith, bytes_eq_refl k))) put in
      let (missing, present) =
        decode_obj-KeyedBy ms c b unique
          (λ l i found.
            Step-other k l j a c st (differs k l i ms absent found)
            ∙ free l i (ground (arith, found, differs k l i ms absent found)))
          rest in
      (
        (λ l n. missing l (ground (arith, n)) ∙ Step-other k l j a c st (ground (arith, n))),
        (λ l i found solid. elim (Bool-cases (bytes_eq l k)) [
          | inl same ↦
              let e : l ≡ k = bytes_eq→eq l k same in
              let f : j ≡ i = ground (arith, found, same) in
              let (d, made, there) =
                Step-there k j a c st (subst (λ x. is_none x ≡ false) (sym f) solid) in
              (
                d,
                subst (λ x. decode_value melon x ≡ some d) f made,
                ap (λ x. key_search x b.elems_key) e ∙ missing k absent ∙ there,
              )
          | inr other ↦ present l i (ground (arith, found, other)) solid
        ]),
      )
