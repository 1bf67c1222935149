-- ===== src/Json/RoundTrip/Decoded.antt =====
-- What the array that decode fills has at each index.
use melang.Base.{
  ℕ, zero, suc, ◌+◌, ◌≤◌, ◌<◌, ◌≡◌, refl, sym, ap, subst, ◌∙◌, ◌⊎◌, inl, inr, true, false, Option,
  none, some, arith, bind-some, ◌>>=◌,
}
use melang.Json.{
  Datum, nil, Array, Json, json_none, json_null, json_true, json_false, json_number, json_string,
  json_array, json_obj, Items, no_items, item, index_search, item_at,
}
use melang.Json.Melon.{Melon, Slot, at_index}
use melang.Json.Encode.{is_none}
use melang.Json.Decode.{assign, put_json, decode_value, decode_array}
use melang.Json.Laws.{IsMelon, Puts, lookup}

module _ (melon : Melon) (law : IsMelon melon) where
  assign-Puts :
      (slot : Slot) (d : Datum) (a b : Array) → assign melon slot d a ≡ some b → Puts slot d a b
  unfolding assign
  assign-Puts slot d a b h =
      let (c, e, fresh, set) = law.array_get_law slot a in
      let (b', f, puts) = set d in subst (Puts slot d a) (ground (arith, h, e, f)) puts

  -- A JSON value that is not none puts under a free slot what it is decoded to.
  abbrev pub Step : Slot → Json → Array → Array → Type 0
  Step slot j a b =
      ((is_none j ≡ true) × (a ≡ b))
      ⊎ ((is_none j ≡ false) × ((d : Datum) × (decode_value melon j ≡ some d) × Puts slot d a b))

  assigned :
      (slot : Slot) (j : Json) (o : Option Datum) (a b : Array)
      → is_none j ≡ false
      → decode_value melon j ≡ o
      → (o >>= λ d. assign melon slot d a) ≡ some b
      → Step slot j a b
  assigned slot j none a b solid e h = absurd (ground (arith, h))
  assigned slot j (some d) a b solid e h = inr (solid, (d, e, assign-Puts slot d a b h))

  pub put_json-Step :
      (slot : Slot) (j : Json) (a b : Array)
      → lookup slot a ≡ none
      → put_json melon slot j (decode_value melon j) a ≡ some b
      → Step slot j a b
  unfolding put_json decode_value
  put_json-Step slot json_none a b free h = inl (refl, ground (arith, h))
  put_json-Step slot json_null a b free h =
      let (c, e, fresh, set) = law.array_get_law slot a in
      inr (refl, (nil, refl, subst (Puts slot nil a) (ground (arith, h, e)) (fresh free)))
  put_json-Step slot json_true a b free h =
      assigned slot json_true (decode_value melon json_true) a b refl refl h
  put_json-Step slot json_false a b free h =
      assigned slot json_false (decode_value melon json_false) a b refl refl h
  put_json-Step slot (json_number n) a b free h =
      assigned slot (json_number n) (decode_value melon (json_number n)) a b refl refl h
  put_json-Step slot (json_string s) a b free h =
      assigned slot (json_string s) (decode_value melon (json_string s)) a b refl refl h
  put_json-Step slot (json_array items) a b free h =
      assigned slot (json_array items) (decode_value melon (json_array items)) a b refl refl h
  put_json-Step slot (json_obj ms) a b free h =
      assigned slot (json_obj ms) (decode_value melon (json_obj ms)) a b refl refl h

  abbrev Free : ℕ → Array → Type 0
  Free i a = (m : ℕ) → i ≤ m → index_search m a.elems_index ≡ none

  -- An array filled from index `i` on has what each item that is not none is decoded to.
  abbrev pub Filled : ℕ → Items → Array → Array → Type 0
  Filled i items a b =
      ((l : ℕ) → l < i → index_search l b.elems_index ≡ index_search l a.elems_index)
      × (b.elems_key ≡ a.elems_key)
      × ((m : ℕ) (j : Json)
          → item_at m items ≡ some j
          → is_none j ≡ false
          → (d : Datum) × (decode_value melon j ≡ some d)
            × (index_search (i + m) b.elems_index ≡ some d))

  Step-Free : (i : ℕ) (j : Json) (a c : Array) → Step (at_index i) j a c → Free i a → Free (i + 1) c
  Step-Free i j a c (inl (is, same)) free m le =
      subst (λ x. index_search m x.elems_index ≡ none) same (free m (omega arith))
  Step-Free i j a c (inr (solid, (d, made, (found, others, kept)))) free m le =
      others m (ground arith) ∙ free m (omega arith)

  -- The other indexes and all keys stay as they are.
  Step-keeps :
      (i : ℕ) (j : Json) (a c : Array)
      → Step (at_index i) j a c
      → ((l : ℕ) → l < i → index_search l c.elems_index ≡ index_search l a.elems_index)
        × (c.elems_key ≡ a.elems_key)
  Step-keeps i j a c (inl (is, same)) = (
    (λ l low. ap (λ x. index_search l x.elems_index) (sym same)),
    ap (λ x. x.elems_key) (sym same),
  )
  Step-keeps i j a c (inr (solid, (d, made, (found, others, kept)))) =
      ((λ l low. others l (ground arith)), kept)

  Step-finds :
      (i : ℕ) (j : Json) (a c : Array)
      → Step (at_index i) j a c
      → is_none j ≡ false
      → (d : Datum) × (decode_value melon j ≡ some d) × (index_search i c.elems_index ≡ some d)
  Step-finds i j a c (inl (is, same)) solid = absurd (ground (arith, is, solid))
  Step-finds i j a c (inr (solid, (d, made, (found, others, kept)))) s = (d, made, found)

  -- The items behind the first, and the first.
  item-found :
      (i : ℕ) (j : Json) (js : Items) (a c b : Array)
      → Step (at_index i) j a c
      → Filled (i + 1) js c b
      → (m : ℕ) (k : Json) → item_at m (item j js) ≡ some k
      → is_none k ≡ false
      → (d : Datum) × (decode_value melon k ≡ some d)
        × (index_search (i + m) b.elems_index ≡ some d)
  item-found i j js a c b st (below, keys, filled) zero k found solid =
      let same : j ≡ k = ground (arith, found) in
      let (d, made, there) =
        Step-finds i j a c st (subst (λ x. is_none x ≡ false) (sym same) solid) in
      (
        d,
        subst (λ x. decode_value melon x ≡ some d) same made,
        subst (λ n. index_search n b.elems_index ≡ some d) (omega arith)
            (below i (omega arith) ∙ there),
      )
  item-found i j js a c b st (below, keys, filled) (suc m) k found solid =
      let (d, made, there) = filled m k found solid in
      (d, made, subst (λ n. index_search n b.elems_index ≡ some d) (omega arith) there)

  pub decode_array-Filled :
      (i : ℕ) (items : Items) (a b : Array)
      → Free i a
      → decode_array melon i items a ≡ some b
      → Filled i items a b
  unfolding decode_value
  decode_array-Filled i no_items a b free h =
      let e : a ≡ b = ground (arith, h) in
      (
        (λ l low. ap (λ x. index_search l x.elems_index) (sym e)),
        ap (λ x. x.elems_key) (sym e),
        (λ m j found. absurd (ground (arith, found))),
      )
  decode_array-Filled i (item j js) a b free h =
      let (c, put, rest) =
        bind-some (put_json melon (at_index i) j (decode_value melon j) a)
          (λ c. decode_array melon (i + 1) js c) b h in
      let st = put_json-Step (at_index i) j a c (free i (omega arith)) put in
      let later = decode_array-Filled (i + 1) js c b (Step-Free i j a c st free) rest in
      let (below, keys) = Step-keeps i j a c st in
      (
        (λ l low. later.0 l (omega arith) ∙ below l low),
        later.1 ∙ keys,
        item-found i j js a c b st later,
      )
