-- ===== src/Json/Encodable.antt =====
-- Which arrays encode turns into JSON, said without JSON, and that encode does just these.
use melang.Base.{
  ℕ, zero, suc, ◌≡◌, refl, Bool, true, false, ◌&&◌, Option, none, some, ◌==◌, if◌then◌else◌, arith,
  Option-cases, inl, inr, ◌∙◌,
}
use melang.Script.{Bytes}
use melang.Json.{
  Datum, nil, bool, int, real, string, null_string, obj, func, array, null_array, Indexed, no_index,
  index, Keyed, no_key, key, index_num, key_num, Json, Items, no_items, Members, no_members,
}
use melang.Json.Melon.{Melon}
use melang.Json.Encode.{
  generate, generate_value, generate_each, iterate, items_loop, append_unless_none,
  update_unless_none, Made, made_search, generate_array_of, generate_obj,
}
use melang.Json.Laws.{IsMelon}

-- The test holds of `n` numbers from `i` on.
unfoldable pub holds_from : (ℕ → Bool) → ℕ → ℕ → Bool
holds_from test i zero = true
holds_from test i (suc n) = test i && holds_from test (suc i) n

-- An array without keys has an element for each index below its number of elements, one with keys
-- has as many elements as keys. An element under a key that is no string may be anything.
abbrev pub well_shaped : Indexed → Keyed → (ℕ → Bool) → Bool → Bool
well_shaped ix no_key at keys = holds_from at 0 (index_num ix)
well_shaped ix (key k d ks) at keys = (index_num ix == key_num (key k d ks)) && keys

unfoldable mutual
  pub encodable : Datum → Bool
  encodable nil = true
  encodable (bool b) = true
  encodable (int i) = true
  encodable (real f) = true
  encodable (string s) = true
  encodable null_string = false
  encodable obj = false
  encodable func = false
  encodable (array ix ks) = well_shaped ix ks (λ i. encodable_at ix i) (encodable_keys ks)
  encodable null_array = false

  pub encodable_at : Indexed → ℕ → Bool
  encodable_at no_index i = false
  encodable_at (index j d ix) i =
      let here = encodable d in let rest = encodable_at ix i in if i == j then here else rest

  pub encodable_keys : Keyed → Bool
  encodable_keys no_key = true
  encodable_keys (key none d ks) = encodable_keys ks
  encodable_keys (key (some k) d ks) = encodable d && encodable_keys ks

abbrev pub is_some {ℓ} : {A : Type ℓ} → Option A → Bool
is_some none = false
is_some (some a) = true

module _ (melon : Melon) (law : IsMelon melon) where
  append_granted : (j : Json) (items : Items) → is_some (append_unless_none melon j items) ≡ true
  unfolding append_unless_none
  append_granted j items = ground (arith, law.json_array_append_law j items)

  update_granted :
      (k : Bytes) (j : Json) (ms : Members) → is_some (update_unless_none melon k j ms) ≡ true
  unfolding update_unless_none
  update_granted k j ms = let (new, e, u) = law.json_obj_update_law k j ms in ground (arith, e)

  items_loop-is_some :
      (n i : ℕ) (ms : Made) (items : Items)
      → is_some (items_loop melon n i ms items) ≡ holds_from (λ k. is_some (made_search k ms)) i n
  unfolding items_loop holds_from
  items_loop-is_some zero i ms items = refl
  items_loop-is_some (suc n) i ms items = elim (Option-cases (made_search i ms)) [
    | inl e ↦ rw e refl
    | inr (j, e) ↦ elim (Option-cases (append_unless_none melon j items)) [
      | inl f ↦ absurd (ground (arith, f, append_granted j items))
      | inr (longer, f) ↦ rw (e, f) (items_loop-is_some n (suc i) ms longer)
    ]
  ]

  generate_array_of-is_some :
      (n : ℕ) (ms : Made)
      → is_some (generate_array_of melon n ms) ≡ holds_from (λ k. is_some (made_search k ms)) 0 n
  unfolding generate_array_of
  generate_array_of-is_some n ms =
      ground (arith, law.json_array_init_law, items_loop-is_some n 0 ms no_items)

  generate_obj-is_some :
      (iteration : Members → Option Members)
      → is_some (generate_obj melon iteration) ≡ is_some (iteration no_members)
  unfolding generate_obj
  generate_obj-is_some iteration = ground (arith, law.json_obj_init_law)

  generate-is_some :
      (ix : Indexed) (ks : Keyed) (ms : Made) (iteration : Members → Option Members)
      → is_some (generate melon ix ks ms iteration)
        ≡ well_shaped ix ks (λ k. is_some (made_search k ms)) (is_some (iteration no_members))
  unfolding generate
  generate-is_some ix no_key ms iteration = generate_array_of-is_some (index_num ix) ms
  generate-is_some ix (key k d ks) ms iteration = ground (arith, generate_obj-is_some iteration)

  mutual
    unfolding generate_value encodable

    pub generate_value-is_some : (d : Datum) → is_some (generate_value melon d) ≡ encodable d
    generate_value-is_some nil = refl
    generate_value-is_some (bool b) = refl
    generate_value-is_some (int i) = refl
    generate_value-is_some (real f) = refl
    generate_value-is_some (string s) = refl
    generate_value-is_some null_string = refl
    generate_value-is_some obj = refl
    generate_value-is_some func = refl
    generate_value-is_some null_array = refl
    generate_value-is_some (array ix ks) =
        generate-is_some ix ks (generate_each melon ix) (λ ms. iterate melon ks ms) ∙ (λ t.
          well_shaped ix ks (λ k. generate_each-is_some ix k t) (iterate-is_some ks no_members t))

    generate_each-is_some :
        (ix : Indexed) (i : ℕ)
        → is_some (made_search i (generate_each melon ix)) ≡ encodable_at ix i
    generate_each-is_some no_index i = refl
    generate_each-is_some (index j d ix) i =
        ground (arith, generate_value-is_some d, generate_each-is_some ix i)

    iterate-is_some :
        (ks : Keyed) (ms : Members) → is_some (iterate melon ks ms) ≡ encodable_keys ks
    iterate-is_some no_key ms = refl
    iterate-is_some (key none d ks) ms = iterate-is_some ks ms
    iterate-is_some (key (some k) d ks) ms = elim (Option-cases (generate_value melon d)) [
      | inl e ↦ ground (arith, e, generate_value-is_some d)
      | inr (j, e) ↦ elim (Option-cases (update_unless_none melon k j ms)) [
        | inl f ↦ absurd (ground (arith, f, update_granted k j ms))
        | inr (more, f) ↦ ground (arith, e, f, generate_value-is_some d, iterate-is_some ks more)
      ]
    ]
