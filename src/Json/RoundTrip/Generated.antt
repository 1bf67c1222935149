-- ===== src/Json/RoundTrip/Generated.antt =====
-- What the tree that encode builds has at each index and under each key.
use melang.Base.{
  ℕ, zero, suc, ◌+◌, ◌<◌, ◌≡◌, refl, false, Option, none, some, ◌==◌, bytes_eq→eq, bind-some, ◌≤◌,
  subst, ==_iff, arith, Bool-cases, Option-cases, inl, inr, sym, ap, ◌∙◌, ◌>>=◌,
}
use melang.Script.{Bytes}
use melang.Json.{
  Datum, nil, bool, int, real, string, null_string, obj, func, array, null_array, Indexed, no_index,
  index, Keyed, no_key, key, index_num, Json, json_array, json_obj, Items, no_items, item, Members,
  no_members, index_search, key_search, item_at, member_search,
}
use melang.Json.Melon.{Melon}
use melang.Json.Encode.{
  generate, generate_value, generate_each, iterate, items_loop, append_unless_none,
  update_unless_none, Made, made_search, generate_array_of, generate_obj, is_none,
}
use melang.Json.RoundTrip.Indexes.{items_loop-step}
use melang.Json.Laws.{IsMelon, Updates, snoc, Unique}

abbrev pub items_num : Items → ℕ
items_num no_items = 0
items_num (item j js) = suc (items_num js)

item_at-snoc_last : (items : Items) (j : Json) → item_at (items_num items) (snoc items j) ≡ some j
item_at-snoc_last no_items j = refl
item_at-snoc_last (item k ks) j = item_at-snoc_last ks j

items_num-snoc : (items : Items) (j : Json) → items_num (snoc items j) ≡ suc (items_num items)
items_num-snoc no_items j = refl
items_num-snoc (item k ks) j = omega (arith, items_num-snoc ks j)

item_at-snoc :
    (items : Items) (j k : Json) (m : ℕ)
    → item_at m items ≡ some k
    → item_at m (snoc items j) ≡ some k
item_at-snoc no_items j k m h = absurd (ground (arith, h))
item_at-snoc (item l ks) j k zero h = h
item_at-snoc (item l ks) j k (suc m) h = item_at-snoc ks j k m h

-- An element is found among what the elements become as it is found among the elements.
pub made_search-generate_each :
    (melon : Melon) (ix : Indexed) (i : ℕ) (d : Datum)
    → index_search i ix ≡ some d
    → made_search i (generate_each melon ix) ≡ generate_value melon d
unfolding generate_value
made_search-generate_each melon no_index i d h = absurd (ground (arith, h))
made_search-generate_each melon (index j e ix) i d h =
    ground (arith, h, made_search-generate_each melon ix i d, ap (generate_value melon))

module _ (melon : Melon) (law : IsMelon melon) where
  pub generate_array_of-inv :
      (n : ℕ) (ms : Made) (j : Json)
      → generate_array_of melon n ms ≡ some j
      → (full : Items) × (items_loop melon n 0 ms no_items ≡ some full) × (j ≡ json_array full)
  unfolding generate_array_of
  generate_array_of-inv n ms j h = elim (Option-cases (items_loop melon n 0 ms no_items)) [
    | inl e ↦ absurd (ground (arith, h, e, law.json_array_init_law))
    | inr (full, e) ↦ (full, e, ground (arith, h, e, law.json_array_init_law))
  ]

  pub generate_obj-inv :
      (iteration : Members → Option Members) (j : Json)
      → generate_obj melon iteration ≡ some j
      → (full : Members) × (iteration no_members ≡ some full) × (j ≡ json_obj full)
  unfolding generate_obj
  generate_obj-inv iteration j h = elim (Option-cases (iteration no_members)) [
    | inl e ↦ absurd (ground (arith, h, e, law.json_obj_init_law))
    | inr (full, e) ↦ (full, e, ground (arith, h, e, law.json_obj_init_law))
  ]

  generate-is_none :
      (ix : Indexed) (ks : Keyed) (ms : Made) (it : Members → Option Members) (j : Json)
      → generate melon ix ks ms it ≡ some j
      → is_none j ≡ false
  unfolding generate
  generate-is_none ix no_key ms it j h =
      let (full, e, f) = generate_array_of-inv (index_num ix) ms j h in rw f refl
  generate-is_none ix (key k d ks) ms it j h =
      let (full, e, f) = generate_obj-inv it j (ground (arith, h)) in rw f refl

  -- No value becomes the JSON value that is none.
  pub generate_value-is_none :
      (d : Datum) (j : Json) → generate_value melon d ≡ some j → is_none j ≡ false
  unfolding generate_value
  generate_value-is_none nil j h = ground (arith, h)
  generate_value-is_none (bool b) j h = ground (arith, h)
  generate_value-is_none (int i) j h = ground (arith, h)
  generate_value-is_none (real f) j h = ground (arith, h)
  generate_value-is_none (string s) j h = ground (arith, h)
  generate_value-is_none null_string j h = ground (arith, h)
  generate_value-is_none obj j h = ground (arith, h)
  generate_value-is_none func j h = ground (arith, h)
  generate_value-is_none null_array j h = ground (arith, h)
  generate_value-is_none (array ix ks) j h =
      generate-is_none ix ks (generate_each melon ix) (λ ms. iterate melon ks ms) j h

  pub made_search-is_none :
      (ix : Indexed) (i : ℕ) (j : Json)
      → made_search i (generate_each melon ix) ≡ some j
      → is_none j ≡ false
  unfolding generate_value
  made_search-is_none no_index i j h = absurd (ground (arith, h))
  made_search-is_none (index k d ix) i j h = elim (Bool-cases (i == k)) [
    | inl same ↦ generate_value-is_none d j (ground (arith, h, same))
    | inr other ↦ made_search-is_none ix i j (ground (arith, h, other))
  ]

  -- The loop's own step keeps what the array has and puts a value that is not none behind it.
  append-keeps :
      (j k : Json) (items longer : Items) (m : ℕ)
      → append_unless_none melon j items ≡ some longer
      → item_at m items ≡ some k
      → item_at m longer ≡ some k
  unfolding append_unless_none
  append-keeps j k items longer m h e =
      ground (arith, h, e, law.json_array_append_law j items, item_at-snoc items j k m e)

  append-last :
      (j : Json) (items longer : Items)
      → append_unless_none melon j items ≡ some longer
      → is_none j ≡ false
      → (item_at (items_num items) longer ≡ some j) × (items_num longer ≡ suc (items_num items))
  unfolding append_unless_none
  append-last j items longer h e =
      let eq : snoc items j ≡ longer = ground (arith, h, e, law.json_array_append_law j items) in
      (
        subst (λ longer. item_at (items_num items) longer ≡ some j) eq (item_at-snoc_last items j),
        subst (λ longer. items_num longer ≡ suc (items_num items)) eq (items_num-snoc items j),
      )

  items_loop-keeps :
      (n i : ℕ) (ms : Made) (items full : Items) (m : ℕ) (k : Json)
      → items_loop melon n i ms items ≡ some full
      → item_at m items ≡ some k
      → item_at m full ≡ some k
  unfolding items_loop
  items_loop-keeps zero i ms items full m k h e = ground (arith, h, e)
  items_loop-keeps (suc n) i ms items full m k h e =
      let (j, longer, found, added, loop) = items_loop-step melon n i ms items full h in
      items_loop-keeps n (suc i) ms longer full m k loop (append-keeps j k items longer m added e)

  -- The loop puts what the element of each index became at that index.
  pub items_loop-places :
      (n i : ℕ) (ms : Made) (items full : Items) (m : ℕ) (k : Json)
      → ((l : ℕ) (j : Json) → made_search l ms ≡ some j → is_none j ≡ false)
      → items_loop melon n i ms items ≡ some full
      → items_num items ≡ i
      → i ≤ m
      → m < i + n
      → made_search m ms ≡ some k
      → item_at m full ≡ some k
  unfolding items_loop
  items_loop-places zero i ms items full m k solid h num low high e = absurd (omega arith)
  items_loop-places (suc n) i ms items full m k solid h num low high e =
      let (j, longer, found, added, loop) = items_loop-step melon n i ms items full h in
      let (last, longer_num) = append-last j items longer added (solid i j found) in
      elim (Bool-cases (i == m)) [
        | inl same ↦
            let here : i ≡ m = (==_iff i m).0 same in
            items_loop-keeps n (suc i) ms longer full m k loop
              (ground (arith, num, here, last, found, e))
        | inr other ↦
            items_loop-places n (suc i) ms longer full m k solid loop (omega arith) (ground arith)
              (omega arith) e
      ]

  update-Updates :
      (k : Bytes) (j : Json) (old more : Members)
      → update_unless_none melon k j old ≡ some more
      → is_none j ≡ false
      → Updates k j old more
  unfolding update_unless_none
  update-Updates k j old more h solid =
      let (new, e, updates) = law.json_obj_update_law k j old in
      subst (Updates k j old) (ground (arith, h, e, solid)) updates

  -- The iteration puts what the last element of each key became under that key.
  abbrev pub Places : Keyed → Members → Members → Type 0
  Places ks old new =
      (Unique old → Unique new)
      × ((l : Bytes) → key_search l ks ≡ none → member_search l new ≡ member_search l old)
      × ((l : Bytes) (d : Datum)
          → key_search l ks ≡ some d
          → (j : Json) × (generate_value melon d ≡ some j) × (member_search l new ≡ some j))

  pub iterate-Places :
      (ks : Keyed) (old new : Members) → iterate melon ks old ≡ some new → Places ks old new
  unfolding generate_value
  iterate-Places no_key old new h =
      let e : old ≡ new = ground (arith, h) in
      (subst Unique e, (λ l n. ap (member_search l) (sym e)), (λ l d n. absurd (ground (arith, n))))
  iterate-Places (key none d ks) old new h =
      let (unique, missing, present) = iterate-Places ks old new h in
      (unique, (λ l n. missing l (ground (arith, n))), (λ l e n. present l e (ground (arith, n))))
  iterate-Places (key (some k) d ks) old new h =
      let (j, gen, rest) =
        bind-some (generate_value melon d)
          (λ j. update_unless_none melon k j old >>= λ more. iterate melon ks more) new h in
      let (more, updated, iterated) =
        bind-some (update_unless_none melon k j old) (λ more. iterate melon ks more) new rest in
      let (unique, missing, present) = iterate-Places ks more new iterated in
      let (found, others, keeps) =
        update-Updates k j old more updated (generate_value-is_none d j gen) in
      (
        (λ u. unique (keeps u)),
        (λ l n. missing l (ground (arith, n)) ∙ others l (ground (arith, n))),
        (λ l e n. elim (Option-cases (key_search l ks)) [
          | inl absent ↦
              let same : l ≡ k = bytes_eq→eq l k (ground (arith, n, absent)) in
              (
                j,
                ground (arith, n, absent, gen),
                missing l absent ∙ ap (λ x. member_search x more) same ∙ found,
              )
          | inr (e', there) ↦ present l e (ground (arith, n, there))
        ]),
      )
