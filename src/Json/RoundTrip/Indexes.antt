-- ===== src/Json/RoundTrip/Indexes.antt =====
-- An array that encode accepts has no index outside the number of its elements.
use melang.Base.{
  ℕ, zero, suc, ◌+◌, ◌≤◌, ◌<◌, ◌≡◌, refl, List, [], ◌∷◌, some, length, count, erase, count-erase,
  arith, bind-some, Bool-cases, inl, inr, subst, ==_iff, ltb, ltb→lt, ◌>>=◌, ◌==◌,
}
use melang.Json.{Datum, Indexed, no_index, index, Json, Items, index_num, index_search}
use melang.Json.Melon.{Melon}
use melang.Json.Encode.{
  generate_value, generate_each, items_loop, append_unless_none, Made, made_search,
}

length-erase : (c : ℕ) (xs : List ℕ) → 1 ≤ count c xs → length xs ≡ suc (length (erase c xs))
length-erase c [] h = absurd (omega (arith, h))
length-erase c (x ∷ xs) h = ground (arith, length-erase c xs)

-- A list that has each number below `n` and one that is not has more than `n`.
pigeonhole :
    (n i : ℕ) (xs : List ℕ)
    → ((m : ℕ) → m < n → 1 ≤ count m xs)
    → n ≤ i
    → 1 ≤ count i xs
    → suc n ≤ length xs
pigeonhole zero i [] each le one = absurd (omega (arith, one))
pigeonhole zero i (x ∷ xs) each le one = omega arith
pigeonhole (suc n) i xs each le one =
    let rest =
      pigeonhole n i (erase n xs) (λ m lt. ground (arith, count-erase m n xs, each m (omega arith)))
        (omega arith) (ground (arith, count-erase i n xs)) in
    omega (arith, rest, length-erase n xs (each n (omega arith)))

abbrev indices : Indexed → List ℕ
indices no_index = []
indices (index i d ix) = i ∷ indices ix

length-indices : (ix : Indexed) → length (indices ix) ≡ index_num ix
length-indices no_index = refl
length-indices (index i d ix) = omega (arith, length-indices ix)

index_search-count :
    (i : ℕ) (d : Datum) (ix : Indexed) → index_search i ix ≡ some d → 1 ≤ count i (indices ix)
index_search-count i d no_index h = absurd (ground (arith, h))
index_search-count i d (index j e ix) h = ground (arith, h, index_search-count i d ix)

made_search-count :
    (melon : Melon) (i : ℕ) (j : Json) (ix : Indexed)
    → made_search i (generate_each melon ix) ≡ some j
    → 1 ≤ count i (indices ix)
unfolding generate_value
made_search-count melon i j no_index h = absurd (ground (arith, h))
made_search-count melon i j (index k e ix) h = ground (arith, h, made_search-count melon i j ix)

pub items_loop-step :
    (melon : Melon) (n i : ℕ) (ms : Made) (items full : Items)
    → items_loop melon (suc n) i ms items ≡ some full
    → (j : Json) × (longer : Items) × (made_search i ms ≡ some j)
      × (append_unless_none melon j items ≡ some longer)
      × (items_loop melon n (suc i) ms longer ≡ some full)
unfolding items_loop
items_loop-step melon n i ms items full h =
    let (j, found, rest) =
      bind-some (made_search i ms)
        (λ j. append_unless_none melon j items >>= λ longer. items_loop melon n (suc i) ms longer)
        full h in
    let (longer, added, loop) =
      bind-some (append_unless_none melon j items) (λ longer. items_loop melon n (suc i) ms longer)
        full rest in
    (j, longer, found, added, loop)

-- A loop that ends has found an element at each index.
pub items_loop-found :
    (melon : Melon) (n i : ℕ) (ms : Made) (items full : Items)
    → items_loop melon n i ms items ≡ some full
    → (m : ℕ) → i ≤ m
    → m < i + n
    → (j : Json) × (made_search m ms ≡ some j)
unfolding items_loop
items_loop-found melon zero i ms items full h m low high = absurd (omega arith)
items_loop-found melon (suc n) i ms items full h m low high =
    let (j, longer, found, added, loop) = items_loop-step melon n i ms items full h in
    elim (Bool-cases (i == m)) [
      | inl same ↦ (j, subst (λ x. made_search x ms ≡ some j) ((==_iff i m).0 same) found)
      | inr other ↦
          items_loop-found melon n (suc i) ms longer full loop m (ground arith) (omega arith)
    ]

pub generate_each-below :
    (melon : Melon) (ix : Indexed) (full items : Items) (i : ℕ) (d : Datum)
    → items_loop melon (index_num ix) 0 (generate_each melon ix) items ≡ some full
    → index_search i ix ≡ some d
    → i < index_num ix
generate_each-below melon ix full items i d h found = elim (Bool-cases (ltb i (index_num ix))) [
  | inl below ↦ ltb→lt i (index_num ix) below
  | inr above ↦ absurd (
      let more =
        pigeonhole (index_num ix) i (indices ix)
          (λ m lt.
            let (j, e) =
              items_loop-found melon (index_num ix) 0 (generate_each melon ix) items full h m
                (omega arith) (omega arith) in
            made_search-count melon m j ix e)
          (ground arith) (index_search-count i d ix found) in
      omega (arith, more, length-indices ix))
]
