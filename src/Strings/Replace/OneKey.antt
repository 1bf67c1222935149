-- ===== src/Strings/Replace/OneKey.antt =====
-- replace with one key is the substitution from left to right.
use mathlib.Core.List.{append-nil, append_assoc}
use melang.Base.{
  ℕ, zero, suc, ◌+◌, ◌-◌, ◌≤◌, ◌<◌, ◌≡◌, refl, sym, ap, ◌∙◌, true, List, [], ◌∷◌, ◌++◌, none, some,
  Option-cases, Bool-cases, inl, inr, All, ltb, length, take, drop, length-drop, arith,
  if◌then◌else◌,
}
use melang.Script.{Bytes, Value, string, Result, ok}
use melang.Strings.Replace.{
  Pos, insert_pos, Finder, ReplaceGrants, find_loop, collect, copy_loop, replace_do,
}
use melang.Strings.Replace.Substitute.{FindsInside, replace_do-total}

-- The value in the place of the first occurrence of the key, and so on in what is behind it.
unfoldable pub substitute : Finder → ℕ → Bytes → Bytes → Bytes → Bytes
substitute finder zero s k v = s
substitute finder (suc n) s k v = elim (finder.strstr s k) [
  | none ↦ s
  | some p ↦ take p s ++ (v ++ substitute finder n (drop (p + length k) s) k v)
]

-- The places of the key in `s`, which stands at `base`.
unfoldable places : Finder → ℕ → ℕ → Bytes → Bytes → Bytes → List Pos
places finder zero base s k v = []
places finder (suc n) base s k v = elim (finder.strstr s k) [
  | none ↦ []
  | some p ↦
      record { off = base + p; key = k; value = v }
      ∷ places finder n (base + p + length k) (drop (p + length k) s) k v
]

insert_pos-last :
    (p : Pos) (base : ℕ) (qs : List Pos)
    → base ≤ p.off
    → All (λ q. q.off < base) qs
    → insert_pos p qs ≡ qs ++ p ∷ []
unfolding insert_pos
insert_pos-last p base [] le a = refl
insert_pos-last p base (q ∷ qs) le (lt, a) = ground (arith, le, lt, insert_pos-last p base qs le a)

All-below :
    (p : Pos) (base next : ℕ) (qs : List Pos)
    → base ≤ next
    → p.off < next
    → All (λ q. q.off < base) qs
    → All (λ q. q.off < next) (qs ++ p ∷ [])
All-below p base next [] le lt a = (lt, tt)
All-below p base next (q ∷ qs) le lt (b, a) =
    (omega (arith, b, le), All-below p base next qs le lt a)

drop_empty : (i : ℕ) → drop {A = ℕ} i [] ≡ []
drop_empty zero = refl
drop_empty (suc i) = refl

drop-drop : (m n : ℕ) (xs : Bytes) → drop (m + n) xs ≡ drop n (drop m xs)
drop-drop zero n xs = ap (λ i. drop i xs) (omega arith)
drop-drop (suc m) n [] = drop_empty (suc m + n) ∙ sym (drop_empty n)
drop-drop (suc m) n (x ∷ xs) =
    let sum : suc m + n ≡ suc (m + n) = omega arith in
    ap (λ i. drop i (x ∷ xs)) sum ∙ drop-drop m n xs

drop_further :
    (base p n : ℕ) (whole s : Bytes)
    → drop base whole ≡ s
    → drop (base + p + n) whole ≡ drop (p + n) s
drop_further base p n whole s is =
    let sum : base + p + n ≡ base + (p + n) = omega arith in
    ap (λ i. drop i whole) sum ∙ drop-drop base (p + n) whole ∙ ap (λ xs. drop (p + n) xs) is

ok-injective : {xs ys : List Pos} → Path (Result (List Pos)) (ok xs) (ok ys) → xs ≡ ys
ok-injective h = cc h

none_left : (s : Bytes) → length s ≡ 0 → [] ≡ s
none_left [] h = refl
none_left (c ∷ s) h = absurd (omega (arith, h))

-- The bytes that the loop copies behind the last place and before a place.
behind :
    (base : ℕ) (whole s : Bytes)
    → base + length s ≡ length whole
    → drop base whole ≡ s
    → (if ltb base (length whole) then drop base whole else []) ≡ s
behind base whole s at is = elim (Bool-cases (ltb base (length whole))) [
  | inl lt ↦ rw lt is
  | inr ge ↦ rw ge (none_left s (ground (arith, ge, at)))
]

before :
    (base p : ℕ) (xs : Bytes)
    → (if ltb base (base + p) then take (base + p - base) xs else []) ≡ take p xs
before base p xs = elim (Bool-cases (ltb base (base + p))) [
  | inl lt ↦ rw lt (ap (λ i. take i xs) (omega arith))
  | inr ge ↦ let none_before : 0 ≡ p = ground (arith, ge) in rw ge (ap (λ i. take i xs) none_before)
]

module _ (finder : Finder) (g : ReplaceGrants) (finds : FindsInside finder) where
  find_loop-places :
      (n base : ℕ) (s k v : Bytes) (ps : List Pos)
      → ((i : ℕ) → g.pos i ≡ true)
      → length s < n
      → 1 ≤ length k
      → All (λ q. q.off < base) ps
      → find_loop finder g n base s k v ps ≡ ok (ps ++ places finder n base s k v)
  unfolding find_loop places
  find_loop-places zero base s k v ps all lt key a = absurd (omega (arith, lt))
  find_loop-places (suc n) base s k v ps all lt key a = elim (Option-cases (finder.strstr s k)) [
    | inl e ↦ rw (e, find_loop, places) (ap ok (sym (append-nil ps)))
    | inr (p, e) ↦
        let le = finds s k p e in
        let here : Pos = record { off = base + p; key = k; value = v } in
        let next = base + p + length k in
        let last : insert_pos here ps ≡ ps ++ here ∷ [] =
          insert_pos-last here base ps (omega arith) a in
        let rest =
          find_loop-places n next (drop (p + length k) s) k v (ps ++ here ∷ []) all
            (omega (arith, lt, key, le, length-drop (p + length k) s)) key
            (All-below here base next ps (omega arith) (omega (arith, key)) a) in
        rw (e, find_loop, places, all (base + p), last)
          (rest ∙ ap ok (append_assoc ps (here ∷ []) _))
  ]

  copy_loop-places :
      (whole : Bytes) (n base : ℕ) (s k v : Bytes)
      → base + length s ≡ length whole
      → drop base whole ≡ s
      → copy_loop (places finder n base s k v) base whole ≡ substitute finder n s k v
  unfolding copy_loop places substitute
  copy_loop-places whole zero base s k v at is = behind base whole s at is
  copy_loop-places whole (suc n) base s k v at is = elim (Option-cases (finder.strstr s k)) [
    | inl e ↦ rw (e, places, substitute) (behind base whole s at is)
    | inr (p, e) ↦
        let rest =
          copy_loop-places whole n (base + p + length k) (drop (p + length k) s) k v
            (omega (arith, at, finds s k p e, length-drop (p + length k) s))
            (drop_further base p (length k) whole s is) in
        rw (e, places, substitute, rest)
          (ap (λ xs. xs ++ (v ++ substitute finder n (drop (p + length k) s) k v))
            (before base p (drop base whole) ∙ ap (λ xs. take p xs) is))
  ]

  -- Where every allocation is granted and the places that are found lie in the string that is searched:
  -- replace by a dictionary with one key that is not empty returns the string with the value in the place
  -- of the key's first occurrence, and so on in what is behind that.
  pub replace_do-substitute :
      (s k v : Bytes)
      → ((i : ℕ) → g.pos i ≡ true)
      → g.buf ≡ true
      → g.val ≡ true
      → 1 ≤ length k
      → replace_do finder g ((string k, string v) ∷ []) s
        ≡ ok (string (substitute finder (suc (length s)) s k v))
  unfolding collect
  replace_do-substitute s k v all buf val key =
      let dict : List (Value × Value) = (string k, string v) ∷ [] in
      let (ps, e, exact, r) = replace_do-total finder g finds s dict all buf val (key, tt) in
      let found = find_loop-places (suc (length s)) 0 s k v [] all (omega arith) key tt in
      let collected : collect finder g s dict [] ≡ ok (places finder (suc (length s)) 0 s k v) =
        rw found refl in
      let same : ps ≡ places finder (suc (length s)) 0 s k v = ok-injective (sym e ∙ collected) in
      r
      ∙ ap (λ qs. ok (string (copy_loop qs 0 s))) same
      ∙ ap (λ t. ok (string t)) (copy_loop-places s (suc (length s)) 0 s k v (omega arith) refl)
