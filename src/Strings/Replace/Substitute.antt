-- ===== src/Strings/Replace/Substitute.antt =====
-- replace returns, writes just the bytes that it counted, and puts the value in the place of each key.
use melang.Base.{
  ℕ, zero, suc, ◌+◌, ◌-◌, ◌≤◌, ◌<◌, ◌≡◌, refl, true, List, [], ◌∷◌, ◌++◌, some, Option-cases,
  Bool-cases, inl, inr, All, ltb, leb, ==_refl, length, take, drop, length-append, length-take,
  length-drop, arith,
}
use melang.Script.{Bytes, Value, string, ok}
use melang.Strings.Replace.{
  Pos, insert_pos, Finder, ReplaceGrants, find_loop, visit, collect, size_loop, copy_loop, filled,
  replace_do,
}

-- A place that is found lies in the string that is searched.
abbrev pub FindsInside : Finder → Type 0
FindsInside finder = (s k : Bytes) (p : ℕ) → finder.strstr s k ≡ some p → p + length k ≤ length s

abbrev Inside : Bytes → Pos → Type 0
Inside s q = q.off + length q.key ≤ length s

-- Keys are not empty; other elements than strings do not matter.
abbrev pub HasKey : Value × Value → Type 0
HasKey (string k, string v) = 1 ≤ length k
HasKey (k, v) = Unit

insert_pos-All :
    (P : Pos → Type 0) (p : Pos) (qs : List Pos) → P p → All P qs → All P (insert_pos p qs)
unfolding insert_pos
insert_pos-All P p [] h a = (h, tt)
insert_pos-All P p (q ∷ qs) h (b, a) = elim (Bool-cases (leb p.off q.off)) [
  | inl le ↦ rw le (h, (b, a))
  | inr gt ↦ rw gt (b, insert_pos-All P p qs h a)
]

length-copy_loop :
    (s : Bytes) (ps : List Pos) (off : ℕ)
    → All (Inside s) ps
    → off ≤ length s
    → length (copy_loop ps off s) ≡ size_loop ps off (length s)
unfolding copy_loop size_loop
length-copy_loop s [] off a le = ground (arith, length-drop off s)
length-copy_loop s (p ∷ ps) off (inside, a) le =
    let rest = length-copy_loop s ps (p.off + length p.key) a inside in
    let tail = p.value ++ copy_loop ps (p.off + length p.key) s in
    let second = length-append p.value (copy_loop ps (p.off + length p.key) s) in
    elim (Bool-cases (ltb off p.off)) [
      | inl before ↦ rw before (
          omega (
            arith,
            rest,
            second,
            length-append (take (p.off - off) (drop off s)) tail,
            length-take (p.off - off) (drop off s) (omega (arith, length-drop off s, inside)),
          ))
      | inr at ↦ rw at (omega (arith, rest, second))
    ]

filled-exact :
    (g : ReplaceGrants) (size : ℕ) (out : Bytes)
    → length out ≡ size
    → g.buf ≡ true
    → g.val ≡ true
    → filled g size out ≡ ok (string out)
filled-exact g size out exact buf val = rw (buf, exact, ==_refl size, val) refl

module _ (finder : Finder) (g : ReplaceGrants) (finds : FindsInside finder) where
  find_loop-total :
      (whole : Bytes) (n base : ℕ) (s k v : Bytes) (ps : List Pos)
      → ((i : ℕ) → g.pos i ≡ true)
      → length s < n
      → base + length s ≡ length whole
      → 1 ≤ length k
      → All (Inside whole) ps
      → (qs : List Pos) × (find_loop finder g n base s k v ps ≡ ok qs) × All (Inside whole) qs
  unfolding find_loop
  find_loop-total whole zero base s k v ps all lt at key a = absurd (omega (arith, lt))
  find_loop-total whole (suc n) base s k v ps all lt at key a =
      elim (Option-cases (finder.strstr s k)) [
        | inl e ↦ (ps, rw (e, find_loop) refl, a)
        | inr (p, e) ↦
            let le = finds s k p e in
            let here : Pos = record { off = base + p; key = k; value = v } in
            let (qs, h, b) =
              find_loop-total whole n (base + p + length k) (drop (p + length k) s) k v
                (insert_pos here ps) all (omega (arith, lt, key, le, length-drop (p + length k) s))
                (omega (arith, at, le, length-drop (p + length k) s)) key
                (insert_pos-All (Inside whole) here ps (omega (arith, at, le)) a) in
            (qs, rw (e, find_loop, all (base + p)) h, b)
      ]

  visit-total :
      (s : Bytes) (k v : Value) (ps : List Pos)
      → ((i : ℕ) → g.pos i ≡ true)
      → HasKey (k, v)
      → All (Inside s) ps
      → (qs : List Pos) × (visit finder g s k v ps ≡ ok qs) × All (Inside s) qs
  visit-total s (string k) (string v) ps all has a =
      find_loop-total s (suc (length s)) 0 s k v ps all (omega arith) (omega arith) has a
  visit-total s k v ps all has a = (ps, refl, a)

  collect-total :
      (s : Bytes) (dict : List (Value × Value)) (ps : List Pos)
      → ((i : ℕ) → g.pos i ≡ true)
      → All HasKey dict
      → All (Inside s) ps
      → (qs : List Pos) × (collect finder g s dict ps ≡ ok qs) × All (Inside s) qs
  unfolding collect
  collect-total s [] ps all has a = (ps, refl, a)
  collect-total s ((k, v) ∷ dict) ps all (h, has) a =
      let (qs, e, b) = visit-total s k v ps all h a in
      let (rs, f, c) = collect-total s dict qs all has b in (rs, rw e f, c)

  -- Where every allocation is granted and the places that are found lie in the string that is searched:
  -- replace by any dictionary without an empty key returns a string, and copies just as many bytes as it
  -- has counted, also where the places of several keys overlap.
  pub replace_do-total :
      (s : Bytes) (dict : List (Value × Value))
      → ((i : ℕ) → g.pos i ≡ true)
      → g.buf ≡ true
      → g.val ≡ true
      → All HasKey dict
      → (ps : List Pos) × (collect finder g s dict [] ≡ ok ps)
        × (length (copy_loop ps 0 s) ≡ size_loop ps 0 (length s))
        × (replace_do finder g dict s ≡ ok (string (copy_loop ps 0 s)))
  unfolding replace_do
  replace_do-total s dict all buf val has =
      let (ps, e, inside) = collect-total s dict [] all has tt in
      let exact = length-copy_loop s ps 0 inside (omega arith) in
      (ps, e, exact, rw e (filled-exact g _ (copy_loop ps 0 s) exact buf val))
