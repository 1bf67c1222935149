-- ===== src/Strings/Replace.antt =====
-- lib_src/string/mln_lang_string.c: replace, which puts the values of a dictionary in the place of its
-- keys. Where a key stands in a string is found by Melon, and a dictionary is the keys and values that
-- the iteration over it visits.
pub mod Substitute
pub mod OneKey
mod Tests
use melang.Base.{
  ℕ, zero, suc, ◌+◌, ◌-◌, Bool, true, false, List, [], ◌∷◌, ◌++◌, Option, none, some, ltb, leb,
  ◌==◌, length, take, drop, if◌then◌else◌,
}
use melang.Script.{
  Bytes, Value, string, Env, Result, ok, err, fault, no_memory, ◌>>=◌, string_of, granted,
}
use melang.Strings.Join.{asserted_as, array_of}

-- mln_lang_string_pos_t: where a key was found, with the element's key and value.
pub record Pos : Type 0 where
  pub off : ℕ
  pub key : Bytes
  pub value : Bytes

-- The chain is kept in the order of the offsets; a position goes before the first that is not smaller.
unfoldable pub insert_pos : Pos → List Pos → List Pos
insert_pos p [] = p ∷ []
insert_pos p (q ∷ qs) =
    let rest = insert_pos p qs in if leb p.off q.off then p ∷ q ∷ qs else q ∷ rest

-- mln_string_strstr as an offset, and the elements of a dictionary.
pub record Finder : Type 0 where
  pub strstr : Bytes → Bytes → Option ℕ
  pub elems : ℕ → List (Value × Value)

-- What the position at an offset, the buffer and the value returned are granted.
pub record ReplaceGrants : Type 0 where
  pub pos : ℕ → Bool
  pub buf : Bool
  pub val : Bool

module _ (finder : Finder) (g : ReplaceGrants) where
  -- The loop over the places of one key in `s`, which stands at `base` of the string. It runs on fuel;
  -- `fault` is a loop that needs more.
  unfoldable pub find_loop : ℕ → ℕ → Bytes → Bytes → Bytes → List Pos → Result (List Pos)
  unfolding insert_pos
  find_loop zero base s k v ps = fault
  find_loop (suc n) base s k v ps = elim (finder.strstr s k) [
    | none ↦ ok ps
    | some p ↦
        let rest =
          find_loop n (base + p + length k) (drop (p + length k) s) k v
            (insert_pos (record { off = base + p; key = k; value = v }) ps) in
        if g.pos (base + p) then rest else err no_memory
  ]

  -- Elements whose key or value is no string are passed over.
  abbrev pub visit : Bytes → Value → Value → List Pos → Result (List Pos)
  visit s (string k) (string v) ps = find_loop (suc (length s)) 0 s k v ps
  visit s k v ps = ok ps

  unfoldable pub collect : Bytes → List (Value × Value) → List Pos → Result (List Pos)
  collect s [] ps = ok ps
  collect s ((k, v) ∷ es) ps = do more ← visit s k v ps; collect s es more

-- The first loop counts the bytes, the second copies them.
unfoldable pub size_loop : List Pos → ℕ → ℕ → ℕ
size_loop [] off len = if ltb off len then len - off else 0
size_loop (p ∷ ps) off len =
    (if ltb off p.off then p.off - off else 0)
    + length p.value
    + size_loop ps (p.off + length p.key) len

unfoldable pub copy_loop : List Pos → ℕ → Bytes → Bytes
copy_loop [] off s = if ltb off (length s) then drop off s else []
copy_loop (p ∷ ps) off s =
    (if ltb off p.off then take (p.off - off) (drop off s) else [])
    ++ (p.value ++ copy_loop ps (p.off + length p.key) s)

-- `size` bytes are asked for, and `size` bytes are returned; the rest of the memory is not the C
-- function's.
abbrev pub filled : ReplaceGrants → ℕ → Bytes → Result Value
filled g size out =
    if g.buf
    then (if length out == size then granted g.val (string out) else fault)
    else err no_memory

unfoldable pub replace_do : Finder → ReplaceGrants → List (Value × Value) → Bytes → Result Value
replace_do finder g dict s =
    collect finder g s dict [] >>= λ ps. filled g (size_loop ps 0 (length s)) (copy_loop ps 0 s)

unfoldable pub replace : Finder → ReplaceGrants → Env → Result Value
replace finder g env = do
  u ← asserted_as 1 (env "dict")
  dict ← array_of 1 u
  v ← asserted_as 2 (env "str")
  s ← string_of 2 v
  replace_do finder g (finder.elems dict) s
