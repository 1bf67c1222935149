-- ===== src/Strings/Join/Intercalate.antt =====
-- join against its specification: the texts of the elements with the glue between them.
use text.Mathlib.Text.{◌==◌ as str_eq}
use mathlib.Core.List.{map, append_assoc, append-nil}
use melang.Base.{
  ℕ, ◌+◌, ◌≡◌, refl, sym, ap, ◌∙◌, true, List, [], ◌∷◌, ◌++◌, Option, none, some, if◌then◌else◌,
  All,
}
use melang.Script.{Bytes, Value, string, array, Env, var, ok}
use melang.Strings.Join.{Grant, join, join_loop, joined}

abbrev pub intercalate : Bytes → List Bytes → Bytes
intercalate glue [] = []
intercalate glue (t ∷ []) = t
intercalate glue (t ∷ u ∷ ts) = t ++ glue ++ intercalate glue (u ∷ ts)

-- The texts that follow one, each behind the glue.
abbrev behind : Bytes → List Bytes → Bytes
behind glue [] = []
behind glue (t ∷ ts) = glue ++ t ++ behind glue ts

intercalate-behind :
    (glue t : Bytes) (ts : List Bytes) → intercalate glue (t ∷ ts) ≡ t ++ behind glue ts
intercalate-behind glue t [] = sym (append-nil t)
intercalate-behind glue t (u ∷ ts) = simp (intercalate-behind glue u ts, append_assoc)

abbrev pub all_granted : ℕ → Grant
all_granted k = record { buf = true; str = true }

-- The arguments of join.
abbrev pub join_env : Bytes → ℕ → Env
join_env glue a name = if str_eq name "glue" then some (var (string glue)) else some (var (array a))

module _ (tostring : Value → Option Bytes) (text : Value → Bytes) where
  -- Each of these values has a text.
  abbrev pub Converts : List Value → Type 0
  Converts = All (λ v. tostring v ≡ some (text v))

  join_loop-behind :
      (k : ℕ) (glue res : Bytes) (vs : List Value)
      → Converts vs
      → join_loop tostring all_granted k glue vs (some res)
        ≡ ok (some (res ++ behind glue (map text vs)))
  unfolding join_loop
  join_loop-behind k glue res [] each = simp (append-nil res)
  join_loop-behind k glue res (v ∷ vs) (converts, each) = rw converts (
      join_loop-behind (k + 1) glue (res ++ glue ++ text v) vs each
      ∙ ap (λ bs. ok (some bs)) (simp append_assoc))

  join_loop-joined :
      (glue : Bytes) (vs : List Value)
      → Converts vs
      → (res : Option Bytes) × (join_loop tostring all_granted 0 glue vs none ≡ ok res)
        × (joined res ≡ intercalate glue (map text vs))
  unfolding join_loop
  join_loop-joined glue [] each = (none, refl, refl)
  join_loop-joined glue (v ∷ vs) (converts, each) = (
    some (text v ++ behind glue (map text vs)),
    rw converts (join_loop-behind 1 glue (text v) vs each),
    sym (intercalate-behind glue (text v) (map text vs)),
  )

  -- When all is granted and every element has a text, join is the texts of the elements of the
  -- array, in the order of their index, with the glue between each two; an empty array gives "".
  pub join-intercalate :
      (elements : ℕ → List Value) (glue : Bytes) (a : ℕ)
      → Converts (elements a)
      → join tostring elements all_granted true (join_env glue a)
        ≡ ok (string (intercalate glue (map text (elements a))))
  unfolding join
  join-intercalate elements glue a each =
      let (res, run, same) = join_loop-joined glue (elements a) each in
      rw run (ap (λ bs. ok (string bs)) same)
