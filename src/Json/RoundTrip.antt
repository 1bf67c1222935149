-- ===== src/Json/RoundTrip.antt =====
-- decode after encode: what a script finds at any place of an array, it finds there again.
pub mod Generated
pub mod Decoded
pub mod Objects
pub mod Indexes
pub mod Total
pub mod Paths
use melang.Base.{
  ℕ, ◌+◌, ◌≡◌, refl, Bool, true, false, List, [], ◌∷◌, Option, none, some, ◌>>=◌, ◌==◌,
  if◌then◌else◌,
}
use melang.Script.{Bytes}
use melang.Json.{
  Datum, nil, bool, int, real, string, null_string, obj, func, array, null_array, Indexed, no_index,
  index, Keyed, no_key, key, index_search, key_search,
}
use melang.Json.Melon.{Melon}
use melang.Json.Decode.{number}

-- A place in an array: indexes into arrays without keys, keys into the others.
pub data Step : Type 0 where
  by_index : ℕ → Step
  by_key : Bytes → Step

abbrev pub scalar : Datum → Option Datum
scalar nil = some nil
scalar (bool b) = some (bool b)
scalar (int i) = some (int i)
scalar (real f) = some (real f)
scalar (string s) = some (string s)
scalar null_string = none
scalar obj = none
scalar func = none
scalar (array ix ks) = none
scalar null_array = none

abbrev pub step : Step → Datum → Option Datum
step (by_index i) (array ix no_key) = index_search i ix
step (by_key k) (array ix ks) = key_search k ks
step s d = none

-- The value that is no array at the end of a path.
abbrev pub at : List Step → Datum → Option Datum
at [] d = scalar d
at (s ∷ p) d = step s d >>= at p

-- What a value becomes: a boolean 0 or 1, a number an integer where the double is one.
abbrev pub canonical : Melon → Datum → Datum
canonical melon (bool b) = bool (if b == 0 then 0 else 1)
canonical melon (int i) = number melon (melon.double_of i)
canonical melon (real f) = number melon f
canonical melon d = d
