-- ===== src/Libraries/Members.antt =====
-- What a script finds on the object of each library that it imports.
use Prim.Native.String.{String, compare}
use Prim.Native.Nat.{Ordering}
use mathlib.Core.List.{map}
use melang.Base.{ℕ, ◌≡◌, Bool, true, false, ◌&&◌, List, [], ◌∷◌, ◌++◌, some}
use melang.Register.{Method, register_all}
use melang.Register.Ownership.{signature, settled, replay, entry}
use melang.Strings.Methods.{string_methods}
use melang.Strings.Methods.Members.{in_scope}
use melang.Libraries.Documented.{Signature}
use melang.MsgQueue.Methods.{mq_methods}
use melang.Libraries.Ciphers.{
  aes_methods, base64_methods, des_methods, md5_methods, prime_methods, rc_methods, sha_methods,
}
use melang.Libraries.Trees.{json_methods, matrix_methods}
use melang.Libraries.Sys.{sys_methods}
use melang.Libraries.Network.{network_methods, http_methods}
use melang.Libraries.Tls.{tls_methods}
use melang.Libraries.Sets.{file_methods, mysql_methods}

abbrev pub absent : String → List String → Bool
absent name [] = true
absent name (n ∷ ns) = elim (compare name n) [
  | Ordering.lt ↦ absent name ns
  | Ordering.eq ↦ false
  | Ordering.gt ↦ absent name ns
]

-- No name stands twice in a list.
abbrev pub distinct : List String → Bool
distinct [] = true
distinct (n ∷ ns) = absent n ns && distinct ns

abbrev pub name_of : Method → String
name_of m = m.name

-- The names of a library, and those of each method's parameters, are all different.
abbrev pub params_distinct : List Method → Bool
params_distinct [] = true
params_distinct (m ∷ ms) = distinct m.params && params_distinct ms

-- Both hold of every library.
abbrev pub well_named : List (List Method) → Bool
well_named [] = true
well_named (ms ∷ ls) = (distinct (map name_of ms) && params_distinct ms) && well_named ls

abbrev pub libraries : List (List Method)
libraries =
    aes_methods ∷ base64_methods ∷ des_methods ∷ md5_methods ∷ prime_methods ∷ rc_methods
    ∷ sha_methods ∷ json_methods ∷ matrix_methods ∷ sys_methods ∷ network_methods ∷ http_methods
    ∷ tls_methods ∷ file_methods ∷ mysql_methods ∷ string_methods ∷ mq_methods ∷ []

-- What a registration of the methods leaves when it returns 0 on `ms`.
abbrev pub Registered : (ℕ → Bool) → List Method → Type 0
Registered granted ms =
    ((register_all granted 0 ms).done ≡ true)
    × (replay (register_all granted 0 ms).calls (some (settled [])) ≡ some (settled (map entry ms)))
    × (distinct (map name_of ms) ≡ true)
    × (params_distinct ms ≡ true)

-- The methods of each library by their signatures, and the names in the scope of the importing context.
abbrev pub signatures : List (List Method) → List (List Signature)
signatures ls = map (λ ms. map signature (map entry ms)) ls

abbrev pub scoped : List (List Method) → List String
scoped [] = []
scoped (ms ∷ ls) = in_scope (map entry ms) ++ scoped ls
