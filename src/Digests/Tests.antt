-- ===== src/Digests/Tests.antt =====
-- The digests of a file in two parts, where the toy digest is the sum of the bytes.
use melang.Base.{ℕ, ◌+◌, ◌%◌, ◌^◌, ◌≡◌, refl, true, [], ◌∷◌, List, some}
use melang.Script.{Bytes, int, string, obj, given, ok}
use melang.Digests.{
  file_name, Hash, Files, Digesters, digest, md5_process, sha1_process, sha256_process,
  prime_process,
}
use melang.Digests.Streams.{IsStreaming, reads_of, joined, digests-joined}

unfoldable sum : Bytes → ℕ → ℕ
sum [] n = n
sum (b ∷ bs) n = sum bs (n + b)

abbrev toy : Hash ℕ
toy = record { start = 0; calc = λ n bs last. sum bs n; text = λ n. n % 256 ∷ [] }

toy-IsStreaming : IsStreaming ℕ toy
unfolding sum
toy-IsStreaming n [] cs = refl
toy-IsStreaming n (b ∷ bs) cs = toy-IsStreaming (n + b) bs cs

abbrev digesters : Digesters
digesters = record { Md5 = ℕ; Sha1 = ℕ; Sha256 = ℕ; md5 = toy; sha1 = toy; sha256 = toy }

abbrev parts : List Bytes
parts = (1 ∷ 2 ∷ []) ∷ (3 ∷ []) ∷ []

abbrev files : Files
files = record { in_set = λ o. some file_name; fd = λ o. some (int 5); read = λ fd. reads_of parts }

md5_of_string :
    md5_process digesters files true (given (string (1 ∷ 2 ∷ 3 ∷ []))) ≡ ok (string (6 ∷ []))
unfolding md5_process digest sum
md5_of_string = refl

-- A number that 32 bits cannot hold wraps around.
prime_of_wrapped : prime_process (λ p. p) true (given (int (2 ^ 32 + 7))) ≡ ok (int 7)
unfolding prime_process
prime_of_wrapped = refl

digests-joined_example :
    (md5_process digesters files true (given (obj 3))
      ≡ md5_process digesters files true (given (string (joined parts))))
    × (sha1_process digesters files true (given (obj 3))
        ≡ sha1_process digesters files true (given (string (joined parts))))
    × (sha256_process digesters files true (given (obj 3))
        ≡ sha256_process digesters files true (given (string (joined parts))))
digests-joined_example =
    digests-joined digesters files true 3 parts toy-IsStreaming toy-IsStreaming toy-IsStreaming
      (5, refl, refl, refl)
