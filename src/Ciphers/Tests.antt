-- ===== src/Ciphers/Tests.antt =====
-- The round trips with toy ciphers that keep what is asked of Melon's.
use melang.Base.{◌+◌, ◌-◌, ◌≡◌, refl, ◌∙◌, inl, true, [], ◌∷◌, ◌++◌, length, length-map, map, arith}
use melang.Script.{Bytes}
use melang.Ciphers.{encode_name, decode_name}
use melang.Ciphers.Aes.{Aes, aes_process}
use melang.Ciphers.RoundTrip.{aes_call, overwritten, aes_process-inverse}

abbrev up : Bytes → Bytes
up s = map (λ x. x + 1) s

abbrev down : Bytes → Bytes
down s = map (λ x. x - 1) s

down-up : (s : Bytes) → down (up s) ≡ s
down-up [] = refl
down-up (x ∷ s) = ground (arith, down-up s)

abbrev toy_aes : Aes
toy_aes = record { encrypt = λ key bits b. up b; decrypt = λ key bits b. down b }

abbrev sixteen : Bytes
sixteen = 1 ∷ 2 ∷ 3 ∷ 4 ∷ 5 ∷ 6 ∷ 7 ∷ 8 ∷ 9 ∷ 10 ∷ 11 ∷ 12 ∷ 13 ∷ 14 ∷ 15 ∷ 16 ∷ []

abbrev two_blocks : Bytes
two_blocks = sixteen ++ sixteen

aes_process-inverse_example :
    (c : Bytes) × (length c ≡ 32)
    × (aes_process toy_aes true (aes_call two_blocks sixteen 128 encode_name) ≡ overwritten c)
    × (aes_process toy_aes true (aes_call c sixteen 128 decode_name) ≡ overwritten two_blocks)
aes_process-inverse_example =
    aes_process-inverse toy_aes two_blocks sixteen 128 (inl refl) (omega arith) refl
      (λ b h. length-map b (λ x. x + 1) ∙ h) (λ b h. down-up b)
