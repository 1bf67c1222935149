-- ===== src/Ciphers/RoundTrip.antt =====
-- Encoding and decoding with the same key gives the data back; and which calls write to the string
-- object of the argument data.
use melang.Base.{
  ℕ, ◌*◌, ◌/◌, ◌%◌, ◌≤◌, ◌≡◌, refl, ap, ◌∙◌, ◌⊎◌, inl, inr, Bool, true, false, [], ◌∷◌, none, some,
  length, arith, bytes_eq, if◌then◌else◌,
}
use melang.Script.{args, Bytes, int, string, Env, ok, err, no_memory}
use melang.Ciphers.{encode_name, decode_name, op_of, Outcome}
use melang.Ciphers.Aes.{Aes, aes_args, aes_process, aes_done, blocks, bits_of}
use melang.Ciphers.Aes.Blocks.{length-blocks, blocks-inverse}
use melang.Ciphers.Rc.{rc4_args, rc4_process}
use melang.Ciphers.Des.{DesGrants, des_process, des3_process}
use melang.Ciphers.Base64.{Codec, from_codec, base64_process}

abbrev pub aes_call : Bytes → Bytes → ℕ → Bytes → Env
aes_call s key bits op =
    args (("data", string s) ∷ ("key", string key) ∷ ("bits", int bits) ∷ ("op", string op) ∷ [])

abbrev pub rc4_call : Bytes → Bytes → Env
rc4_call s key = args (("data", string s) ∷ ("key", string key) ∷ [])

-- What a call leaves that wrote `s` over the string object of data and returns that object.
abbrev pub overwritten : Bytes → Outcome
overwritten s = record { written = some s; answer = ok (string s) }

op_of-encode : (n : ℕ) → op_of n encode_name ≡ ok true
unfolding bytes_eq
op_of-encode n = refl

op_of-decode : (n : ℕ) → op_of n decode_name ≡ ok false
unfolding bytes_eq
op_of-decode n = refl

bits_of-fits :
    (key : Bytes) (bits : ℕ)
    → ((bits ≡ 128) ⊎ ((bits ≡ 192) ⊎ (bits ≡ 256)))
    → bits ≤ 8 * length key
    → bits_of key bits ≡ ok bits
bits_of-fits key bits (inl e) le = ground (arith, e)
bits_of-fits key bits (inr (inl e)) le = ground (arith, e)
bits_of-fits key bits (inr (inr e)) le = ground (arith, e)

aes_args-call :
    (s key op : Bytes) (bits : ℕ) (encode : Bool)
    → bits_of key bits ≡ ok bits
    → length s % 16 ≡ 0
    → op_of 4 op ≡ ok encode
    → aes_args (aes_call s key bits op)
      ≡ ok (record { encode = encode; key = key; bits = bits; text = s })
unfolding aes_args
aes_args-call s key op bits encode fits whole is_op = ground (arith, fits, whole, is_op)

-- Where the key has at least the `bits` bits asked for and the length of the data is a multiple of
-- 16, and Melon's decryption of a block undoes its encryption: aes with "encode" and then "decode"
-- gives the data back, and the cipher text is as long. Both calls write what they return over the
-- string object that the argument data refers to.
pub aes_process-inverse :
    (aes : Aes) (s key : Bytes) (bits : ℕ)
    → ((bits ≡ 128) ⊎ ((bits ≡ 192) ⊎ (bits ≡ 256)))
    → bits ≤ 8 * length key
    → length s % 16 ≡ 0
    → ((b : Bytes) → length b ≡ 16 → length (aes.encrypt key bits b) ≡ 16)
    → ((b : Bytes) → length b ≡ 16 → aes.decrypt key bits (aes.encrypt key bits b) ≡ b)
    → (c : Bytes) × (length c ≡ length s)
      × (aes_process aes true (aes_call s key bits encode_name) ≡ overwritten c)
      × (aes_process aes true (aes_call c key bits decode_name) ≡ overwritten s)
unfolding aes_process
aes_process-inverse aes s key bits known le whole keeps undoes =
    let fits = bits_of-fits key bits known le in
    let n = length s / 16 in
    let size : length s ≡ 16 * n = omega (arith, whole) in
    let c = blocks (aes.encrypt key bits) n s in
    let same : length c ≡ length s =
      omega (arith, size, length-blocks (aes.encrypt key bits) n s keeps size) in
    (
      c,
      same,
      ap (aes_done aes true)
          (aes_args-call s key encode_name bits true fits whole (op_of-encode 4)),
      ap (aes_done aes true) (
            aes_args-call c key decode_name bits false fits (omega (arith, same, whole))
              (op_of-decode 4))
          ∙ ap overwritten (
              ap (λ m. blocks (aes.decrypt key bits) m c) (omega (arith, same, size))
              ∙ blocks-inverse (aes.encrypt key bits) (aes.decrypt key bits) n s keeps undoes size),
    )

-- Where running the key stream twice gives the data back: so does rc4, called twice with the same
-- key, and each call writes what it returns over the string object of its argument data.
rc4_process-inverse :
    (rc4 : Bytes → Bytes → Bytes) (s key : Bytes)
    → rc4 key (rc4 key s) ≡ s
    → (c : Bytes) × (rc4_process rc4 true (rc4_call s key) ≡ overwritten c)
      × (rc4_process rc4 true (rc4_call c key) ≡ overwritten s)
unfolding rc4_process rc4_args
rc4_process-inverse rc4 s key twice = (rc4 key s, refl, ap overwritten twice)

abbrev pub des_call : Bytes → ℕ → Bytes → Env
des_call s key op = args (("data", string s) ∷ ("key", int key) ∷ ("op", string op) ∷ [])

abbrev pub des3_call : Bytes → ℕ → ℕ → Bytes → Env
des3_call s key1 key2 op =
    args (("data", string s) ∷ ("key1", int key1) ∷ ("key2", int key2) ∷ ("op", string op) ∷ [])

abbrev pub base64_call : Bytes → Bytes → Env
base64_call s op = args (("data", string s) ∷ ("op", string op) ∷ [])

abbrev pub all_granted : DesGrants
all_granted = record { buf = true; val = true }

des_process-op :
    (des : ℕ → Bool → Bytes → Bytes) (s op : Bytes) (key : ℕ) (encode : Bool)
    → length s % 8 ≡ 0
    → op_of 3 op ≡ ok encode
    → des_process des all_granted (des_call s key op) ≡ ok (string (des key encode s))
unfolding des_process
des_process-op des s op key encode whole is_op = ground (arith, whole, is_op)

des3_process-op :
    (des3 : ℕ → ℕ → Bool → Bytes → Bytes) (s op : Bytes) (key1 key2 : ℕ) (encode : Bool)
    → length s % 8 ≡ 0
    → op_of 4 op ≡ ok encode
    → des3_process des3 all_granted (des3_call s key1 key2 op)
      ≡ ok (string (des3 key1 key2 encode s))
unfolding des3_process
des3_process-op des3 s op key1 key2 encode whole is_op = ground (arith, whole, is_op)

-- Where the length of the data is a multiple of 8 and Melon's decryption of a buffer undoes its
-- encryption of the same length, des and des3, called with "encode" and then with "decode" and the
-- same keys, give the data back.
des_process-inverse :
    (des : ℕ → Bool → Bytes → Bytes) (des3 : ℕ → ℕ → Bool → Bytes → Bytes) (s : Bytes)
    (key key1 key2 : ℕ)
    → length s % 8 ≡ 0
    → length (des key true s) ≡ length s
    → des key false (des key true s) ≡ s
    → length (des3 key1 key2 true s) ≡ length s
    → des3 key1 key2 false (des3 key1 key2 true s) ≡ s
    → ((c : Bytes) × (des_process des all_granted (des_call s key encode_name) ≡ ok (string c))
        × (des_process des all_granted (des_call c key decode_name) ≡ ok (string s)))
      × ((c : Bytes) × (des3_process des3 all_granted (des3_call s key1 key2 encode_name)
            ≡ ok (string c))
          × (des3_process des3 all_granted (des3_call c key1 key2 decode_name) ≡ ok (string s)))
des_process-inverse des des3 s key key1 key2 whole same undoes same3 undoes3 = (
  (
    des key true s,
    des_process-op des s encode_name key true whole (op_of-encode 3),
    des_process-op des (des key true s) decode_name key false (omega (arith, same, whole))
          (op_of-decode 3)
        ∙ ap (λ x. ok (string x)) undoes,
  ),
  (
    des3 key1 key2 true s,
    des3_process-op des3 s encode_name key1 key2 true whole (op_of-encode 4),
    des3_process-op des3 (des3 key1 key2 true s) decode_name key1 key2 false
          (omega (arith, same3, whole)) (op_of-decode 4)
        ∙ ap (λ x. ok (string x)) undoes3,
  ),
)

base64_process-op :
    (codec : Codec) (s op : Bytes) (encode : Bool)
    → op_of 2 op ≡ ok encode
    → base64_process codec true (base64_call s op)
      ≡ from_codec true (if encode then codec.base64_encode s else codec.base64_decode s)
unfolding base64_process
base64_process-op codec s op encode is_op = ground (arith, is_op)

-- Where Melon decodes the text that it encoded the data to: base64 with "encode" and then with
-- "decode" gives the data back. A text that Melon does not decode is reported as "No memory.".
base64_process-inverse :
    (codec : Codec) (s c bad : Bytes)
    → codec.base64_encode s ≡ some c
    → codec.base64_decode c ≡ some s
    → codec.base64_decode bad ≡ none
    → (base64_process codec true (base64_call s encode_name) ≡ ok (string c))
      × (base64_process codec true (base64_call c decode_name) ≡ ok (string s))
      × (base64_process codec true (base64_call bad decode_name) ≡ err no_memory)
base64_process-inverse codec s c bad e d n = (
  base64_process-op codec s encode_name true (op_of-encode 2) ∙ ap (from_codec true) e,
  base64_process-op codec c decode_name false (op_of-decode 2) ∙ ap (from_codec true) d,
  base64_process-op codec bad decode_name false (op_of-decode 2) ∙ ap (from_codec true) n,
)
