-- ===== src/Libraries/Ciphers.antt =====
-- lib_src/aes, base64, des, md5, prime, rc and sha: the methods that each library registers.
use melang.Base.{List, [], ◌∷◌}
use melang.Register.{Method, member}

abbrev pub aes : Method
aes = record { place = member; name = "aes"; params = "data" ∷ "key" ∷ "bits" ∷ "op" ∷ [] }

abbrev pub aes_methods : List Method
aes_methods = aes ∷ []

abbrev pub base64 : Method
base64 = record { place = member; name = "base64"; params = "data" ∷ "op" ∷ [] }

abbrev pub base64_methods : List Method
base64_methods = base64 ∷ []

abbrev pub des_handler : Method
des_handler = record { place = member; name = "des"; params = "data" ∷ "key" ∷ "op" ∷ [] }

abbrev pub des3_handler : Method
des3_handler = record {
  place = member;
  name = "des3";
  params = "data" ∷ "key1" ∷ "key2" ∷ "op" ∷ [];
}

abbrev pub des_methods : List Method
des_methods = des_handler ∷ des3_handler ∷ []

abbrev pub md5 : Method
md5 = record { place = member; name = "md5"; params = "data" ∷ [] }

abbrev pub md5_methods : List Method
md5_methods = md5 ∷ []

abbrev pub prime : Method
prime = record { place = member; name = "prime"; params = "base" ∷ [] }

abbrev pub prime_methods : List Method
prime_methods = prime ∷ []

abbrev pub rc : Method
rc = record { place = member; name = "rc4"; params = "data" ∷ "key" ∷ [] }

abbrev pub rc_methods : List Method
rc_methods = rc ∷ []

abbrev pub sha1_handler : Method
sha1_handler = record { place = member; name = "sha1"; params = "data" ∷ [] }

abbrev pub sha256_handler : Method
sha256_handler = record { place = member; name = "sha256"; params = "data" ∷ [] }

abbrev pub sha_methods : List Method
sha_methods = sha1_handler ∷ sha256_handler ∷ []
