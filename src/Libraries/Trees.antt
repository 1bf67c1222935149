-- ===== src/Libraries/Trees.antt =====
-- lib_src/json and lib_src/matrix: the methods that each library registers.
use melang.Base.{List, [], ◌∷◌}
use melang.Register.{Method, member}

abbrev pub json_encode_handler : Method
json_encode_handler = record { place = member; name = "encode"; params = "array" ∷ [] }

abbrev pub json_decode_handler : Method
json_decode_handler = record { place = member; name = "decode"; params = "s" ∷ [] }

abbrev pub json_methods : List Method
json_methods = json_encode_handler ∷ json_decode_handler ∷ []

abbrev pub matrix_mul_handler : Method
matrix_mul_handler = record { place = member; name = "mul"; params = "a1" ∷ "a2" ∷ [] }

abbrev pub matrix_inv_handler : Method
matrix_inv_handler = record { place = member; name = "inv"; params = "array" ∷ [] }

abbrev pub matrix_methods : List Method
matrix_methods = matrix_mul_handler ∷ matrix_inv_handler ∷ []
