-- ===== src/Strings/Methods.antt =====
-- lib_src/string/mln_lang_string.c: the methods that the string library registers, in the order of
-- mln_lang_string: a loop over eight methods of two parameters, then one handler after the other.
pub mod Members
use melang.Base.{ℕ, Bool, List, [], ◌∷◌, ◌++◌}
use mathlib.Core.List.{map}
use Prim.Native.String.{String}
use melang.Register.{Method, member, scope, Outcome, register_all}

-- The table `funcs` of mln_lang_string.
abbrev pub funcs : List String
funcs =
    "strseqcmp" ∷ "strcmp" ∷ "strstr" ∷ "kmp" ∷ "slice" ∷ "reg_equal" ∷ "reg_match" ∷ "trim" ∷ []

abbrev pub of_two : String → Method
of_two name = record { place = member; name = name; params = "s1" ∷ "s2" ∷ [] }

abbrev pub strncmp_handler : Method
strncmp_handler = record { place = member; name = "strncmp"; params = "s1" ∷ "s2" ∷ "n" ∷ [] }

abbrev pub split_handler : Method
split_handler = record { place = member; name = "split"; params = "s" ∷ "offset" ∷ "len" ∷ [] }

abbrev pub strlen_handler : Method
strlen_handler = record { place = member; name = "strlen"; params = "s" ∷ [] }

abbrev pub b2s_handler : Method
b2s_handler = record { place = member; name = "b2s"; params = "bin" ∷ [] }

abbrev pub s2b_handler : Method
s2b_handler = record { place = member; name = "s2b"; params = "s" ∷ "type" ∷ [] }

abbrev pub hex2bin_handler : Method
hex2bin_handler = record { place = member; name = "hex2bin"; params = "hex" ∷ [] }

-- The one handler that calls mln_lang_symbol_node_join in the place of mln_lang_set_member_add.
abbrev pub bin2hex_handler : Method
bin2hex_handler = record { place = scope; name = "bin2hex"; params = "bin" ∷ [] }

abbrev pub bin2int_handler : Method
bin2int_handler = record { place = member; name = "bin2int"; params = "bin" ∷ [] }

abbrev pub int2bin_handler : Method
int2bin_handler = record { place = member; name = "int2bin"; params = "i" ∷ [] }

abbrev pub bin2real_handler : Method
bin2real_handler = record { place = member; name = "bin2real"; params = "bin" ∷ [] }

abbrev pub real2bin_handler : Method
real2bin_handler = record { place = member; name = "real2bin"; params = "r" ∷ [] }

abbrev pub replace_handler : Method
replace_handler = record { place = member; name = "replace"; params = "dict" ∷ "str" ∷ [] }

abbrev pub upper_handler : Method
upper_handler = record { place = member; name = "upper"; params = "s" ∷ [] }

abbrev pub lower_handler : Method
lower_handler = record { place = member; name = "lower"; params = "s" ∷ [] }

abbrev pub join_handler : Method
join_handler = record { place = member; name = "join"; params = "glue" ∷ "arr" ∷ [] }

abbrev pub capitalize_handler : Method
capitalize_handler = record { place = member; name = "capitalize"; params = "s" ∷ [] }

abbrev pub string_methods : List Method
string_methods =
    map of_two funcs
    ++ strncmp_handler ∷ split_handler ∷ strlen_handler ∷ b2s_handler ∷ s2b_handler
      ∷ hex2bin_handler ∷ bin2hex_handler ∷ bin2int_handler ∷ int2bin_handler ∷ bin2real_handler
      ∷ real2bin_handler ∷ replace_handler ∷ upper_handler ∷ lower_handler ∷ join_handler
      ∷ capitalize_handler ∷ []

-- mln_lang_string
abbrev pub mln_lang_string : (ℕ → Bool) → Outcome
mln_lang_string granted = register_all granted 0 string_methods
