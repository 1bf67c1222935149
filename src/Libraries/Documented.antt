-- ===== src/Libraries/Documented.antt =====
-- docs/lib: the calls that the page of each library shows, with their numbers of arguments, in the
-- order in which the library registers them.
use Prim.Native.String.{String}
use melang.Base.{ℕ, List, [], ◌∷◌}

abbrev pub Signature : Type 0
Signature = String × ℕ

abbrev pub aes_calls : List Signature
aes_calls = ("aes", 4) ∷ []

abbrev pub base64_calls : List Signature
base64_calls = ("base64", 2) ∷ []

abbrev pub des_calls : List Signature
des_calls = ("des", 3) ∷ ("des3", 4) ∷ []

abbrev pub md5_calls : List Signature
md5_calls = ("md5", 1) ∷ []

abbrev pub prime_calls : List Signature
prime_calls = ("prime", 1) ∷ []

abbrev pub rc_calls : List Signature
rc_calls = ("rc4", 2) ∷ []

abbrev pub sha_calls : List Signature
sha_calls = ("sha1", 1) ∷ ("sha256", 1) ∷ []

abbrev pub json_calls : List Signature
json_calls = ("encode", 1) ∷ ("decode", 1) ∷ []

abbrev pub matrix_calls : List Signature
matrix_calls = ("mul", 2) ∷ ("inv", 1) ∷ []

abbrev pub sys_calls : List Signature
sys_calls =
    ("size", 1)
    ∷ ("keys", 1)
    ∷ ("merge", 2)
    ∷ ("diff", 2)
    ∷ ("key_diff", 2)
    ∷ ("has", 2)
    ∷ ("is_int", 1)
    ∷ ("is_real", 1)
    ∷ ("is_str", 1)
    ∷ ("is_nil", 1)
    ∷ ("is_bool", 1)
    ∷ ("is_obj", 1)
    ∷ ("is_func", 1)
    ∷ ("is_array", 1)
    ∷ ("int", 1)
    ∷ ("bool", 1)
    ∷ ("real", 1)
    ∷ ("str", 1)
    ∷ ("obj", 1)
    ∷ ("array", 1)
    ∷ ("type", 1)
    ∷ ("getter", 2)
    ∷ ("setter", 3)
    ∷ ("remove", 1)
    ∷ ("mkdir", 2)
    ∷ ("exist", 1)
    ∷ ("lsdir", 1)
    ∷ ("isdir", 1)
    ∷ ("time", 0)
    ∷ ("utctime", 1)
    ∷ ("cron", 2)
    ∷ ("exec", 6)
    ∷ ("print", 1)
    ∷ ("msleep", 1)
    ∷ ("path", 1)
    ∷ []

abbrev pub network_calls : List Signature
network_calls =
    ("tcp_listen", 2)
    ∷ ("tcp_accept", 2)
    ∷ ("tcp_send", 2)
    ∷ ("tcp_recv", 2)
    ∷ ("tcp_connect", 3)
    ∷ ("tcp_shutdown", 2)
    ∷ ("tcp_close", 1)
    ∷ ("udp_create", 2)
    ∷ ("udp_close", 1)
    ∷ ("udp_send", 4)
    ∷ ("udp_recv", 5)
    ∷ []

abbrev pub http_calls : List Signature
http_calls = ("parse", 1) ∷ ("create", 1) ∷ ("https_request", 1) ∷ []

abbrev pub tls_calls : List Signature
tls_calls =
    ("conf_new", 6)
    ∷ ("conf_free", 1)
    ∷ ("listen", 2)
    ∷ ("accept", 3)
    ∷ ("connect", 4)
    ∷ ("set_sni", 2)
    ∷ ("set_verify_host", 2)
    ∷ ("handshake", 2)
    ∷ ("send", 3)
    ∷ ("recv", 2)
    ∷ ("close", 1)
    ∷ []

abbrev pub file_calls : List Signature
file_calls =
    ("open", 3)
    ∷ ("lseek", 2)
    ∷ ("read", 1)
    ∷ ("write", 1)
    ∷ ("close", 0)
    ∷ ("errmsg", 0)
    ∷ ("size", 0)
    ∷ []

abbrev pub mysql_calls : List Signature
mysql_calls =
    ("connect", 5)
    ∷ ("close", 0)
    ∷ ("commit", 0)
    ∷ ("rollback", 0)
    ∷ ("error", 0)
    ∷ ("errno", 0)
    ∷ ("execute", 1)
    ∷ ("autocommit", 1)
    ∷ []

abbrev pub string_calls : List Signature
string_calls =
    ("strseqcmp", 2)
    ∷ ("strcmp", 2)
    ∷ ("strstr", 2)
    ∷ ("kmp", 2)
    ∷ ("slice", 2)
    ∷ ("reg_equal", 2)
    ∷ ("reg_match", 2)
    ∷ ("trim", 2)
    ∷ ("strncmp", 3)
    ∷ ("split", 3)
    ∷ ("strlen", 1)
    ∷ ("b2s", 1)
    ∷ ("s2b", 2)
    ∷ ("hex2bin", 1)
    ∷ ("bin2hex", 1)
    ∷ ("bin2int", 1)
    ∷ ("int2bin", 1)
    ∷ ("bin2real", 1)
    ∷ ("real2bin", 1)
    ∷ ("replace", 2)
    ∷ ("upper", 1)
    ∷ ("lower", 1)
    ∷ ("join", 2)
    ∷ ("capitalize", 1)
    ∷ []

abbrev pub mq_calls : List Signature
mq_calls = ("send", 3) ∷ ("recv", 2) ∷ ("subscribe", 1) ∷ ("unsubscribe", 1) ∷ []

abbrev pub documented : List (List Signature)
documented =
    aes_calls ∷ base64_calls ∷ des_calls ∷ md5_calls ∷ prime_calls ∷ rc_calls ∷ sha_calls
    ∷ json_calls ∷ matrix_calls ∷ sys_calls ∷ network_calls ∷ http_calls ∷ tls_calls ∷ file_calls
    ∷ mysql_calls ∷ string_calls ∷ mq_calls ∷ []
