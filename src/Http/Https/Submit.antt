-- ===== src/Http/Https/Submit.antt =====
-- https_request: the call of the script, from its arguments to the coroutine that is suspended.
pub mod Dial
pub mod Ends
use Prim.Native.String.{String}
use melang.Base.{
  ℕ, ◌+◌, ◌^◌, Bool, true, false, not, ◌&&◌, List, [], ◌∷◌, Option, none, some, ◌==◌, leb, length,
  if◌then◌else◌,
}
use melang.Script.{
  Bytes, Value, int, bool, string, array, Symbol, var, other, Env, Error, no_memory, message,
}
use melang.Http.Https.{connecting, Request, Outside, to_connect, state_free, has_timeout}

-- mln_lang_https_arr_get: the key is refused, there is no element, or its value.
pub data Got : Type 0 where
  oom : Got
  absent : Got
  got : Value → Got

-- What the call meets: the arguments, the conf set, inet_pton, and what is granted. `int_timeout` is the
-- C int of a number, as a timeout.
pub record Site : Type 0 where
  pub look : ℕ → String → Got
  pub has_conf : ℕ → Bool
  pub is_ip : Bytes → Bool
  pub int_timeout : ℕ → Option ℕ
  pub value : Bool
  pub state : Bool
  pub conf_new : Option Bytes → Bool → Bool
  pub dup : Bytes → Bool
  pub addrinfo : Bytes → Bytes → Bool
  pub socket : Bool
  pub event : Bool
  pub connect : Bool
  pub resource : Bool

-- How the call ends: with an error message, where the value that it had made is freed or left behind,
-- with the value false, or with a request in flight.
pub data Ended : Type 0 where
  rejected : Error → Bool → Outside → Ended
  gave_false : Outside → Ended
  submitted : Request → Outside → Ended

-- An argument that is accepted, or an error message.
pub data Checked (A : Type 0) : Type 0 where
  valid : A → Checked A
  refused : Error → Checked A

infixl 5 ◌>>=◌
abbrev pub ◌>>=◌ : {A B : Type 0} → Checked A → (A → Checked B) → Checked B
valid a >>= f = f a
refused e >>= f = refused e

abbrev pub asked : Got → Checked (Option Value)
asked oom = refused no_memory
asked absent = valid none
asked (got v) = valid (some v)

abbrev pub short : String → ℕ → Bytes → Checked Bytes
short error_text size s = if leb size (length s) then refused (message error_text) else valid s

abbrev pub string_or : String → Option Value → Checked Bytes
string_or error_text (some (string s)) = valid s
string_or error_text v = refused (message error_text)

abbrev pub array_or : String → Option Value → Checked ℕ
array_or error_text (some (array a)) = valid a
array_or error_text v = refused (message error_text)

abbrev pub timeout_or : Site → Option Value → Checked (Option ℕ)
timeout_or site none = valid none
timeout_or site (some Value.nil) = valid none
timeout_or site (some (int i)) =
    if leb (2 ^ 63) i
    then refused (message "args.timeout must be a non-negative int or nil.")
    else valid (site.int_timeout i)
timeout_or site (some v) = refused (message "args.timeout must be a non-negative int or nil.")

abbrev pub conf_or : Option Value → Checked (Option ℕ)
conf_or none = valid none
conf_or (some Value.nil) = valid none
conf_or (some (int i)) = valid (some i)
conf_or (some v) = refused (message "args.conf must be an int or nil.")

-- For ca, sni and verify_host.
abbrev pub optional : String → Option Value → Checked (Option Bytes)
optional error_text none = valid none
optional error_text (some Value.nil) = valid none
optional error_text (some (string s)) = valid (some s)
optional error_text (some v) = refused (message error_text)

abbrev pub verify_or : Option Value → Checked Bool
verify_or none = valid false
verify_or (some Value.nil) = valid false
verify_or (some (bool b)) = valid (not (b == 0))
verify_or (some (int i)) = valid (not (i == 0))
verify_or (some v) = refused (message "args.verify must be a bool, int, or nil.")

-- strlen of the copied host: it ends at the first byte 0.
unfoldable pub c_string : Bytes → Bytes
c_string [] = []
c_string (b ∷ bs) = let rest = c_string bs in if b == 0 then [] else b ∷ rest

-- What the arguments say up to the conf: the number of a borrowed one, or whether to verify with an own.
pub record Settings : Type 0 where
  pub host : Bytes
  pub service : Bytes
  pub request : ℕ
  pub timeout : Option ℕ
  pub conf : Option ℕ
  pub verify : Bool

abbrev pub start : Settings → Request
start s = record {
  phase = connecting;
  fd = false;
  timeout = s.timeout;
  retry = 0;
  have_conn = false;
  own_conf = false;
  linked = false;
  request_built = false;
  conf = false;
  conf_id = 0;
  http = false;
  ctx = true;
  sni = [];
  vhost = [];
}

abbrev pub nothing_made : Outside
nothing_made = record {
  sockets = 0;
  parsers = 0;
  conns = 0;
  confs = 0;
  armed = none;
  timer = false;
  in_chain = false;
  suspended = false;
  array_moved = 0;
  ret = none;
}

abbrev pub built_conf : Bool → Settings → Checked Settings
built_conf true s = valid s
built_conf false s = refused (message "Failed to build TLS conf.")

module _ (site : Site) (a : ℕ) where
  abbrev pub own_conf : Settings → Checked Settings
  own_conf s = do
    c ← asked (site.look a "ca")
    ca ← optional "args.ca must be a string or nil." c
    v ← asked (site.look a "verify")
    verify ← verify_or v
    built_conf (site.conf_new ca verify) (record s { verify = verify })

  abbrev pub borrowed : ℕ → Settings → Checked Settings
  borrowed id s =
      if site.has_conf id
      then valid s
      else refused (message "args.conf is not a valid TLS conf handle.")

  abbrev pub with_conf : Option ℕ → Settings → Checked Settings
  with_conf none s = own_conf s
  with_conf (some id) s = borrowed id s

  unfoldable pub settings : Checked Settings
  settings = do
    h ← asked (site.look a "host")
    hs ← string_or "args.host must be a string." h
    host ← short "args.host too long." 256 hs
    v ← asked (site.look a "service")
    vs ← string_or "args.service must be a string." v
    service ← short "args.service too long." 64 vs
    r ← asked (site.look a "request")
    request ← array_or "args.request must be an array." r
    t ← asked (site.look a "timeout")
    timeout ← timeout_or site t
    c ← asked (site.look a "conf")
    conf ← conf_or c
    with_conf conf (record {
      host = host;
      service = service;
      request = request;
      timeout = timeout;
      conf = conf;
      verify = false;
    })

  -- The name that is given, or the host where it may stand for it.
  abbrev pub name_or : Option Bytes → Bool → Bytes → Checked Bytes
  name_or (some []) default host = valid []
  name_or (some s) default host = if site.dup s then valid s else refused no_memory
  name_or none default [] = valid []
  name_or none default (b ∷ bs) =
      if default && not (site.is_ip (b ∷ bs))
      then (if site.dup (b ∷ bs) then valid (b ∷ bs) else refused no_memory)
      else valid []

  -- Both names, once there is a conf.
  unfoldable pub names : Settings → Checked (Bytes × Bytes)
  names s = do
    n ← asked (site.look a "sni")
    given_sni ← optional "args.sni must be a string or nil." n
    v ← asked (site.look a "verify_host")
    given_vhost ← optional "args.verify_host must be a string or nil." v
    sni ← name_or given_sni true (c_string s.host)
    vhost ← name_or given_vhost s.verify (c_string s.host)
    valid (sni, vhost)
