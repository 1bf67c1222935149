-- ===== src/MsgQueue/Args.antt =====
-- lib_src/msgqueue/mln_lang_msgqueue_impl.c: the arguments of `send`, `recv`, `subscribe` and
-- `unsubscribe`, as the first part of each *_process function reads them.
use melang.Base.{ℕ, Bool, false, not, Option, none, some, ◌==◌, ltb, ◌^◌, if◌then◌else◌, ◌&&◌}
use melang.Script.{
  Bytes, Value, nil, int, bool, real, string, Env, Result, ok, err, invalid_type, ◌>>=◌, symbol,
  value_of, string_of,
}

pub record SendArgs : Type 0 where
  pub qname : Bytes
  pub msg : Value
  pub as_topic : Bool

pub record RecvArgs : Type 0 where
  pub qname : Bytes
  pub timeout : Option ℕ

abbrev pub qname_arg : Env → Result Bytes
qname_arg env = do sym ← symbol 1 (env "qname"); v ← value_of 1 sym; string_of 1 v

-- Only the four types of message pass.
abbrev pub sendable : Value → Result Value
sendable (int i) = ok (int i)
sendable (bool b) = ok (bool b)
sendable (real f) = ok (real f)
sendable (string s) = ok (string s)
sendable _ = err (invalid_type 2)

abbrev pub flag : Value → Result Bool
flag nil = ok false
flag (bool b) = ok (not (b == 0))
flag _ = err (invalid_type 3)

-- The argument checks of mln_lang_msgqueue_mq_send_process.
unfoldable pub send_args : Env → Result SendArgs
send_args env = do
  qname ← qname_arg env
  sym ← symbol 2 (env "msg")
  v ← value_of 2 sym
  msg ← sendable v
  sym3 ← symbol 3 (env "asTopic")
  v3 ← value_of 3 sym3
  as_topic ← flag v3
  ok (record { qname = qname; msg = msg; as_topic = as_topic })

-- nil waits for ever; an integer, as 64 bits of a signed number, has to be positive.
abbrev pub timeout_of : Value → Result (Option ℕ)
timeout_of nil = ok none
timeout_of (int i) = if ltb 0 i && ltb i (2 ^ 63) then ok (some i) else err (invalid_type 2)
timeout_of _ = err (invalid_type 2)

-- The argument checks of mln_lang_msgqueue_mq_recv_process.
unfoldable pub recv_args : Env → Result RecvArgs
recv_args env = do
  qname ← qname_arg env
  sym ← symbol 2 (env "timeout")
  v ← value_of 2 sym
  timeout ← timeout_of v
  ok (record { qname = qname; timeout = timeout })
