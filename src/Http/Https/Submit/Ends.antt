-- ===== src/Http/Https/Submit/Ends.antt =====
-- https_request: the call returns, and what it leaves is freed or waits.
use melang.Base.{ℕ, ◌≡◌, refl, sym, ap, subst, ◌∙◌, true, false, ◌&&◌, Option, none, some}
use melang.Script.{Bytes, array, Symbol, var, other, Env, no_memory}
use melang.Http.{Melon}
use melang.Http.Https.Runs.{Reach, Reach-IsSettled}
use melang.Http.Https.{
  connecting, World, over, ctx_https_free, Request, Outside, to_connect, has_timeout, ◌>>=◌,
}
use melang.Http.Https.Settled.{
  count, Released, IsIdle, IsFresh, IsArmed, Waiting, IsSettled, state_free-either, if_both,
}
use melang.Http.Https.Submit.{
  Checked, valid, refused, Site, Ended, rejected, gave_false, submitted, Settings, nothing_made,
  settings, names, c_string,
}
use melang.Http.Https.Submit.Dial.{
  freed, linked, under_way, dial, conf_request, conf_made, named, configured, with_args,
  request_process,
}

-- Freed with a coroutine that runs, or in flight.
abbrev pub IsEnded : Ended → Type 0
IsEnded (rejected e value o) = Released o × (o.suspended ≡ false)
IsEnded (gave_false o) = Released o × (o.suspended ≡ false)
IsEnded (submitted r o) = Waiting r o

abbrev EndsIn : Option Ended → Type 0
EndsIn none = ⊥
EndsIn (some e) = IsEnded e

-- Before it is in the chain.
abbrev Made : Request → Outside → Type 0
Made r o =
    (r.linked ≡ false)
    × (o.in_chain ≡ false)
    × (o.suspended ≡ false)
    × (o.sockets ≡ count r.fd)
    × (o.parsers ≡ count r.http)
    × (o.conns ≡ count r.have_conn)
    × (o.confs ≡ count (r.own_conf && r.conf))

abbrev IsRejection : (Outside → Ended) → Type 0
IsRejection end = (o : Outside) → Released o → (o.suspended ≡ false) → IsEnded (end o)

freed-EndsIn :
    (end : Outside → Ended) (r : Request) (o : Outside)
    → IsRejection end
    → Made r o
    → IsIdle r.fd o
    → EndsIn (freed end r o)
freed-EndsIn end r o ends (unlinked, out, running, sockets, parsers, conns, confs) idle =
    let (o', e, free, same) =
      state_free-either r.fd r o refl (ap (λ b. b && r.ctx) unlinked ∙ sym out) sockets parsers
        conns confs idle in
    subst (λ m. EndsIn (m >>= λ p. some (end p))) (sym e) (ends o' free (same ∙ running))

-- A new request on its way to be connected.
abbrev IsNew : Request → Type 0
IsNew r =
    (r.phase ≡ connecting)
    × (r.ctx ≡ true)
    × (r.have_conn ≡ false)
    × (r.http ≡ false)
    × (r.request_built ≡ false)

nothing_left : Released nothing_made × (nothing_made.suspended ≡ false)
nothing_left = ((refl, refl, refl, refl, refl, refl, refl), refl)

module _ (site : Site) where
  under_way-EndsIn :
      (r : Request) (o : Outside)
      → Made r o
      → IsNew r
      → r.fd ≡ true
      → o.armed ≡ some to_connect
      → EndsIn (under_way site r o)
  under_way-EndsIn r o made new fd armed =
      let (unlinked, out, running, sockets, parsers, conns, confs) = made in
      let (phase, ctx, no_conn, no_parser, first) = new in
      if_both EndsIn site.resource _ _
        (λ y. (
          (fd, refl, ctx, refl, refl, sockets ∙ ap count fd, parsers, conns, confs),
          subst (λ p. IsFresh p (linked r)) (sym phase) (no_conn, no_parser, first),
          subst (λ p. IsArmed p o.armed) (sym phase)
              (subst (λ h. IsArmed connecting h) (sym armed) tt),
          refl,
        ))
        (λ n.
          freed-EndsIn _ r (record o { timer = has_timeout r.timeout }) (λ p free s. (free, s)) made
            (subst (λ b. IsIdle b (record o { timer = has_timeout r.timeout })) (sym fd) tt))

  dial-EndsIn :
      (s : Settings) (r : Request) (o : Outside)
      → Made r o
      → IsNew r
      → r.fd ≡ false
      → IsIdle false o
      → EndsIn (dial site s r o)
  dial-EndsIn s r o made new no_fd idle =
      let (unlinked, out, running, sockets, parsers, conns, confs) = made in
      let early =
        freed-EndsIn gave_false r o (λ p free s. (free, s)) made
          (subst (λ b. IsIdle b o) (sym no_fd) idle) in
      if_both EndsIn (site.addrinfo (c_string s.host) (c_string s.service)) _ _
        (λ y.
          if_both EndsIn site.socket _ _
            (λ y.
              if_both EndsIn site.event _ _
                (λ y.
                  if_both EndsIn site.connect _ _
                    (λ y.
                      under_way-EndsIn (record r { fd = true })
                        (record o { sockets = 1; armed = some to_connect })
                        (unlinked, out, running, refl, parsers, conns, confs) new refl refl)
                    (λ n.
                      freed-EndsIn gave_false (record r { fd = true })
                        (record o { sockets = 1; armed = some to_connect }) (λ p free s. (free, s))
                        (unlinked, out, running, refl, parsers, conns, confs) tt))
                (λ n.
                  freed-EndsIn (rejected no_memory false) (record r { fd = true })
                    (record o { sockets = 1 }) (λ p free s. (free, s))
                    (unlinked, out, running, refl, parsers, conns, confs) tt))
            (λ n. early))
        (λ n. early)

  made_conf : (s : Settings) (c : Option ℕ) → Made (conf_request s c) (conf_made c)
  made_conf s none = (refl, refl, refl, refl, refl, refl, refl)
  made_conf s (some id) = (refl, refl, refl, refl, refl, refl, refl)

  IsNew-conf :
      (s : Settings) (c : Option ℕ) → IsNew (conf_request s c) × ((conf_request s c).fd ≡ false)
  IsNew-conf s none = ((refl, refl, refl, refl, refl), refl)
  IsNew-conf s (some id) = ((refl, refl, refl, refl, refl), refl)

  IsIdle-conf : (c : Option ℕ) → IsIdle false (conf_made c)
  IsIdle-conf none = (refl, refl)
  IsIdle-conf (some id) = (refl, refl)

  named-EndsIn :
      (s : Settings) (n : Checked (Bytes × Bytes)) (c : Option ℕ)
      → EndsIn (named site s n (conf_request s c) (conf_made c))
  named-EndsIn s (valid (sni, vhost)) c =
      let (new, no_fd) = IsNew-conf s c in
      dial-EndsIn s (record (conf_request s c) { sni = sni; vhost = vhost }) (conf_made c)
        (made_conf s c) new no_fd (IsIdle-conf c)
  named-EndsIn s (refused e) c =
      let (new, no_fd) = IsNew-conf s c in
      freed-EndsIn (rejected e true) (conf_request s c) (conf_made c) (λ p free s. (free, s))
        (made_conf s c) (subst (λ b. IsIdle b (conf_made c)) (sym no_fd) (IsIdle-conf c))

  configured-EndsIn : (a : ℕ) (s : Checked Settings) → EndsIn (configured site a s)
  configured-EndsIn a (valid s) = named-EndsIn s (names site a s) s.conf
  configured-EndsIn a (refused e) = nothing_left

  abbrev pub IsVariable : Option Symbol → Type 0
  IsVariable (some other) = ⊥
  IsVariable s = Unit

  with_args-EndsIn : (s : Option Symbol) → IsVariable s → EndsIn (with_args site s)
  with_args-EndsIn none h = nothing_left
  with_args-EndsIn (some other) h = absurd h
  with_args-EndsIn (some (var (array a))) h =
      if_both EndsIn site.value _ _
        (λ y.
          if_both EndsIn site.state _ _ (λ y. configured-EndsIn a (settings site a))
            (λ n. nothing_left))
        (λ n. nothing_left)
  with_args-EndsIn (some (var v)) h = nothing_left

  ended_of : (m : Option Ended) → EndsIn m → (e : Ended) × (m ≡ some e) × IsEnded e
  ended_of none h = absurd h
  ended_of (some e) h = (e, refl, h)

  -- Whatever the arguments are and whatever is refused, where the symbol args is a variable:
  -- https_request returns; where it does not submit a request, socket, event and conf are freed and the
  -- coroutine runs on; where it does, the request waits for its connection.
  pub request_process-IsEnded :
      (env : Env)
      → IsVariable (env "args")
      → (e : Ended) × (request_process site env ≡ some e) × IsEnded e
  unfolding request_process
  request_process-IsEnded env h =
      ended_of (with_args site (env "args")) (with_args-EndsIn (env "args") h)

  same_end : {e f : Ended} → some e ≡ some f → e ≡ f
  same_end h = cc h

  -- Where no event makes the text of the request or the parse of the response follow a bad pointer,
  -- and a response with a body only comes where as many bytes can be read behind the first pointer of
  -- the request's array (`IsTame`): in the run of a request from the call to any state that such
  -- events and timeouts reach, the coroutine is suspended and the event loop has the handler of the
  -- request's phase, with the timeout if one was asked for; or the coroutine goes on and socket,
  -- parser, connection and conf are freed, each once. And when the coroutine ends in such a state, all
  -- of them are freed as well.
  pub request_process-Reach :
      {H : Type 0} (melon : Melon H) (env : Env) (r : Request) (o : Outside) {w : World}
      → IsVariable (env "args")
      → request_process site env ≡ some (submitted r o)
      → Reach melon r o w
      → IsSettled w × (o' : Outside) × (ctx_https_free w ≡ some (over o')) × Released o'
  request_process-Reach melon env r o h run reach =
      let (e, same, ended) = request_process-IsEnded env h in
      Reach-IsSettled melon r o (subst IsEnded (same_end (sym same ∙ run)) ended) reach
