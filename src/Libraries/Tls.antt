-- ===== src/Libraries/Tls.antt =====
-- lib_src/tls/mln_lang_tls.c: the methods that the tls library registers, each from a constant
-- of the type mln_lang_tls_funcdef_t.
use melang.Base.{List, [], ◌∷◌}
use melang.Register.{Method, member}

abbrev pub tls_conf_new_reg : Method
tls_conf_new_reg = record {
  place = member;
  name = "conf_new";
  params = "role" ∷ "cert" ∷ "key" ∷ "ca" ∷ "ciphers" ∷ "verify" ∷ [];
}

abbrev pub tls_conf_free_reg : Method
tls_conf_free_reg = record { place = member; name = "conf_free"; params = "conf" ∷ [] }

abbrev pub tls_listen_reg : Method
tls_listen_reg = record { place = member; name = "listen"; params = "host" ∷ "service" ∷ [] }

abbrev pub tls_accept_reg : Method
tls_accept_reg = record { place = member; name = "accept"; params = "fd" ∷ "conf" ∷ "timeout" ∷ [] }

abbrev pub tls_connect_reg : Method
tls_connect_reg = record {
  place = member;
  name = "connect";
  params = "host" ∷ "service" ∷ "conf" ∷ "timeout" ∷ [];
}

abbrev pub tls_set_sni_reg : Method
tls_set_sni_reg = record { place = member; name = "set_sni"; params = "fd" ∷ "hostname" ∷ [] }

abbrev pub tls_set_verify_host_reg : Method
tls_set_verify_host_reg = record {
  place = member;
  name = "set_verify_host";
  params = "fd" ∷ "hostname" ∷ [];
}

abbrev pub tls_handshake_reg : Method
tls_handshake_reg = record { place = member; name = "handshake"; params = "fd" ∷ "timeout" ∷ [] }

abbrev pub tls_send_reg : Method
tls_send_reg = record { place = member; name = "send"; params = "fd" ∷ "data" ∷ "timeout" ∷ [] }

abbrev pub tls_recv_reg : Method
tls_recv_reg = record { place = member; name = "recv"; params = "fd" ∷ "timeout" ∷ [] }

abbrev pub tls_close_reg : Method
tls_close_reg = record { place = member; name = "close"; params = "fd" ∷ [] }

abbrev pub tls_methods : List Method
tls_methods =
    tls_conf_new_reg ∷ tls_conf_free_reg ∷ tls_listen_reg ∷ tls_accept_reg ∷ tls_connect_reg
    ∷ tls_set_sni_reg ∷ tls_set_verify_host_reg ∷ tls_handshake_reg ∷ tls_send_reg ∷ tls_recv_reg
    ∷ tls_close_reg ∷ []
