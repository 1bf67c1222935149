-- ===== src/Libraries/Network.antt =====
-- lib_src/network and lib_src/http: the methods that each library registers once the network
-- library has its resource.
use melang.Base.{List, [], ◌∷◌}
use melang.Register.{Method, member}

abbrev pub network_tcp_listen : Method
network_tcp_listen = record {
  place = member;
  name = "tcp_listen";
  params = "host" ∷ "service" ∷ [];
}

abbrev pub network_tcp_accept : Method
network_tcp_accept = record { place = member; name = "tcp_accept"; params = "fd" ∷ "timeout" ∷ [] }

abbrev pub network_tcp_send : Method
network_tcp_send = record { place = member; name = "tcp_send"; params = "fd" ∷ "data" ∷ [] }

abbrev pub network_tcp_recv : Method
network_tcp_recv = record { place = member; name = "tcp_recv"; params = "fd" ∷ "timeout" ∷ [] }

abbrev pub network_tcp_connect : Method
network_tcp_connect = record {
  place = member;
  name = "tcp_connect";
  params = "host" ∷ "service" ∷ "timeout" ∷ [];
}

abbrev pub network_tcp_shutdown : Method
network_tcp_shutdown = record { place = member; name = "tcp_shutdown"; params = "fd" ∷ "mode" ∷ [] }

abbrev pub network_tcp_close : Method
network_tcp_close = record { place = member; name = "tcp_close"; params = "fd" ∷ [] }

abbrev pub network_udp_create : Method
network_udp_create = record {
  place = member;
  name = "udp_create";
  params = "host" ∷ "service" ∷ [];
}

abbrev pub network_udp_close : Method
network_udp_close = record { place = member; name = "udp_close"; params = "fd" ∷ [] }

abbrev pub network_udp_send : Method
network_udp_send = record {
  place = member;
  name = "udp_send";
  params = "fd" ∷ "data" ∷ "host" ∷ "service" ∷ [];
}

abbrev pub network_udp_recv : Method
network_udp_recv = record {
  place = member;
  name = "udp_recv";
  params = "fd" ∷ "bufsize" ∷ "ip" ∷ "port" ∷ "timeout" ∷ [];
}

abbrev pub network_methods : List Method
network_methods =
    network_tcp_listen ∷ network_tcp_accept ∷ network_tcp_send ∷ network_tcp_recv
    ∷ network_tcp_connect ∷ network_tcp_shutdown ∷ network_tcp_close ∷ network_udp_create
    ∷ network_udp_close ∷ network_udp_send ∷ network_udp_recv ∷ []

abbrev pub http_parse_handler : Method
http_parse_handler = record { place = member; name = "parse"; params = "data" ∷ [] }

abbrev pub http_create_handler : Method
http_create_handler = record { place = member; name = "create"; params = "data" ∷ [] }

abbrev pub http_https_request_register : Method
http_https_request_register = record {
  place = member;
  name = "https_request";
  params = "args" ∷ [];
}

abbrev pub http_methods : List Method
http_methods = http_parse_handler ∷ http_create_handler ∷ http_https_request_register ∷ []
