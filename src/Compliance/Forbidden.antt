-- ===== src/Compliance/Forbidden.antt =====
-- src/verifier/compliance.rs: the lists of names.
use subdollar_llm_coding_ben.Base.{List, [], ◌∷◌}
use subdollar_llm_coding_ben.Text.{Text, codes}

abbrev pub forbidden_base_images : List Text
forbidden_base_images =
    codes "redis"
    ∷ codes "valkey"
    ∷ codes "keydb"
    ∷ codes "dragonfly"
    ∷ codes "nginx"
    ∷ codes "caddy"
    ∷ codes "coredns"
    ∷ codes "bind9"
    ∷ codes "named"
    ∷ codes "dnsmasq"
    ∷ codes "apache"
    ∷ codes "httpd"
    ∷ codes "envoy"
    ∷ codes "traefik"
    ∷ codes "haproxy"
    ∷ codes "lighttpd"
    ∷ codes "memcached"
    ∷ []

abbrev pub forbidden_daemons : List Text
forbidden_daemons =
    codes "redis-server"
    ∷ codes "valkey-server"
    ∷ codes "keydb-server"
    ∷ codes "dragonfly"
    ∷ codes "nginx"
    ∷ codes "caddy"
    ∷ codes "coredns"
    ∷ codes "dnsmasq"
    ∷ codes "named"
    ∷ codes "bind9"
    ∷ codes "lighttpd"
    ∷ codes "apache2"
    ∷ codes "httpd"
    ∷ codes "memcached"
    ∷ []
