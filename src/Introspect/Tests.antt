-- ===== src/Introspect/Tests.antt =====
-- Requests to ipamd/introspect.go.
use amazon_vpc_cni_k8s.Prelude.{
  String, ◌≡◌, refl, true, Option, none, some, same, if◌then◌else◌, string_discrete, parse_bool,
}
use amazon_vpc_cni_k8s.Introspect.{disable_introspection, get_env_bool_with_default, bind_address}

abbrev variables : String → Option String
variables key = if same key "DISABLE_INTROSPECTION" then some "true" else none

disabled : disable_introspection variables ≡ true
unfolding disable_introspection get_env_bool_with_default string_discrete parse_bool
disabled = refl

default_address : bind_address variables ≡ "127.0.0.1:61679"
unfolding bind_address string_discrete
default_address = refl
