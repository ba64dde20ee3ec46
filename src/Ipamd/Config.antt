-- ===== src/Ipamd/Config.antt =====
-- ipamd/ipamd.go: the settings that come from environment variables. A variable's value is an
-- argument, `none` where it is not set.
use amazon_vpc_cni_k8s.Prelude.{
  ℤ, pos, negsuc, ltb_ℤ, leb_ℤ, String, Bool, false, ◌&&◌, Option, none, some, if◌then◌else◌, atoi,
  parse_bool,
}
use amazon_vpc_cni_k8s.Datastore.{same}

abbrev pub default_warm_eni_target : ℤ
default_warm_eni_target = pos 1

abbrev pub default_max_eni : ℤ
default_max_eni = negsuc 0

unfoldable pub get_warm_eni_target : Option String → ℤ
unfolding atoi
get_warm_eni_target none = default_warm_eni_target
get_warm_eni_target (some input) = elim (atoi input) [
  | none ↦ default_warm_eni_target
  | some n ↦ if ltb_ℤ n (pos 0) then default_warm_eni_target else n
]

unfoldable pub get_warm_ip_target : Option String → ℤ
unfolding atoi
get_warm_ip_target none = pos 0
get_warm_ip_target (some input) = elim (atoi input) [
  | none ↦ pos 0
  | some n ↦ if leb_ℤ (pos 0) n then n else pos 0
]

abbrev env_max : Option String → ℤ
env_max none = default_max_eni
env_max (some input) = elim (atoi input) [
  | none ↦ default_max_eni
  | some n ↦ if leb_ℤ (pos 1) n then n else default_max_eni
]

-- The limit of the instance type may be unknown.
unfoldable pub get_max_eni : Option String → Option ℤ → Option ℤ
unfolding atoi
get_max_eni setting none = none
get_max_eni setting (some instance_max) = some (
    if leb_ℤ (pos 1) (env_max setting) && ltb_ℤ (env_max setting) instance_max
    then env_max setting
    else instance_max)

unfoldable pub use_custom_network_cfg : String → Bool
unfolding parse_bool
use_custom_network_cfg value =
    if same value "" then false else elim (parse_bool value) [ none ↦ false | some b ↦ b ]
