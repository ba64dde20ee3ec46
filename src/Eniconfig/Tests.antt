-- ===== src/Eniconfig/Tests.antt =====
-- Events of pkg/eniconfig/eniconfig.go: an ENIConfig, the node that asks for it, and its deletion.
use amazon_vpc_cni_k8s.Prelude.{
  String, ◌≡◌, refl, false, none, some, List, [], ◌∷◌, lookup, string_discrete, Option, same,
  if◌then◌else◌,
}
use amazon_vpc_cni_k8s.Ipamd.{EniConfigSpec}
use amazon_vpc_cni_k8s.Eniconfig.{
  Event, eni_config, node, my_eni_config, chosen, get_eni_config_annotation_def,
  get_eni_config_label_def,
}
use amazon_vpc_cni_k8s.Eniconfig.Events.{
  told, name_of, latest_name, latest_config, my_eni_config-latest,
}

abbrev zone_a : EniConfigSpec
zone_a = record { security_groups = "sg-1" ∷ []; subnet = "subnet-1" }

abbrev events : List Event
events =
    record {
      object = node (record { name = "n1"; annotations = []; labels = ("zone", "zone-a") ∷ [] });
      deleted = false;
    }
    ∷ record { object = eni_config "zone-a" zone_a; deleted = false }
    ∷ []

-- The label's key is configured, the annotation's is not.
abbrev variables : String → Option String
variables key = if same key "ENI_CONFIG_LABEL_DEF" then some "zone" else none

latest_zone : latest_config "zone-a" events ≡ some zone_a
unfolding latest_config string_discrete
latest_zone = refl

zone_named : name_of variables "n1" events ≡ "zone-a"
unfolding latest_name string_discrete chosen lookup get_eni_config_annotation_def
    get_eni_config_label_def
zone_named = refl

my_eni_config-latest_example :
    my_eni_config (told variables "n1" events)
    ≡ latest_config (name_of variables "n1" events) events
my_eni_config-latest_example = my_eni_config-latest variables "n1" events
