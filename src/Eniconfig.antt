-- ===== src/Eniconfig.antt =====
-- pkg/eniconfig/eniconfig.go: the controller that keeps the cluster's ENIConfigs, and the name of
-- the one that this node uses.
pub mod Events
mod Tests
use amazon_vpc_cni_k8s.Prelude.{
  String, same, string_discrete, Bool, true, false, Option, none, some, List, [], ◌∷◌,
  if◌then◌else◌, Dict, insert, remove, lookup,
}
use amazon_vpc_cni_k8s.Ipamd.{EniConfigSpec}

abbrev pub default_eni_config_annotation_def : String
default_eni_config_annotation_def = "k8s.amazonaws.com/eniConfig"

abbrev pub default_eni_config_label_def : String
default_eni_config_label_def = "k8s.amazonaws.com/eniConfig"

abbrev pub eni_config_default : String
eni_config_default = "default"

abbrev pub env_eni_config_annotation_def : String
env_eni_config_annotation_def = "ENI_CONFIG_ANNOTATION_DEF"

abbrev pub env_eni_config_label_def : String
env_eni_config_label_def = "ENI_CONFIG_LABEL_DEF"

pub record EniConfigController : Type 0 where
  pub eni : Dict String EniConfigSpec
  pub my_eni : String
  pub my_node_name : String
  pub eni_config_annotation_def : String
  pub eni_config_label_def : String

pub record EniConfigInfo : Type 0 where
  pub eni : Dict String EniConfigSpec
  pub my_eni : String
  pub eni_config_annotation_def : String
  pub eni_config_label_def : String

-- The fields of a `corev1.Node` that the handler reads.
pub record Node : Type 0 where
  pub name : String
  pub annotations : Dict String String
  pub labels : Dict String String

-- `sdk.Event`: its object, by its type, and whether it was deleted.
pub data Object : Type 0 where
  eni_config : String → EniConfigSpec → Object
  node : Node → Object
  other_object : Object

pub record Event : Type 0 where
  pub object : Object
  pub deleted : Bool

-- A variable that is not set, or empty, leaves the default.
abbrev pub or_default : String → Option String → String
or_default d none = d
or_default d (some s) = if same s "" then d else s

-- The environment is `os.LookupEnv`.
module _ (lookup_env : String → Option String) where
  unfoldable pub get_eni_config_annotation_def : String
  get_eni_config_annotation_def =
      or_default default_eni_config_annotation_def (lookup_env env_eni_config_annotation_def)

  unfoldable pub get_eni_config_label_def : String
  get_eni_config_label_def =
      or_default default_eni_config_label_def (lookup_env env_eni_config_label_def)

  -- `NewENIConfigController`, for the value of MY_NODE_NAME.
  unfoldable pub new_eni_config_controller : String → EniConfigController
  new_eni_config_controller my_node_name = record {
    eni = [];
    my_eni = eni_config_default;
    my_node_name = my_node_name;
    eni_config_annotation_def = get_eni_config_annotation_def;
    eni_config_label_def = get_eni_config_label_def;
  }

  -- `Getter`
  unfoldable pub getter : EniConfigController → EniConfigInfo
  getter c = record {
    eni = c.eni;
    my_eni = c.my_eni;
    eni_config_annotation_def = get_eni_config_annotation_def;
    eni_config_label_def = get_eni_config_label_def;
  }

-- The name that a node asks for: its annotation, else its label, else the default.
unfoldable pub chosen : String → String → Node → String
chosen annotation label n = elim (lookup string_discrete annotation n.annotations) [
  | some v ↦ v
  | none ↦ elim (lookup string_discrete label n.labels) [ some v ↦ v | none ↦ eni_config_default ]
]

unfoldable pub handle_eni_config :
    String → EniConfigSpec → Bool → EniConfigController → EniConfigController
handle_eni_config name spec deleted c =
    if deleted
    then record c { eni = remove string_discrete name c.eni }
    else record c { eni = insert string_discrete name spec c.eni }

unfoldable pub handle_node : Node → EniConfigController → EniConfigController
handle_node n c =
    let val = chosen c.eni_config_annotation_def c.eni_config_label_def n in
    if same c.my_node_name n.name
    then (if same c.my_eni val then c else record c { my_eni = val })
    else c

unfoldable pub handle_object : Object → Bool → EniConfigController → EniConfigController
handle_object (eni_config name spec) deleted c = handle_eni_config name spec deleted c
handle_object (node n) deleted c = handle_node n c
handle_object other_object deleted c = c

-- `Handle`
unfoldable pub handle : Event → EniConfigController → EniConfigController
handle event c = handle_object event.object event.deleted c

-- `MyENIConfig`; `none` is `ErrNoENIConfig`.
unfoldable pub my_eni_config : EniConfigController → Option EniConfigSpec
my_eni_config c = elim (lookup string_discrete c.my_eni c.eni) [
  | none ↦ none
  | some config ↦ some (record { security_groups = config.security_groups; subnet = config.subnet })
]
