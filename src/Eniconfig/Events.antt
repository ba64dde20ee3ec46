-- ===== src/Eniconfig/Events.antt =====
-- What pkg/eniconfig/eniconfig.go answers after any events of the API server.
use amazon_vpc_cni_k8s.Prelude.{
  String, ◌≡◌, refl, ap, ◌∙◌, Bool, true, false, Bool-cases, Option-cases, inl, inr, same, same→eq,
  string_discrete, Option, none, some, List, [], ◌∷◌, if◌then◌else◌, lookup, Distinct,
  lookup-insert, lookup-remove_ne, lookup-remove_self, insert-Distinct, remove-Distinct, arith,
}
use amazon_vpc_cni_k8s.Ipamd.{EniConfigSpec}
use amazon_vpc_cni_k8s.Eniconfig.{
  EniConfigController, Node, Object, eni_config, node, other_object, Event, eni_config_default,
  new_eni_config_controller, chosen, handle, handle_object, handle_eni_config, handle_node,
  my_eni_config, get_eni_config_annotation_def, get_eni_config_label_def,
}

-- The events, the latest first.
unfoldable pub after : List Event → EniConfigController → EniConfigController
after [] c = c
after (e ∷ older) c = handle e (after older c)

abbrev config_told : String → Object → Bool → Option EniConfigSpec → Option EniConfigSpec
config_told k (eni_config name spec) deleted before =
    if same name k then (if deleted then none else some spec) else before
config_told k (node n) deleted before = before
config_told k other_object deleted before = before

-- What the latest event of the ENIConfig `k` says: its spec, or that it is deleted.
unfoldable pub latest_config : String → List Event → Option EniConfigSpec
latest_config k [] = none
latest_config k (e ∷ older) = config_told k e.object e.deleted (latest_config k older)

-- The names that the node with annotation and label keys `a` and `l` was last told to use.
module _ (me a l : String) where
  abbrev name_told : Object → String → String
  name_told (eni_config name spec) before = before
  name_told (node n) before = if same me n.name then chosen a l n else before
  name_told other_object before = before

  -- What the latest event of the node asks for, or the default before any.
  unfoldable pub latest_name : List Event → String
  latest_name [] = eni_config_default
  latest_name (e ∷ older) = name_told e.object (latest_name older)

-- The fields that no event changes.
abbrev names : EniConfigController → String × String × String
names c = (c.my_node_name, c.eni_config_annotation_def, c.eni_config_label_def)

module _ (c : EniConfigController) where
  handle_node_lem :
      (n : Node)
      → handle_node n c ≡ record c {
        my_eni =
            if same c.my_node_name n.name
            then chosen c.eni_config_annotation_def c.eni_config_label_def n
            else c.my_eni;
      }
  unfolding handle_node
  handle_node_lem n =
      let val = chosen c.eni_config_annotation_def c.eni_config_label_def n in
      elim (Bool-cases (same c.my_node_name n.name)) [
        | inr e ↦ rw e refl
        | inl e ↦ elim (Bool-cases (same c.my_eni val)) [
          | inl s ↦
              rw (e, s) (ap (λ (v : String). record c { my_eni = v }) (same→eq c.my_eni val s))
          | inr s ↦ rw (e, s) refl
        ]
      ]

  -- An event leaves the names that events are read by, and sets the two others as it says.
  handle_object-my_eni :
      (o : Object) (deleted : Bool)
      → (handle_object o deleted c).my_eni
        ≡ name_told c.my_node_name c.eni_config_annotation_def c.eni_config_label_def o c.my_eni
  unfolding handle_object handle_eni_config
  handle_object-my_eni (eni_config name spec) true = refl
  handle_object-my_eni (eni_config name spec) false = refl
  handle_object-my_eni (node n) deleted = rw (handle_node_lem n) refl
  handle_object-my_eni other_object deleted = refl

  handle_object-eni :
      (k : String) (o : Object) (deleted : Bool)
      → Distinct string_discrete c.eni
      → lookup string_discrete k (handle_object o deleted c).eni
        ≡ config_told k o deleted (lookup string_discrete k c.eni)
  unfolding handle_object handle_eni_config
  handle_object-eni k (eni_config name spec) true h = ground (
    arith,
    lookup-remove_self string_discrete k c.eni h,
    lookup-remove_ne string_discrete name k c.eni,
  )
  handle_object-eni k (eni_config name spec) false h =
      ground (arith, lookup-insert string_discrete name k spec c.eni)
  handle_object-eni k (node n) deleted h = rw (handle_node_lem n) refl
  handle_object-eni k other_object deleted h = refl

  handle_object-Distinct :
      (o : Object) (deleted : Bool)
      → Distinct string_discrete c.eni
      → Distinct string_discrete (handle_object o deleted c).eni
  unfolding handle_object handle_eni_config
  handle_object-Distinct (eni_config name spec) true h =
      remove-Distinct string_discrete name c.eni h
  handle_object-Distinct (eni_config name spec) false h =
      insert-Distinct string_discrete name spec c.eni h
  handle_object-Distinct (node n) deleted h = rw (handle_node_lem n) h
  handle_object-Distinct other_object deleted h = h

  handle_object-names : (o : Object) (deleted : Bool) → names (handle_object o deleted c) ≡ names c
  unfolding handle_object handle_eni_config
  handle_object-names (eni_config name spec) true = refl
  handle_object-names (eni_config name spec) false = refl
  handle_object-names (node n) deleted = rw (handle_node_lem n) refl
  handle_object-names other_object deleted = refl

my_eni_config_lem :
    (c : EniConfigController) → my_eni_config c ≡ lookup string_discrete c.my_eni c.eni
unfolding my_eni_config
my_eni_config_lem c = elim (Option-cases (lookup string_discrete c.my_eni c.eni)) [
  | inl e ↦ rw (e, my_eni_config) refl
  | inr (config, e) ↦ rw (e, my_eni_config) refl
]

module _ (lookup_env : String → Option String) (me : String) where
  abbrev pub told : List Event → EniConfigController
  told h = after h (new_eni_config_controller lookup_env me)

  told-names :
      (h : List Event)
      → names (told h)
        ≡ (me, get_eni_config_annotation_def lookup_env, get_eni_config_label_def lookup_env)
  unfolding after handle new_eni_config_controller
  told-names [] = refl
  told-names (e ∷ older) = handle_object-names (told older) e.object e.deleted ∙ told-names older

  told-Distinct : (h : List Event) → Distinct string_discrete (told h).eni
  unfolding after handle new_eni_config_controller
  told-Distinct [] = tt
  told-Distinct (e ∷ older) =
      handle_object-Distinct (told older) e.object e.deleted (told-Distinct older)

  told-eni :
      (k : String) (h : List Event) → lookup string_discrete k (told h).eni ≡ latest_config k h
  unfolding after handle new_eni_config_controller latest_config lookup
  told-eni k [] = refl
  told-eni k (e ∷ older) =
      handle_object-eni (told older) k e.object e.deleted (told-Distinct older)
      ∙ ap (λ b. config_told k e.object e.deleted b) (told-eni k older)

  abbrev pub name_of : List Event → String
  name_of =
      latest_name me (get_eni_config_annotation_def lookup_env)
        (get_eni_config_label_def lookup_env)

  told-my_eni : (h : List Event) → (told h).my_eni ≡ name_of h
  unfolding after handle new_eni_config_controller latest_name
  told-my_eni [] = refl
  told-my_eni (e ∷ older) =
      handle_object-my_eni (told older) e.object e.deleted
      ∙ ap (λ (n : String × String × String). name_told n.0 n.1 n.2 e.object (told older).my_eni)
          (told-names older)
      ∙ ap
          (name_told me (get_eni_config_annotation_def lookup_env)
            (get_eni_config_label_def lookup_env) e.object)
          (told-my_eni older)

  -- After any events, `MyENIConfig` answers the spec that the latest event of an ENIConfig gave, for
  -- the ENIConfig named by the annotation, or else the label, in the latest event of this node
  -- ("default" where that has neither, and before any): an error where that ENIConfig was last
  -- deleted or was never seen.
  pub my_eni_config-latest : (h : List Event) → my_eni_config (told h) ≡ latest_config (name_of h) h
  my_eni_config-latest h =
      my_eni_config_lem (told h)
      ∙ ap (λ (k : String). lookup string_discrete k (told h).eni) (told-my_eni h)
      ∙ told-eni (name_of h) h
