-- ===== src/Publisher.antt =====
-- pkg/publisher/publisher.go: the queue of metric data and the requests that carry it to
-- CloudWatch, and pkg/ec2wrapper/client.go's lookup of the cluster's name.
pub mod Slices
pub mod Batches
pub mod Polls
mod Tests
use amazon_vpc_cni_k8s.Prelude.{
  ℕ, zero, suc, ◌+◌, ◌-◌, ltb, leb, String, Bool, true, false, not, ◌||◌, same, Option, none, some,
  List, [], ◌∷◌, ◌++◌, length, if◌then◌else◌,
}
use amazon_vpc_cni_k8s.Prelude.Actions.{
  Answer, ok, failed, crashed, Action, ◌>>=◌, ◌>>◌, pure, crash, call, rest, for_each,
}

-- The fields of the CloudWatch types that the code sets; `none` is a nil pointer. Numbers are
-- floats, a type the model is given.
pub record Dimension : Type 0 where
  pub name : String
  pub value : String

pub record StatisticSet (N : Type 0) : Type 0 where
  pub maximum : N
  pub minimum : N
  pub sample_count : N
  pub sum : N

pub record MetricDatum (N : Type 0) : Type 0 where
  pub metric_name : String
  pub unit : Option String
  pub value : Option N
  pub statistic_values : Option (StatisticSet N)
  pub dimensions : List Dimension

pub record PutMetricDataInput (N : Type 0) : Type 0 where
  pub namespace : String
  pub metric_data : List (Option (MetricDatum N))

-- A slice of pointers: its elements, and the nil entries that its array has after them.
pub record Slice (A : Type 0) : Type 0 where
  pub elems : List A
  pub spare : ℕ

-- `cloudWatchPublisher`; the client is what it was asked to put, the oldest request first.
pub record CloudWatchPublisher (N : Type 0) : Type 0 where
  pub cluster_id : String
  pub cloudwatch_client : List (PutMetricDataInput N)
  pub local_metric_data : Slice (MetricDatum N)

abbrev pub local_metric_data_size : ℕ
local_metric_data_size = 100

abbrev pub max_data_points : ℕ
max_data_points = 20

abbrev pub cloudwatch_metric_namespace : String
cloudwatch_metric_namespace = "Kubernetes"

abbrev pub cluster_id_dimension : String
cluster_id_dimension = "CLUSTER_ID"

module _ {A : Type 0} where
  -- `make([]A, 0, n)`
  unfoldable pub make : ℕ → Slice A
  make n = record { elems = []; spare = n }

  -- `append(s, a)`; `grow n` is the capacity of the new array where `n` entries do not fit.
  unfoldable pub append : (ℕ → ℕ) → Slice A → A → Slice A
  append grow s a = elim s.spare [
    | zero ↦ record {
      elems = s.elems ++ (a ∷ []);
      spare = grow (suc (length s.elems)) - suc (length s.elems);
    }
    | suc n ↦ record { elems = s.elems ++ (a ∷ []); spare = n }
  ]

  unfoldable pub padded : ℕ → List A → List (Option A)
  padded zero xs = []
  padded (suc n) [] = none ∷ padded n []
  padded (suc n) (x ∷ xs) = some x ∷ padded n xs

  -- `s[:n]`, which may reach past the length up to the capacity; `none` is the panic.
  unfoldable pub up_to : ℕ → Slice A → Option (List (Option A))
  up_to n s = if leb n (length s.elems + s.spare) then some (padded n s.elems) else none

  unfoldable pub drop : ℕ → List A → List A
  drop zero xs = xs
  drop (suc n) [] = []
  drop (suc n) (x ∷ xs) = drop n xs

  -- `s[n:]`
  unfoldable pub after : ℕ → Slice A → Slice A
  after n s = record s { elems = drop n s.elems }

unfoldable pub min : ℕ → ℕ → ℕ
min x y = if ltb x y then x else y

abbrev pub M : Type 0 → Type 0 → Type 0
M N A = Action (CloudWatchPublisher N) (Unit {0}) A

module _ {N : Type 0} where
  abbrev pub dimensions_of : CloudWatchPublisher N → List Dimension
  dimensions_of p = record { name = cluster_id_dimension; value = p.cluster_id } ∷ []

  unfoldable pub dated : CloudWatchPublisher N → MetricDatum N → MetricDatum N
  dated p d = record d { dimensions = dimensions_of p }

  -- `Publish`; `grow` is the runtime's choice of a capacity.
  unfoldable pub publish : (ℕ → ℕ) → List (MetricDatum N) → M N (Unit {0})
  publish grow =
      for_each
        λ d. rest λ p. record p { local_metric_data = append grow p.local_metric_data (dated p d) }

  module _ (put_metric_data : List (PutMetricDataInput N) → Bool) where
    -- `send`: whether CloudWatch takes the request, after those before it.
    unfoldable pub send : PutMetricDataInput N → M N Bool
    send input = call λ p. (
      put_metric_data (p.cloudwatch_client ++ (input ∷ [])),
      record p { cloudwatch_client = p.cloudwatch_client ++ (input ∷ []) },
    )

    -- The loop of `push`; the error of `send` is only logged.
    unfoldable pub push_loop : ℕ → Slice (MetricDatum N) → M N (Unit {0})
    push_loop zero s = pure tt
    push_loop (suc fuel) s = elim s.elems [
      | [] ↦ pure tt
      | x ∷ xs ↦ elim (up_to max_data_points s) [
        | none ↦ crash
        | some entries ↦
            send (record { namespace = cloudwatch_metric_namespace; metric_data = entries })
            >>= λ _. push_loop fuel (after (min max_data_points (length s.elems)) s)
      ]
    ]

    -- A round takes one datum at least.
    unfoldable pub push : Slice (MetricDatum N) → M N (Unit {0})
    push s = push_loop (length s.elems) s

    -- `pushLocal`
    unfoldable pub push_local : M N (Unit {0})
    push_local =
        call
          (λ p. (p.local_metric_data, record p { local_metric_data = make local_metric_data_size }))
        >>= push

-- What `GetClusterTag` asks of EC2: the values of the tags found, or an error.
unfoldable pub get_cluster_tag : (String → Option (List String)) → String → Option String
get_cluster_tag describe_tags key = elim (describe_tags key) [
  | none ↦ none
  | some [] ↦ none
  | some (v ∷ vs) ↦ some v
]

abbrev pub named : Option String → Option String
named none = none
named (some s) = if same s "" then none else some s

unfoldable pub cluster_id_of : (String → Option String) → String
cluster_id_of tag = elim (named (tag "CLUSTER_ID")) [
  | some id ↦ id
  | none ↦ elim (named (tag "Name")) [ some id ↦ id | none ↦ "k8s-cluster" ]
]

-- `New`: `client` is the EC2 client's lookup of tags, and `region` the region, each `none` on an
-- error.
unfoldable pub new :
    {N : Type 0}
    → Option (String → Option (List String))
    → Option String
    → Option (CloudWatchPublisher N)
new client region = elim client [
  | none ↦ none
  | some describe_tags ↦ elim region [
    | none ↦ none
    | some r ↦ some (record {
      cluster_id = cluster_id_of (get_cluster_tag describe_tags);
      cloudwatch_client = [];
      local_metric_data = make local_metric_data_size;
    })
  ]
]
