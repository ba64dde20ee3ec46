-- ===== src/Ipamd/Keeps/Start.antt =====
-- ipamd/ipamd.go: the start of the daemon, up to its loop.
use amazon_vpc_cni_k8s.Prelude.{◌≡◌, ◌⊎◌, false, none, some, List, Option}
use amazon_vpc_cni_k8s.Datastore.{DataStore, K8sPodInfo}
use amazon_vpc_cni_k8s.Ipamd.Keeps.Recovery.{AreApart, AreSettled, IsRecovered}
use amazon_vpc_cni_k8s.Ipamd.{IpamContext, M, Env, InitError}
use amazon_vpc_cni_k8s.Ipamd.Keeps.{Keeps}
use amazon_vpc_cni_k8s.Ipamd.Keeps.Setup

module _ {W : Type 0} (env : Env W) where
  -- The list of pods is one that Kubernetes answers.
  abbrev pub IsListed : List K8sPodInfo → Type 0
  IsListed pods = (w : W) × ((env.k8s_get_local_pod_ips w).0 ≡ some pods)

  abbrev AnswersListed : M W (Option (List K8sPodInfo)) → Type 0
  AnswersListed m =
      (c : IpamContext W) (pods : List K8sPodInfo) → (m c).0 ≡ some pods → IsListed pods

  -- The pods that Kubernetes lists have their addresses, unless the rules cannot be read.
  abbrev GivesBack : DataStore → Type 0
  GivesBack ds =
      IsRecovered ds
      × ((pods : List K8sPodInfo) × IsListed pods
          × (((w : W) × ((env.get_rule_list w).0 ≡ false)) ⊎ AreSettled ds pods))

  module _ (apart : (pods : List K8sPodInfo) → IsListed pods → AreApart pods) where
    -- The start from the attached ENIs on succeeds with such a store only.
    abbrev Recovers : M W (Option InitError) → Type 0
    Recovers m = (c : IpamContext W) → (m c).0 ≡ none → GivesBack (m c).1.data_store
