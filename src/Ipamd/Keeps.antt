-- ===== src/Ipamd/Keeps.antt =====
-- The daemon of ipamd/ipamd.go against a property of its store: the rules for the parts of a
-- method, which touch the store only through the store's methods.
pub mod Setup
pub mod Pool
pub mod Reconcile
pub mod Pods
pub mod Recovery
pub mod Start
use amazon_vpc_cni_k8s.Prelude.{ℕ, Bool, true, false, String, ◌≡◌, refl, Instant, ℤ, if◌then◌else◌}
use amazon_vpc_cni_k8s.Datastore.{DataStore, Result}
use amazon_vpc_cni_k8s.Datastore.History.{Call, assigns, unassigns, step}
use amazon_vpc_cni_k8s.Ipamd.{IpamContext, M, Env, ◌>>=◌, pure, gets, call, on_store, modify, pause}

-- A call that neither gives an address to a pod nor takes it back.
abbrev pub IsPoolCall : Call → Type 0
IsPoolCall (assigns pod) = ⊥
IsPoolCall (unassigns pod) = ⊥
IsPoolCall _ = Unit {0}

-- Every such call keeps the property.
abbrev pub PoolStable : (DataStore → Type 0) → Type 0
PoolStable P = (ds : DataStore) (c : Instant × Call) → IsPoolCall c.1 → P ds → P (step ds c)

abbrev pub Keeps : {W A : Type 0} → (DataStore → Type 0) → M W A → Type 0
Keeps {W} P m = (c : IpamContext W) → P c.data_store → P (m c).1.data_store

module _ {W : Type 0} (P : DataStore → Type 0) where
  pub pure-Keeps : {A : Type 0} (a : A) → Keeps P (pure {W = W} a)
  unfolding pure
  pure-Keeps a c p = p

  pub gets-Keeps : {A : Type 0} (f : IpamContext W → A) → Keeps P (gets f)
  unfolding gets
  gets-Keeps f c p = p

  pub call-Keeps : {A : Type 0} (f : W → A × W) → Keeps P (call f)
  unfolding call
  call-Keeps f c p = p

  pub pause-Keeps : (env : Env W) (n : ℕ) → Keeps P (pause env n)
  unfolding pause call
  pause-Keeps env n c p = p

  pub modify-Keeps :
      (f : IpamContext W → IpamContext W)
      → ((c : IpamContext W) → P c.data_store → P (f c).data_store)
      → Keeps P (modify f)
  unfolding modify
  modify-Keeps f same c p = same c p

  pub bind-Keeps :
      {A B : Type 0} (m : M W A) (f : A → M W B)
      → Keeps P m
      → ((a : A) → Keeps P (f a))
      → Keeps P (m >>= f)
  unfolding ◌>>=◌
  bind-Keeps m f km kf c p = kf (m c).0 (m c).1 (km c p)

  pub on_store-Keeps :
      {A : Type 0} (f : DataStore → DataStore × Result A)
      → ((ds : DataStore) → P ds → P (f ds).0)
      → Keeps {W = W} P (on_store f)
  unfolding on_store
  on_store-Keeps f k c p = k c.data_store p

  pub if-Keeps :
      {A : Type 0} (b : Bool) (m n : M W A) → Keeps P m → Keeps P n → Keeps P (if b then m else n)
  if-Keeps true m n km kn = km
  if-Keeps false m n km kn = kn
