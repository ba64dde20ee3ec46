-- ===== src/Ipamd/Cooldown.antt =====
-- ipamd/ipamd.go: `ReconcileCooldownCache`, the addresses that were handed back to EC2 lately.
use amazon_vpc_cni_k8s.Prelude.{
  ℕ, ◌+◌, ◌*◌, pos, ltb_ℤ, String, string_discrete, Bool, true, false, none, some, List, [], ◌∷◌,
  Dict, insert, remove, lookup, Instant, second, time_sub,
}
use amazon_vpc_cni_k8s.Ipamd.Context.{Env, M, ◌>>=◌, gets, call, modify}

abbrev pub ip_reconcile_cooldown : ℕ
ip_reconcile_cooldown = 60 * second

unfoldable pub cool_all : Instant → List String → Dict String Instant → Dict String Instant
cool_all expiry [] cache = cache
cool_all expiry (ip ∷ ips) cache = cool_all expiry ips (insert string_discrete ip expiry cache)

-- `(found, recentlyFreed)`
unfoldable pub freed_at : Instant → String → Dict String Instant → Bool × Bool
freed_at now ip cache = elim (lookup string_discrete ip cache) [
  | none ↦ (false, false)
  | some expiry ↦ (true, ltb_ℤ (time_sub now expiry) (pos 0))
]

module _ {W : Type 0} (env : Env W) where
  unfoldable pub cooldown_add : List String → M W (Unit {0})
  unfolding cool_all
  cooldown_add ips = do
    now ← call env.now
    modify λ c. record c {
      reconcile_cooldown_cache =
          cool_all (now + ip_reconcile_cooldown) ips c.reconcile_cooldown_cache;
    }

  unfoldable pub cooldown_remove : String → M W (Unit {0})
  cooldown_remove ip = modify λ c. record c {
    reconcile_cooldown_cache = remove string_discrete ip c.reconcile_cooldown_cache;
  }

  unfoldable pub recently_freed : String → M W (Bool × Bool)
  unfolding freed_at
  recently_freed ip = do now ← call env.now; gets λ c. freed_at now ip c.reconcile_cooldown_cache
