-- ===== src/Prelude/Time.antt =====
-- Go's `time`: an instant is the number of nanoseconds since the zero `time.Time`, and `Sub` is a
-- signed number of nanoseconds that saturates at the ends of `int64`.
use Prim.Native.Nat.{ℕ, ◌+◌, ◌-◌, ◌*◌, ◌<◌, ◌≤◌}
use mathlib.Core.Path.{◌≡◌}
use native.Mathlib.Omega.{arith}
use amazon_vpc_cni_k8s.Prelude.Int.{ℤ, pos, negsuc, ltb_ℤ, leb_ℤ}
use amazon_vpc_cni_k8s.Prelude.Tests.{ltb, leb, if◌then◌else◌}

abbrev pub Instant : Type 0
Instant = ℕ

abbrev pub second : ℕ
second = 1_000_000_000

abbrev pub minute : ℕ
minute = 60 * second

abbrev pub max_duration : ℕ
max_duration = 9_223_372_036_854_775_807

-- `t.Sub(u)`
unfoldable pub time_sub : Instant → Instant → ℤ
time_sub t u =
    if leb u t
    then pos (if ltb max_duration (t - u) then max_duration else t - u)
    else negsuc (if ltb max_duration (u - t - 1) then max_duration else u - t - 1)

-- A difference is under a limit, itself in range, exactly when the sum says so.
pub time_sub-lt : (t u d : ℕ) → d ≤ max_duration → ltb_ℤ (time_sub t u) (pos d) ≡ ltb t (u + d)
unfolding time_sub
time_sub-lt t u d h = ground arith

pub time_sub-gt : (t u d : ℕ) → d < max_duration → ltb_ℤ (pos d) (time_sub t u) ≡ ltb (u + d) t
unfolding time_sub
time_sub-gt t u d h = ground arith

pub time_sub-le : (t u d : ℕ) → d < max_duration → leb_ℤ (time_sub t u) (pos d) ≡ leb t (u + d)
unfolding time_sub
time_sub-le t u d h = ground arith
