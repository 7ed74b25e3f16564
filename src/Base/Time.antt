-- ===== src/Base/Time.antt =====
-- `chrono::DateTime<Utc>`: nanoseconds since 1970 as a number, and differences in whole seconds.
use Prim.Native.Nat.{ℕ, zero, suc, ◌+◌, ◌-◌, ◌*◌, ◌/◌}
use mathlib.Core.Path.{◌≡◌}
use native.Mathlib.Omega.{arith}
use kube_hardware_autoscaler.Base.Tests.{leb, if◌then◌else◌}
use kube_hardware_autoscaler.Base.Int.{ℤ, pos, negsuc, ltb_ℤ}

abbrev pub Time : Type 0
Time = ℕ

abbrev pub nanos : ℕ
nanos = 1000000000

abbrev pub negate : ℕ → ℤ
negate zero = pos 0
negate (suc n) = negsuc n

-- `(now - t).num_seconds()`, rounded towards zero.
unfoldable pub num_seconds : Time → Time → ℤ
num_seconds now t = if leb t now then pos ((now - t) / nanos) else negate ((t - now) / nanos)

-- More than `k` seconds have passed exactly when `k + 1` whole seconds fit in between.
pub num_seconds-lt :
    (now t k : ℕ) → ltb_ℤ (pos k) (num_seconds now t) ≡ leb (t + (k + 1) * nanos) now
unfolding num_seconds
num_seconds-lt now t k = ground arith

pub num_seconds_self : (now : ℕ) → num_seconds now now ≡ pos 0
unfolding num_seconds
num_seconds_self now = ground arith
