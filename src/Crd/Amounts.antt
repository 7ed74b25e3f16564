-- ===== src/Crd/Amounts.antt =====
-- `ResourceAmounts` (src/crd.rs, with the methods of src/resources.rs).
use kube_hardware_autoscaler.Base.{Bool, ◌&&◌}
use kube_hardware_autoscaler.Base.Int.{ℤ, pos, leb_ℤ, ◌+ℤ◌, ◌-ℤ◌}

pub record ResourceAmounts : Type 0 where
  pub cpu_millis : ℤ
  pub memory_bytes : ℤ
  pub pods : ℤ

-- `ResourceAmounts::default()`.
abbrev pub no_amounts : ResourceAmounts
no_amounts = record { cpu_millis = pos 0; memory_bytes = pos 0; pods = pos 0 }

unfoldable pub add : ResourceAmounts → ResourceAmounts → ResourceAmounts
add a o = record {
  cpu_millis = a.cpu_millis +ℤ o.cpu_millis;
  memory_bytes = a.memory_bytes +ℤ o.memory_bytes;
  pods = a.pods +ℤ o.pods;
}

unfoldable pub fits : ResourceAmounts → ResourceAmounts → Bool
fits free req =
    leb_ℤ req.cpu_millis free.cpu_millis
    && (leb_ℤ req.memory_bytes free.memory_bytes && leb_ℤ req.pods free.pods)

unfoldable pub minus : ResourceAmounts → ResourceAmounts → ResourceAmounts
minus a o = record {
  cpu_millis = a.cpu_millis -ℤ o.cpu_millis;
  memory_bytes = a.memory_bytes -ℤ o.memory_bytes;
  pods = a.pods -ℤ o.pods;
}
