-- ===== src/Scaling/Views/Requests.antt =====
-- The request of a pod (`pod_requests`, src/resources.rs): its containers together, and its init
-- containers one by one, as if each of them ended before the next one starts.
use kube_hardware_autoscaler.Base.{
  ℕ, ◌+◌, ◌≤◌, ◌<◌, ◌↔◌, max, String, ◌≡◌, refl, ◌∙◌, ap, sym, subst, Option, none, some, List, [],
  ◌∷◌, map, All, arith, unwrap_or, lookup,
}
use kube_hardware_autoscaler.Base.Int.{ℤ, pos, half_i64, max_ℤ, ◌+ℤ◌, ◌≤ℤ◌, +ℤ_exact}
use kube_hardware_autoscaler.Crd.Amounts.{ResourceAmounts, no_amounts}
use kube_hardware_autoscaler.Scaling.Views.{
  Quantities, Container, PodSpec, amounts_of, add_all, max_all, add_overhead, parsed, pod_requests,
}

-- Sums and maxima of `i64` that start from a number.
abbrev sum_from : List ℤ → ℤ → ℤ
sum_from [] s = s
sum_from (x ∷ xs) s = sum_from xs (s +ℤ x)

abbrev max_from : List ℤ → ℤ → ℤ
max_from [] s = s
max_from (x ∷ xs) s = max_from xs (max_ℤ s x)

abbrev pub total : List ℕ → ℕ
total [] = 0
total (n ∷ ns) = n + total ns

abbrev largest : List ℕ → ℕ → ℕ
largest [] s = s
largest (n ∷ ns) s = largest ns (max s n)

sum_from_pos :
    (ns : List ℕ) (s : ℕ)
    → s + total ns < half_i64
    → sum_from (map pos ns) (pos s) ≡ pos (s + total ns)
sum_from_pos [] s h = ap pos (omega arith)
sum_from_pos (n ∷ ns) s h =
    ap (λ x. sum_from (map pos ns) x) (+ℤ_exact s n (omega (arith, h)))
    ∙ sum_from_pos ns (s + n) (omega (arith, h))
    ∙ ap pos (omega arith)

max_pos : (s n : ℕ) → max_ℤ (pos s) (pos n) ≡ pos (max s n)
max_pos s n = ground arith

max_from_pos : (ns : List ℕ) (s : ℕ) → max_from (map pos ns) (pos s) ≡ pos (largest ns s)
max_from_pos [] s = refl
max_from_pos (n ∷ ns) s =
    ap (λ x. max_from (map pos ns) x) (max_pos s n) ∙ max_from_pos ns (max s n)

largest-le :
    (ns : List ℕ) (s o f : ℕ) → (largest ns s + o ≤ f) ↔ ((s + o ≤ f) × All (λ n. n + o ≤ f) ns)
largest-le [] s o f = ((λ h. (h, tt)), λ h. h.0)
largest-le (n ∷ ns) s o f =
    let rest = largest-le ns (max s n) o f in
    (
      (λ h. let k = rest.0 h in (omega (arith, k.0), (omega (arith, k.0), k.1))),
      λ h. rest.1 (omega (arith, h.0, h.1.0), h.1.1),
    )

largest-total : (ns : List ℕ) (s : ℕ) → largest ns s ≤ s + total ns
largest-total [] s = omega arith
largest-total (n ∷ ns) s = omega (arith, largest-total ns (max s n))

needed :
    (ns ms : List ℕ)
    → total ns < half_i64
    → max_from (map pos ms) (sum_from (map pos ns) (pos 0)) ≡ pos (largest ms (total ns))
needed ns ms h =
    ap (λ x. max_from (map pos ms) x) (sum_from_pos ns 0 (omega (arith, h)))
    ∙ max_from_pos ms (0 + total ns)
    ∙ ap (λ s. pos (largest ms s)) (omega arith)

-- A number of `i64` is not above another one.
bound_of :
    (x : ℤ) (ms : List ℕ) (s o f : ℕ)
    → x ≡ pos (largest ms s + o)
    → (x ≤ℤ pos f) ↔ ((s + o ≤ f) × All (λ n. n + o ≤ f) ms)
bound_of x ms s o f e =
    let l = largest-le ms s o f in
    subst (λ (y : ℤ). (y ≤ℤ pos f) ↔ ((s + o ≤ f) × All (λ n. n + o ≤ f) ms)) (sym e)
      ((λ h. l.0 (omega (arith, h))), λ h. omega (arith, l.1 h))

module _ (number : String → ℕ → Option ℕ) where
  abbrev as_amount : Option ℕ → Option ℤ
  as_amount none = none
  as_amount (some n) = some (pos n)

  abbrev pub parse : String → ℕ → Option ℤ
  parse q scale = as_amount (number q scale)

  -- The amount of a resource in a map that may be missing.
  abbrev read : Option String → ℕ → ℕ
  read none scale = 0
  read (some q) scale = unwrap_or (number q scale) 0

  abbrev pub amount : String → ℕ → Option Quantities → ℕ
  amount key scale none = 0
  amount key scale (some m) = read (lookup key m) scale

  abbrev pub cpu : Container → ℕ
  cpu c = amount "cpu" 1000 c.requests

  abbrev pub memory : Container → ℕ
  memory c = amount "memory" 1 c.requests

  as_amount_pos : (o : Option ℕ) → unwrap_or (as_amount o) (pos 0) ≡ pos (unwrap_or o 0)
  as_amount_pos none = refl
  as_amount_pos (some n) = refl

  parsed_pos :
      (o : Option String) (scale : ℕ)
      → unwrap_or (parsed parse o scale) (pos 0) ≡ pos (read o scale)
  parsed_pos none scale = refl
  parsed_pos (some q) scale = as_amount_pos (number q scale)

  amounts_cpu :
      (m : Option Quantities) → (amounts_of parse m).cpu_millis ≡ pos (amount "cpu" 1000 m)
  amounts_cpu none = refl
  amounts_cpu (some m) = parsed_pos (lookup "cpu" m) 1000

  amounts_memory :
      (m : Option Quantities) → (amounts_of parse m).memory_bytes ≡ pos (amount "memory" 1 m)
  amounts_memory none = refl
  amounts_memory (some m) = parsed_pos (lookup "memory" m) 1

  -- The two loops, for each of the amounts.
  add_all-cpu :
      (cs : List Container) (sum : ResourceAmounts)
      → (add_all parse cs sum).cpu_millis ≡ sum_from (map pos (map cpu cs)) sum.cpu_millis
  add_all-cpu [] sum = refl
  add_all-cpu (c ∷ cs) sum =
      add_all-cpu cs _
      ∙ ap (λ x. sum_from (map pos (map cpu cs)) (sum.cpu_millis +ℤ x)) (amounts_cpu c.requests)

  add_all-memory :
      (cs : List Container) (sum : ResourceAmounts)
      → (add_all parse cs sum).memory_bytes ≡ sum_from (map pos (map memory cs)) sum.memory_bytes
  add_all-memory [] sum = refl
  add_all-memory (c ∷ cs) sum =
      add_all-memory cs _
      ∙ ap (λ x. sum_from (map pos (map memory cs)) (sum.memory_bytes +ℤ x))
          (amounts_memory c.requests)

  max_all-cpu :
      (cs : List Container) (sum : ResourceAmounts)
      → (max_all parse cs sum).cpu_millis ≡ max_from (map pos (map cpu cs)) sum.cpu_millis
  max_all-cpu [] sum = refl
  max_all-cpu (c ∷ cs) sum =
      max_all-cpu cs _
      ∙ ap (λ x. max_from (map pos (map cpu cs)) (max_ℤ sum.cpu_millis x)) (amounts_cpu c.requests)

  max_all-memory :
      (cs : List Container) (sum : ResourceAmounts)
      → (max_all parse cs sum).memory_bytes ≡ max_from (map pos (map memory cs)) sum.memory_bytes
  max_all-memory [] sum = refl
  max_all-memory (c ∷ cs) sum =
      max_all-memory cs _
      ∙ ap (λ x. max_from (map pos (map memory cs)) (max_ℤ sum.memory_bytes x))
          (amounts_memory c.requests)

  overhead_cpu :
      (o : Option Quantities) (sum : ResourceAmounts) (n : ℕ)
      → sum.cpu_millis ≡ pos n
      → n + amount "cpu" 1000 o < half_i64
      → (add_overhead parse o sum).cpu_millis ≡ pos (n + amount "cpu" 1000 o)
  overhead_cpu none sum n e h = e ∙ ap pos (omega arith)
  overhead_cpu (some m) sum n e h =
      ap (λ x. x +ℤ (amounts_of parse (some m)).cpu_millis) e
      ∙ ap (λ x. pos n +ℤ x) (amounts_cpu (some m))
      ∙ +ℤ_exact n (amount "cpu" 1000 (some m)) h

  overhead_memory :
      (o : Option Quantities) (sum : ResourceAmounts) (n : ℕ)
      → sum.memory_bytes ≡ pos n
      → n + amount "memory" 1 o < half_i64
      → (add_overhead parse o sum).memory_bytes ≡ pos (n + amount "memory" 1 o)
  overhead_memory none sum n e h = e ∙ ap pos (omega arith)
  overhead_memory (some m) sum n e h =
      ap (λ x. x +ℤ (amounts_of parse (some m)).memory_bytes) e
      ∙ ap (λ x. pos n +ℤ x) (amounts_memory (some m))
      ∙ +ℤ_exact n (amount "memory" 1 (some m)) h

  -- So much is enough for the containers together, and for each init container alone, each time with
  -- the overhead.
  abbrev pub Runs : (Container → ℕ) → ℕ → PodSpec → ℕ → Type 0
  Runs of overhead spec free =
      (total (map of spec.containers) + overhead ≤ free)
      × All (λ n. n + overhead ≤ free) (map of spec.init_containers)

  abbrev pub everything : (Container → ℕ) → ℕ → PodSpec → ℕ
  everything of overhead spec =
      total (map of spec.containers) + total (map of spec.init_containers) + overhead

  -- The request of a pod is the least amount in which its containers fit together, and each of its
  -- init containers alone, each time with the overhead: an amount of CPU (and of memory) is not below
  -- the request if and only if they do. Every init container counts as running alone, before the
  -- containers, a restartable one too. The quantities are not negative, and all of them together are
  -- below 2^63.
  pub pod_requests-Runs :
      (spec : PodSpec) (free_cpu free_memory : ℕ)
      → everything cpu (amount "cpu" 1000 spec.overhead) spec < half_i64
      → everything memory (amount "memory" 1 spec.overhead) spec < half_i64
      → (((pod_requests parse (some spec)).cpu_millis ≤ℤ pos free_cpu)
          ↔ Runs cpu (amount "cpu" 1000 spec.overhead) spec free_cpu)
        × (((pod_requests parse (some spec)).memory_bytes ≤ℤ pos free_memory)
            ↔ Runs memory (amount "memory" 1 spec.overhead) spec free_memory)
  unfolding pod_requests
  pod_requests-Runs spec free_cpu free_memory h k =
      let cpus = map cpu spec.containers in
      let cpus' = map cpu spec.init_containers in
      let mems = map memory spec.containers in
      let mems' = map memory spec.init_containers in
      let sum = max_all parse spec.init_containers (add_all parse spec.containers no_amounts) in
      let e : sum.cpu_millis ≡ pos (largest cpus' (total cpus)) =
        max_all-cpu spec.init_containers (add_all parse spec.containers no_amounts)
        ∙ ap (λ x. max_from (map pos cpus') x) (add_all-cpu spec.containers no_amounts)
        ∙ needed cpus cpus' (omega (arith, h)) in
      let f : sum.memory_bytes ≡ pos (largest mems' (total mems)) =
        max_all-memory spec.init_containers (add_all parse spec.containers no_amounts)
        ∙ ap (λ x. max_from (map pos mems') x) (add_all-memory spec.containers no_amounts)
        ∙ needed mems mems' (omega (arith, k)) in
      (
        bound_of _ cpus' (total cpus) (amount "cpu" 1000 spec.overhead) free_cpu (
            overhead_cpu spec.overhead sum (largest cpus' (total cpus)) e
              (omega (arith, h, largest-total cpus' (total cpus)))),
        bound_of _ mems' (total mems) (amount "memory" 1 spec.overhead) free_memory (
            overhead_memory spec.overhead sum (largest mems' (total mems)) f
              (omega (arith, k, largest-total mems' (total mems)))),
      )
