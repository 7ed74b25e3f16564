-- ===== src/Drivers/WakeOnLan/Relays.antt =====
-- The relays of a wake (`pick_relays`, src/drivers/wol.rs), and what makes a power-on succeed.
use kube_hardware_autoscaler.Base.{
  ℕ, zero, suc, ◌≤◌, max, String, Bool, true, false, ◌≡◌, ◌≢◌, refl, Option, none, some, List, [],
  ◌∷◌, map, arith, str_eq, lookup, filter, all, take, length, All, All-mono, Among, All-both,
  All-filter, All-Among_self, inl, inr, Bool-cases, Option-cases,
}
use kube_hardware_autoscaler.Crd.Selector.{Labels, has_label}
use kube_hardware_autoscaler.Cluster.{Node, node_ready, has_annotation, powered_off_annotation}
use kube_hardware_autoscaler.Membership.{insert_name, sort_names}
use kube_hardware_autoscaler.Drivers.WakeOnLan.{
  RelayConfig, Topology, topology_of, same_topology, qualifies, relay_names, unless_unlabelled,
  pick_relays,
}

-- The node stands where the target does, if that is asked for.
abbrev pub AtSameSite : Option String → Labels → Node → Type 0
AtSameSite none labels n = Unit
AtSameSite (some key) labels n =
    (v : String) × (lookup key labels ≡ some v) × (has_label n.labels (key, v) ≡ true)

-- A node that may relay a wake of the target.
pub record MayRelay (target : String) (labels : Labels) (cfg : RelayConfig) (n : Node)
    : Type 0 where
  pub other : str_eq n.name target ≡ false
  pub ready : node_ready n ≡ true
  pub powered : has_annotation n powered_off_annotation ≡ false
  pub selected : all (has_label n.labels) cfg.node_selector ≡ true
  pub at_site : AtSameSite cfg.same_topology_as labels n

-- The name of such a node among these.
abbrev pub NameOfRelay : String → Labels → RelayConfig → List Node → String → Type 0
NameOfRelay target labels cfg nodes name =
    (n : Node) × Among n nodes × (n.name ≡ name) × MayRelay target labels cfg n

module _ (P : String → Type 0) where
  All-insert_name :
      (a : String) (names : List String) → P a → All P names → All P (insert_name a names)
  All-insert_name a [] ha h = (ha, tt)
  All-insert_name a (b ∷ bs) ha h = ground (arith, All-insert_name a bs ha h.1)

  All-sort_names : (names : List String) → All P names → All P (sort_names names)
  All-sort_names [] h = tt
  All-sort_names (a ∷ rest) h = All-insert_name a (sort_names rest) h.0 (All-sort_names rest h.1)

  All-take : (n : ℕ) (names : List String) → All P names → All P (take n names)
  All-take zero names h = tt
  All-take (suc n) [] h = tt
  All-take (suc n) (x ∷ xs) h = (h.0, All-take n xs h.1)

All-names :
    (P : String → Type 0) (Q : Node → Type 0)
    → ((n : Node) → Q n → P n.name)
    → (ns : List Node) → All Q ns
    → All P (map (λ n. n.name) ns)
All-names P Q f [] h = tt
All-names P Q f (n ∷ ns) h = (f n h.0, All-names P Q f ns h.1)

kept :
    (n x : Node) (ns ms : List Node)
    → (Among n ms → Among n ns)
    → Among n (x ∷ ms)
    → Among n (x ∷ ns)
kept n x ns ms f (inl e) = inl e
kept n x ns ms f (inr m) = inr (f m)

Among-filter : (p : Node → Bool) (n : Node) (ns : List Node) → Among n (filter p ns) → Among n ns
Among-filter p n [] h = h
Among-filter p n (x ∷ ns) h = elim (Bool-cases (p x)) [
  | inl e ↦ kept n x ns (filter p ns) (Among-filter p n ns) (rw e at h)
  | inr e ↦ inr (Among-filter p n ns (rw e at h))
]

length-take-le : (n : ℕ) (names : List String) → length (take n names) ≤ n
length-take-le zero names = omega arith
length-take-le (suc n) [] = omega arith
length-take-le (suc n) (x ∷ xs) = omega (arith, length-take-le n xs)

site :
    (asked : Option String) (labels : Labels) (n : Node)
    → topology_of asked labels ≢ Topology.unlabelled
    → same_topology (topology_of asked labels) n ≡ true
    → AtSameSite asked labels n
site none labels n u h = tt
site (some key) labels n u h = elim (Option-cases (lookup key labels)) [
  | inl e ↦ absurd (u (rw e refl))
  | inr (v, e) ↦ (v, e, rw e at h)
]

-- A topology that leaves anything over.
qualifies-MayRelay :
    (target : String) (labels : Labels) (cfg : RelayConfig) (n : Node)
    → topology_of cfg.same_topology_as labels ≢ Topology.unlabelled
    → qualifies target (topology_of cfg.same_topology_as labels) cfg n ≡ true
    → MayRelay target labels cfg n
qualifies-MayRelay target labels cfg n u h = record {
  other = ground arith;
  ready = ground arith;
  powered = ground arith;
  selected = ground arith;
  at_site = site cfg.same_topology_as labels n u (ground arith);
}

module _ (target : String) (labels : Labels) (cfg : RelayConfig) (nodes : List Node) where
  abbrev topology : Topology
  topology = topology_of cfg.same_topology_as labels

  -- Every node that the filter keeps may relay.
  All-kept :
      topology ≢ Topology.unlabelled
      → All
          (λ n. Among n nodes × MayRelay target labels cfg n)
          (filter (qualifies target topology cfg) nodes)
  All-kept u =
      let p = qualifies target topology cfg in
      All-mono (λ n. Among n (filter p nodes) × (p n ≡ true)) _
        (λ n h. (Among-filter p n nodes h.0, qualifies-MayRelay target labels cfg n u h.1))
        (filter p nodes)
        (All-both _ _ (filter p nodes) (All-Among_self (filter p nodes)) (All-filter p nodes))

  All-relay_names :
      topology ≢ Topology.unlabelled
      → All (NameOfRelay target labels cfg nodes) (relay_names target topology cfg nodes)
  All-relay_names u =
      All-sort_names _ (map (λ n. n.name) (filter (qualifies target topology cfg) nodes)) (
        All-names _ (λ n. Among n nodes × MayRelay target labels cfg n) (λ n h. (n, h.0, refl, h.1))
          (filter (qualifies target topology cfg) nodes) (All-kept u))

  All-unless :
      (t : Topology) (names : List String)
      → (t ≢ Topology.unlabelled → All (NameOfRelay target labels cfg nodes) names)
      → All (NameOfRelay target labels cfg nodes) (unless_unlabelled t names)
  All-unless Topology.unlabelled names h = tt
  All-unless Topology.anywhere names h = h (λ e. cc)
  All-unless (Topology.same key v) names h = h (λ e. cc)

  length-unless :
      (t : Topology) (names : List String) → length (unless_unlabelled t names) ≤ length names
  length-unless Topology.unlabelled names = omega arith
  length-unless Topology.anywhere names = omega arith
  length-unless (Topology.same key v) names = omega arith

-- Every relay of a wake is another node than the target, Ready and not powered off by the operator;
-- it carries the labels of the node selector and, where the topology is to be the same, the value
-- that the target carries (so a target without that label gets no relay at all). There are at most
-- `maxNodes` relays, at least one of which is allowed.
pub pick_relays-MayRelay :
    (target : String) (labels : Labels) (cfg : RelayConfig) (nodes : List Node)
    → All (NameOfRelay target labels cfg nodes) (pick_relays target labels nodes cfg)
      × (length (pick_relays target labels nodes cfg) ≤ max cfg.max_nodes 1)
unfolding pick_relays
pick_relays-MayRelay target labels cfg nodes =
    let t = topology_of cfg.same_topology_as labels in
    let n = max cfg.max_nodes 1 in
    let names = relay_names target t cfg nodes in
    (
      All-unless target labels cfg nodes t (take n names)
          (λ u. All-take _ n names (All-relay_names target labels cfg nodes u)),
      omega (arith, length-unless target labels cfg nodes t (take n names), length-take-le n names),
    )
