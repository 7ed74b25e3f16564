-- ===== src/Drivers/Chain/Fallback.antt =====
-- Which interface `attempt` (src/drivers/chain.rs) uses, and what it reports of the others.
use kube_hardware_autoscaler.Base.{
  ℕ, Bool, true, false, ◌≡◌, refl, sym, ap, ◌∙◌, ◌≢◌, ◌||◌, not, List, [], ◌∷◌, ◌++◌, append_assoc,
  append-nil, filter, All, if◌then◌else◌, is_empty,
}
use kube_hardware_autoscaler.Crd.Enums.{InterfaceAction, PowerState}
use kube_hardware_autoscaler.Crd.Texts.{
  timeout, Warning, failed, not_enabled, ChainError, all_failed,
}
use kube_hardware_autoscaler.Drivers.Driver.{
  ok, err, Answer, done, fail, late, PowerDriver, ok-injective, ok≢err,
}
use kube_hardware_autoscaler.Drivers.Chain.{
  Link, PowerChain, Outcome, enabled_for, answer_of, within, try_links, attempt, power_state,
  known_state,
}

module _ {T : Type 0} (action : InterfaceAction) (op : PowerDriver → Answer T) where
  abbrev pub Fails : Link → Type 0
  Fails l = (v : T) → answer_of action op l ≢ done v

  -- What a link that failed is reported as.
  abbrev pub reason : Link → List Warning
  reason l = elim (answer_of action op l) [
    | done v ↦ []
    | fail e ↦ failed l.label e ∷ []
    | late ↦ failed l.label (timeout l.timeout) ∷ []
  ]

  abbrev pub reasons : List Link → List Warning
  reasons [] = []
  reasons (l ∷ ls) = reason l ++ reasons ls

  pub record First (links : List Link) (failures : List Warning) (o : Outcome T) : Type 0 where
    pub before : List Link
    pub link : Link
    pub after : List Link
    pub split : links ≡ before ++ link ∷ after
    pub skipped : All Fails before
    pub answered : answer_of action op link ≡ done o.value
    pub named : o.via ≡ link.label
    pub reported : o.failures ≡ failures ++ reasons before

  First-cons :
      (l : Link) (ls : List Link) (failures : List Warning) (w : Warning) {o : Outcome T}
      → Fails l
      → reason l ≡ w ∷ []
      → First ls (failures ++ w ∷ []) o
      → First (l ∷ ls) failures o
  First-cons l ls failures w f r h = record {
    before = l ∷ h.before;
    link = h.link;
    after = h.after;
    split = cc h.split;
    skipped = (f, h.skipped);
    answered = h.answered;
    named = h.named;
    reported = cc (h.reported, r, append_assoc failures (w ∷ []) (reasons h.before));
  }

  First-here :
      (l : Link) (ls : List Link) (failures : List Warning) {o : Outcome T} (v : T)
      → answer_of action op l ≡ done v
      → o ≡ record { value = v; via = l.label; failures = failures }
      → First (l ∷ ls) failures o
  First-here l ls failures v e h = record {
    before = [];
    link = l;
    after = ls;
    split = refl;
    skipped = tt;
    answered = cc (e, ap (λ o. o.value) h);
    named = ap (λ o. o.via) h;
    reported = ap (λ o. o.failures) h ∙ sym (append-nil failures);
  }

  First-step :
      (tried : Bool) (failures : List Warning) (l : Link) (ls : List Link) {o : Outcome T}
      → (a : Answer T) → answer_of action op l ≡ a
      → try_links action op tried failures (l ∷ ls) ≡ ok o
      → ((failures' : List Warning)
          → try_links action op true failures' ls ≡ ok o
          → First ls failures' o)
      → First (l ∷ ls) failures o
  unfolding try_links
  First-step tried failures l ls (done v) e h ih =
      First-here l ls failures v e (sym (ok-injective (rw (e, try_links) at h)))
  First-step tried failures l ls (fail x) e h ih =
      First-cons l ls failures (failed l.label x) (λ v p. cc) (rw (e, reason))
        (ih _ (rw (e, try_links) at h))
  First-step tried failures l ls late e h ih =
      First-cons l ls failures (failed l.label (timeout l.timeout)) (λ v p. cc) (rw (e, reason))
        (ih _ (rw (e, try_links) at h))

  try_links-First :
      (tried : Bool) (failures : List Warning) (links : List Link) {o : Outcome T}
      → try_links action op tried failures links ≡ ok o
      → First links failures o
  unfolding try_links
  try_links-First tried failures [] h = cc
  try_links-First tried failures (l ∷ ls) h =
      First-step tried failures l ls (answer_of action op l) refl h
        (λ failures'. try_links-First true failures' ls)

  -- The interface used is the first one enabled for the action that succeeds: its answer is the
  -- result, it is named in the result, every enabled interface before it failed, and the reported
  -- failures are the unavailable interfaces followed by the reasons of those before it.
  pub attempt-First :
      (chain : PowerChain) {o : Outcome T}
      → attempt action op chain ≡ ok o
      → First (filter (enabled_for action) chain.links) chain.unavailable o
  unfolding attempt
  attempt-First chain h = try_links-First false chain.unavailable _ h

  -- What `try_links` reports when every link fails.
  abbrev pub AllFailed : Bool → List Warning → List Link → ChainError → Type 0
  AllFailed tried failures links e =
      All Fails links
      × (e
          ≡ all_failed (
              if tried || not (is_empty links)
              then failures ++ reasons links
              else failures ++ not_enabled action ∷ []))

  AllFailed-cons :
      (tried : Bool) (failures : List Warning) (l : Link) (ls : List Link) (w : Warning)
      {e : ChainError}
      → Fails l
      → reason l ≡ w ∷ []
      → AllFailed true (failures ++ w ∷ []) ls e
      → AllFailed tried failures (l ∷ ls) e
  AllFailed-cons true failures l ls w f r h =
      ((f, h.0), cc (h.1, r, append_assoc failures (w ∷ []) (reasons ls)))
  AllFailed-cons false failures l ls w f r h =
      ((f, h.0), cc (h.1, r, append_assoc failures (w ∷ []) (reasons ls)))

  AllFailed-step :
      (tried : Bool) (failures : List Warning) (l : Link) (ls : List Link) {e : ChainError}
      → (a : Answer T) → answer_of action op l ≡ a
      → try_links action op tried failures (l ∷ ls) ≡ err e
      → ((failures' : List Warning)
          → try_links action op true failures' ls ≡ err e
          → AllFailed true failures' ls e)
      → AllFailed tried failures (l ∷ ls) e
  unfolding try_links
  AllFailed-step tried failures l ls (done v) q h ih = absurd (ok≢err (rw (q, try_links) at h))
  AllFailed-step tried failures l ls (fail x) q h ih =
      AllFailed-cons tried failures l ls (failed l.label x) (λ v p. cc) (rw (q, reason))
        (ih _ (rw (q, try_links) at h))
  AllFailed-step tried failures l ls late q h ih =
      AllFailed-cons tried failures l ls (failed l.label (timeout l.timeout)) (λ v p. cc)
        (rw (q, reason)) (ih _ (rw (q, try_links) at h))

  try_links-AllFailed :
      (tried : Bool) (failures : List Warning) (links : List Link) {e : ChainError}
      → try_links action op tried failures links ≡ err e
      → AllFailed tried failures links e
  unfolding try_links
  try_links-AllFailed true failures [] h = (tt, cc (h, append-nil failures))
  try_links-AllFailed false failures [] h = (tt, cc h)
  try_links-AllFailed tried failures (l ∷ ls) h =
      AllFailed-step tried failures l ls (answer_of action op l) refl h
        (λ failures'. try_links-AllFailed true failures' ls)

  -- An operation fails only if every interface enabled for the action fails; the error lists the
  -- unavailable interfaces, then each of their reasons, or that none is enabled for the action.
  pub attempt-AllFailed :
      (chain : PowerChain) {e : ChainError}
      → attempt action op chain ≡ err e
      → AllFailed false chain.unavailable (filter (enabled_for action) chain.links) e
  unfolding attempt
  attempt-AllFailed chain h = try_links-AllFailed false chain.unavailable _ h

within_known : (t : ℕ) (a : Answer PowerState) → within t (known_state a) ≢ done PowerState.unknown
within_known t (done PowerState.on) h = cc
within_known t (done PowerState.off) h = cc
within_known t (done PowerState.unknown) h = cc
within_known t (fail e) h = cc
within_known t late h = cc

-- `power_state` never succeeds with `Unknown`: an interface that answers it counts as failed.
pub power_state-ne-unknown :
    (chain : PowerChain) {o : Outcome PowerState}
    → power_state chain ≡ ok o
    → o.value ≢ PowerState.unknown
unfolding power_state
power_state-ne-unknown chain {o} h u =
    let first = attempt-First InterfaceAction.status (λ d. known_state d.power_state) chain h in
    within_known first.link.timeout first.link.driver.power_state (cc (first.answered, u))
