-- ===== src/Drivers/Chain/Disabled.antt =====
-- Interfaces that control another machine (src/drivers/chain.rs).
use kube_hardware_autoscaler.Base.{
  String, Bool, ◌≡◌, ◌≢◌, not, List, [], ◌∷◌, ◌++◌, ◌⊎◌, inl, inr, arith, filter, All, All-mono,
  All-filter, str_eq, eq_iff, subst,
}
use kube_hardware_autoscaler.Crd.Enums.{InterfaceAction}
use kube_hardware_autoscaler.Identity.{match, mismatch, unverifiable}
use kube_hardware_autoscaler.Drivers.Driver.{ok, Answer, PowerDriver}
use kube_hardware_autoscaler.Drivers.Chain.{
  Link, PowerChain, Outcome, Checked, enabled_for, attempt, disable_one, disable_mismatched,
}
use kube_hardware_autoscaler.Drivers.Chain.Fallback.{attempt-First}

-- Some result says that the interface of this label controls another machine.
abbrev pub Refuted : List Checked → String → Type 0
Refuted [] label = ⊥
Refuted ((l, mismatch reported expected, c) ∷ rs) label = (l ≡ label) ⊎ Refuted rs label
Refuted ((l, _, c) ∷ rs) label = Refuted rs label

abbrev Avoids : String → List Link → Type 0
Avoids label links = All (λ l. l.label ≢ label) links

filter-Avoids :
    (p : Link → Bool) (label : String) (links : List Link)
    → Avoids label links
    → Avoids label (filter p links)
filter-Avoids p label [] h = tt
filter-Avoids p label (l ∷ ls) h = ground (arith, filter-Avoids p label ls h.1)

filter_label-Avoids :
    (label : String) (links : List Link)
    → Avoids label (filter (λ l. not (str_eq l.label label)) links)
filter_label-Avoids label links =
    All-mono _ _ (λ l h e. ground (arith, eq_iff l.label label)) _
      (All-filter (λ l. not (str_eq l.label label)) links)

disable_one-Avoids :
    (r : Checked) (chain : PowerChain) (label : String)
    → Avoids label chain.links
    → Avoids label (disable_one r chain).links
unfolding disable_one
disable_one-Avoids (l, mismatch a b, c) chain label h =
    filter-Avoids (λ k. not (str_eq k.label l)) label chain.links h
disable_one-Avoids (l, match, c) chain label h = h
disable_one-Avoids (l, unverifiable, c) chain label h = h

disable_mismatched-Avoids :
    (rs : List Checked) (chain : PowerChain) (label : String)
    → Avoids label chain.links
    → Avoids label (disable_mismatched chain rs).links
unfolding disable_mismatched
disable_mismatched-Avoids [] chain label h = h
disable_mismatched-Avoids (r ∷ rs) chain label h =
    disable_mismatched-Avoids rs (disable_one r chain) label (disable_one-Avoids r chain label h)

Refuted-Avoids :
    (rs : List Checked) (chain : PowerChain) (label : String)
    → Refuted rs label
    → Avoids label (disable_mismatched chain rs).links
unfolding disable_mismatched disable_one
Refuted-Avoids [] chain label h = absurd h
Refuted-Avoids ((l, mismatch a b, c) ∷ rs) chain label (inl e) =
    disable_mismatched-Avoids rs (disable_one (l, mismatch a b, c) chain) label (
      subst (λ k. Avoids k (filter (λ m. not (str_eq m.label l)) chain.links)) e
        (filter_label-Avoids l chain.links))
Refuted-Avoids ((l, mismatch a b, c) ∷ rs) chain label (inr m) =
    Refuted-Avoids rs (disable_one (l, mismatch a b, c) chain) label m
Refuted-Avoids ((l, match, c) ∷ rs) chain label m = Refuted-Avoids rs chain label m
Refuted-Avoids ((l, unverifiable, c) ∷ rs) chain label m = Refuted-Avoids rs chain label m

Avoids-middle :
    (label : String) (before after : List Link) (l : Link)
    → Avoids label (before ++ l ∷ after)
    → l.label ≢ label
Avoids-middle label [] after l h = h.0
Avoids-middle label (b ∷ bs) after l h = Avoids-middle label bs after l h.1

-- An interface that the identity check found to control another machine carries out no operation
-- of the chain afterwards, whatever the action.
pub disabled_unused :
    {T : Type 0} (action : InterfaceAction) (op : PowerDriver → Answer T) (chain : PowerChain)
    (results : List Checked) (label : String) {o : Outcome T}
    → Refuted results label
    → attempt action op (disable_mismatched chain results) ≡ ok o
    → o.via ≢ label
disabled_unused action op chain results label {o} m h e =
    let chain' = disable_mismatched chain results in
    let first = attempt-First action op chain' h in
    Avoids-middle label first.before first.after first.link
      (subst (Avoids label) first.split (
        filter-Avoids (enabled_for action) label chain'.links
          (Refuted-Avoids results chain label m)))
      (cc (first.named, e))
