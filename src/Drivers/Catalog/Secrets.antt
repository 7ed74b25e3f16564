-- ===== src/Drivers/Catalog/Secrets.antt =====
-- Which secrets building a driver reads (`build_driver`, src/drivers/mod.rs).
use kube_hardware_autoscaler.Base.{
  String, ◌≡◌, refl, subst, inl, inr, Option, none, some, List, [], ◌∷◌, find, str_eq, Among,
  Option-cases, Bool-cases,
}
use kube_hardware_autoscaler.Crd.Texts.{DriverError}
use kube_hardware_autoscaler.Drivers.Driver.{Result, ok, err}
use kube_hardware_autoscaler.Drivers.Catalog.{
  Secret, CredentialsRef, Credentials, load_credentials, DriverFactory, PowerInterface, named,
  lookup_driver, build_with, with_credentials, validated, from_factory, build_driver,
}

-- The interface names a driver of the catalog, its configuration is valid, and it refers to the
-- secret.
pub record Wanted (catalog : List DriverFactory) (pi : PowerInterface) (s : String) : Type 0 where
  pub factory : DriverFactory
  pub known : find (λ f. str_eq f.name pi.driver) catalog ≡ some factory
  pub valid : factory.validate pi.config ≡ none
  pub ref : CredentialsRef
  pub referred : pi.credentials_secret_ref ≡ some ref
  pub name : s ≡ ref.name

build_with-secrets :
    (f : DriverFactory) (text s name : String) (c : Result Credentials DriverError)
    → Among s (build_with f text c (name ∷ [])).secrets
    → s ≡ name
build_with-secrets f text s name (ok c) (inl e) = e
build_with-secrets f text s name (err e) (inl e') = e'
build_with-secrets f text s name (ok c) (inr m) = absurd m
build_with-secrets f text s name (err e) (inr m) = absurd m

nothing_named :
    (catalog : List DriverFactory) (get : String → Result (Option Secret) DriverError)
    (pi : PowerInterface) (s : String)
    → find (λ f. str_eq f.name pi.driver) catalog ≡ none
    → Among s (from_factory get (lookup_driver catalog pi.driver) pi).secrets
    → ⊥
unfolding lookup_driver
nothing_named catalog get pi s e m =
    subst (λ o. Among s (from_factory get (named o) pi).secrets) e m

-- A valid configuration with a reference.
referred :
    (get : String → Result (Option Secret) DriverError) (f : DriverFactory) (text : String)
    (r : Option CredentialsRef) (s : String)
    → Among s (with_credentials get f text r).secrets
    → (ref : CredentialsRef) × (r ≡ some ref) × (s ≡ ref.name)
referred get f text (some r) s m =
    (r, refl, build_with-secrets f text s r.name (load_credentials get r) m)
referred get f text none s m = elim (Bool-cases f.requires_credentials) [
  | inl e ↦ absurd (rw e at m)
  | inr e ↦ absurd (rw e at m)
]

validated-none :
    (get : String → Result (Option Secret) DriverError) (f : DriverFactory) (pi : PowerInterface)
    (s : String)
    → Among s (validated get f pi).secrets
    → (f.validate pi.config ≡ none)
      × Among s (with_credentials get f pi.config pi.credentials_secret_ref).secrets
validated-none get f pi s m = elim (Option-cases (f.validate pi.config)) [
  | inl e ↦ (e, rw (e, validated) at m)
  | inr (x, e) ↦ absurd (rw (e, validated) at m)
]

wanted :
    (catalog : List DriverFactory) (get : String → Result (Option Secret) DriverError)
    (pi : PowerInterface) (s : String) (f : DriverFactory)
    → find (λ f. str_eq f.name pi.driver) catalog ≡ some f
    → Among s (from_factory get (lookup_driver catalog pi.driver) pi).secrets
    → Wanted catalog pi s
unfolding lookup_driver
wanted catalog get pi s f e m =
    let m' = subst (λ o. Among s (from_factory get (named o) pi).secrets) e m in
    let (valid, m'') = validated-none get f pi s m' in
    let (r, here, name) = referred get f pi.config pi.credentials_secret_ref s m'' in
    record { factory = f; known = e; valid = valid; ref = r; referred = here; name = name }

-- No driver's secret is read before its configuration has been found valid: a secret that building
-- asks for is the one that the interface refers to, its driver is in the catalog, and its
-- configuration passed validation.
pub build_driver-Wanted :
    (catalog : List DriverFactory) (get : String → Result (Option Secret) DriverError)
    (pi : PowerInterface) (s : String)
    → Among s (build_driver catalog get pi).secrets
    → Wanted catalog pi s
unfolding build_driver
build_driver-Wanted catalog get pi s m =
    elim (Option-cases (find (λ f. str_eq f.name pi.driver) catalog)) [
      | inl e ↦ absurd (nothing_named catalog get pi s e m)
      | inr (f, e) ↦ wanted catalog get pi s f e m
    ]
