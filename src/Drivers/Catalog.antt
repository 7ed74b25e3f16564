-- ===== src/Drivers/Catalog.antt =====
-- The driver catalog (src/drivers/mod.rs): looking a driver up, its credentials, and building it. A
-- driver's own configuration is validated and read by that driver: its verdict is given.
pub mod Secrets
pub mod Tests
use kube_hardware_autoscaler.Base.{
  ℕ, String, Bool, ◌&&◌, not, Option, none, some, List, [], ◌∷◌, map, str_eq, ◌==◌, if◌then◌else◌,
  find, lookup, insert, is_some,
}
use kube_hardware_autoscaler.Base.Texts.{Chars, codes, strip_prefix, trim_end}
use kube_hardware_autoscaler.Crd.Texts.{DriverError, config, credentials}
use kube_hardware_autoscaler.Drivers.Driver.{Result, ok, err, PowerDriver}
use kube_hardware_autoscaler.Drivers.InBand.{and_then}

-- Text maps.
abbrev pub StringMap : Type 0
StringMap = List (String × String)

-- `BTreeMap::remove`, as what is left.
abbrev pub remove_key : String → StringMap → StringMap
remove_key k [] = []
remove_key k ((j, v) ∷ m) = let rest = remove_key k m in if str_eq j k then rest else (j, v) ∷ rest

-- `data.extend(more)`.
abbrev pub extend : StringMap → StringMap → StringMap
extend m [] = m
extend m ((k, v) ∷ more) = extend (insert k v m) more

-- The values of `data` that are UTF-8.
abbrev readable : List (String × Option String) → StringMap
readable [] = []
readable ((k, none) ∷ rest) = readable rest
readable ((k, some v) ∷ rest) = (k, v) ∷ readable rest

pub record Secret : Type 0 where
  pub bytes : List (String × Option String)
  pub string_data : StringMap

pub record CredentialsRef : Type 0 where
  pub name : String
  pub username_key : String
  pub password_key : String

pub record Credentials : Type 0 where
  pub username : String
  pub password : String
  pub extra : StringMap

-- The closure `take`: the value and the map without it.
abbrev take_key : String → StringMap → Result (String × StringMap) DriverError
take_key k m = elim (lookup k m) [
  | none ↦ err (credentials "the secret has no such key")
  | some v ↦ ok (v, remove_key k m)
]

abbrev from_map : CredentialsRef → StringMap → Result Credentials DriverError
from_map r m = and_then (take_key r.username_key m) (λ u.
    and_then (take_key r.password_key u.1)
      (λ p. ok (record { username = u.0; password = p.0; extra = p.1 })))

abbrev found_secret : Option Secret → Result Secret DriverError
found_secret none = err (credentials "secret not found")
found_secret (some s) = ok s

-- `get` is the API server's answer for a name.
unfoldable pub load_credentials :
    (String → Result (Option Secret) DriverError) → CredentialsRef → Result Credentials DriverError
load_credentials get r = and_then (get r.name) (λ s.
    and_then (found_secret s)
      (λ secret. from_map r (extend (readable secret.bytes) secret.string_data)))

-- A factory: whether its driver needs credentials, and its verdict on the interface's configuration,
-- before and after the credentials are known.
pub record DriverFactory : Type 0 where
  pub name : String
  pub requires_credentials : Bool
  pub validate : String → Option DriverError
  pub build : String → Option Credentials → Result PowerDriver DriverError

pub record PowerInterface : Type 0 where
  pub driver : String
  pub config : String
  pub credentials_secret_ref : Option CredentialsRef

abbrev named : Option DriverFactory → Result DriverFactory DriverError
named none = err (config "unknown driver")
named (some f) = ok f

unfoldable pub lookup_driver : List DriverFactory → String → Result DriverFactory DriverError
lookup_driver catalog name = named (find (λ f. str_eq f.name name) catalog)

-- What building did: its result, and the secrets that it asked for.
pub record Built : Type 0 where
  pub result : Result PowerDriver DriverError
  pub secrets : List String

abbrev build_with : DriverFactory → String → Result Credentials DriverError → List String → Built
build_with f text (ok c) secrets = record { result = f.build text (some c); secrets = secrets }
build_with f text (err e) secrets = record { result = err e; secrets = secrets }

abbrev no_secret : Result PowerDriver DriverError → Built
no_secret r = record { result = r; secrets = [] }

-- Once the configuration is valid.
abbrev with_credentials :
    (String → Result (Option Secret) DriverError)
    → DriverFactory
    → String
    → Option CredentialsRef
    → Built
with_credentials get f text (some r) = build_with f text (load_credentials get r) (r.name ∷ [])
with_credentials get f text none =
    if f.requires_credentials
    then no_secret (err (config "the driver requires credentialsSecretRef"))
    else no_secret (f.build text none)

abbrev validated :
    (String → Result (Option Secret) DriverError) → DriverFactory → PowerInterface → Built
validated get f pi = elim (f.validate pi.config) [
  | some e ↦ no_secret (err e)
  | none ↦ with_credentials get f pi.config pi.credentials_secret_ref
]

abbrev from_factory :
    (String → Result (Option Secret) DriverError)
    → Result DriverFactory DriverError
    → PowerInterface
    → Built
from_factory get (err e) pi = no_secret (err e)
from_factory get (ok f) pi = validated get f pi

unfoldable pub build_driver :
    List DriverFactory → (String → Result (Option Secret) DriverError) → PowerInterface → Built
unfolding lookup_driver load_credentials
build_driver catalog get pi = from_factory get (lookup_driver catalog pi.driver) pi

abbrev is_slash : ℕ → Bool
is_slash c = c == b'/'

abbrev starts_with : Chars → Chars → Bool
starts_with p s = is_some (strip_prefix p s)

unfoldable pub base_url : Chars → Result Chars DriverError
base_url endpoint =
    let base = trim_end is_slash endpoint in
    if not (starts_with (codes "http://") base) && not (starts_with (codes "https://") base)
    then err (config "endpoint must be an http(s) URL")
    else ok base
