-- ===== src/Drivers/Catalog/Tests.antt =====
-- Building a driver from a catalog of one (src/drivers/mod.rs).
use kube_hardware_autoscaler.Base.{◌≡◌, refl, String, true, Option, none, some, [], ◌∷◌, inl, Among}
use kube_hardware_autoscaler.Crd.Texts.{DriverError}
use kube_hardware_autoscaler.Drivers.Driver.{Result, ok}
use kube_hardware_autoscaler.Drivers.Catalog.{
  Secret, DriverFactory, PowerInterface, build_driver, lookup_driver, load_credentials,
}
use kube_hardware_autoscaler.Drivers.Catalog.Secrets.{Wanted, build_driver-Wanted}
use kube_hardware_autoscaler.Samples.{good_driver}

abbrev factory : DriverFactory
factory = record {
  name = "ipmi";
  requires_credentials = true;
  validate = λ c. none;
  build = λ c credentials. ok good_driver;
}

abbrev interface : PowerInterface
interface = record {
  driver = "ipmi";
  config = "{}";
  credentials_secret_ref =
      some (record { name = "bmc"; username_key = "username"; password_key = "password" });
}

abbrev secrets : String → Result (Option Secret) DriverError
secrets name = ok (some (record { bytes = ("username", some "admin") ∷ []; string_data = [] }))

asks_for_it : (build_driver (factory ∷ []) secrets interface).secrets ≡ "bmc" ∷ []
unfolding build_driver lookup_driver load_credentials
asks_for_it = refl

asked : Among "bmc" (build_driver (factory ∷ []) secrets interface).secrets
unfolding build_driver lookup_driver load_credentials
asked = inl refl

build_driver-Wanted_example : Wanted (factory ∷ []) interface "bmc"
build_driver-Wanted_example = build_driver-Wanted (factory ∷ []) secrets interface "bmc" asked
