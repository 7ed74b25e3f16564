-- ===== src/Identity/Tests.antt =====
-- A machine whose interface prints its GUID in the byte order of SMBIOS (src/identity.rs).
use kube_hardware_autoscaler.Base.{ℕ, true, ◌≡◌, refl, arith, some, false, List, [], ◌∷◌}
use kube_hardware_autoscaler.Base.Texts.{codes}
use kube_hardware_autoscaler.Identity.{raw_guid, hex, check, match, is_placeholder}
use kube_hardware_autoscaler.Identity.Encodings.{Guid, fields, reorder, uuid_text, check-reorder}

abbrev guid : List ℕ
guid = 68 ∷ 69 ∷ 76 ∷ 76 ∷ 77 ∷ 0 ∷ 16 ∷ 83 ∷ 128 ∷ 68 ∷ 180 ∷ 192 ∷ 79 ∷ 88 ∷ 77 ∷ 50 ∷ []

guid-Guid : Guid guid
guid-Guid = ground arith

guid_real : is_placeholder (hex (reorder fields guid)) ≡ false
unfolding is_placeholder
guid_real = refl

check-reorder_example :
    check (some (raw_guid guid)) (some (uuid_text true (reorder fields guid))) ≡ match
check-reorder_example = check-reorder true fields guid guid-Guid guid_real

-- The text that the example is about.
guid_text : uuid_text true (reorder fields guid) ≡ codes "4C4C4544-004D-5310-8044-B4C04F584D32"
guid_text = refl
