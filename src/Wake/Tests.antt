-- ===== src/Wake/Tests.antt =====
-- Runs of the MAC parser and of the packet (src/wake.rs).
use kube_hardware_autoscaler.Base.{ℕ, ◌≡◌, refl, some, List, [], ◌∷◌, arith}
use kube_hardware_autoscaler.Wake.{parse_mac}
use kube_hardware_autoscaler.Wake.Packet.{mac_text, parse_mac-mac_text}

abbrev mac : List ℕ
mac = 170 ∷ (187 ∷ (204 ∷ (221 ∷ (238 ∷ (255 ∷ [])))))

parse_mac-mac_text_example : parse_mac (mac_text b':' mac) ≡ some mac
parse_mac-mac_text_example = parse_mac-mac_text b':' mac refl (omega arith)

-- `+1:11:22:33:44:55`: a plus sign counts as a digit's sign.
plus_accepted :
    parse_mac (b'+' ∷ (b'1' ∷ (b':' ∷ mac_text b':' (17 ∷ (34 ∷ (51 ∷ (68 ∷ (85 ∷ []))))))))
    ≡ some (1 ∷ (17 ∷ (34 ∷ (51 ∷ (68 ∷ (85 ∷ []))))))
unfolding parse_mac
plus_accepted = refl
