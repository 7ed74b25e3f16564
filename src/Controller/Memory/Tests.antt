-- ===== src/Controller/Memory/Tests.antt =====
-- Runs of the identity cache (src/controller/mod.rs).
use kube_hardware_autoscaler.Base.{◌≡◌, none, some, []}
use kube_hardware_autoscaler.Controller.Memory.{IdentityKey, get, put}
use kube_hardware_autoscaler.Controller.Memory.Laws.{get-put}

abbrev key : IdentityKey
key = record { name = "m1"; generation = 3 }

abbrev newer : IdentityKey
newer = record { name = "m1"; generation = 4 }

same_generation : get 500 key (put 0 key [] []) ≡ some []
same_generation = get-put 500 0 key key [] []

another_generation : get 500 newer (put 0 key [] []) ≡ none
another_generation = get-put 500 0 newer key [] []
