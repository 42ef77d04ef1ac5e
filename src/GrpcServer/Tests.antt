-- ===== src/GrpcServer/Tests.antt =====
-- A server over the memory registry, at concrete inputs.
use service_forge.Prelude.{true, false, none, some, ◌≡◌, refl, lookup}
use service_forge.Bus.{new_registry}
use service_forge.GrpcServer.{init, start, stop, health, instance_of}
use service_forge.GrpcServer.Registered.{memory_registrar, id_of, stop-start}

stop-start_example :
    let (e, m, r') = start "u-1" none (init "users" "" 0 (some memory_registrar)) new_registry in
    (e ≡ none)
    × (health m ≡ none)
    × (m.serving ≡ true)
    × (lookup (id_of "users" "u-1") r'.services ≡ some (instance_of m (id_of "users" "u-1")))
    × ((stop m r').1 ≡ new_registry)
    × ((stop m r').0.serving ≡ false)
unfolding lookup
stop-start_example = stop-start "users" "" "u-1" 0 new_registry refl
