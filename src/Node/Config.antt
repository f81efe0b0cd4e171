-- ===== src/Node/Config.antt =====
-- internal/node/node.go: the checks of NewRegistrar.
use orchestration.Prelude.{ℕ, ◌≡◌, ◌*◌, ◌^◌, ◌<◌, ◌↔◌, arith}
use orchestration.Prelude.Int.{pos, ◌<ℤ◌, ◌*ℤ◌, mul64, wrap_lem}
use orchestration.Client.{ok}
use orchestration.Node.{Registrar, new_registrar}

twice : (d : ℕ) → pos d *ℤ pos 2 ≡ pos (d * 2)
unfolding ◌*ℤ◌
twice d = ground arith

doubled : (d : ℕ) → d < 2 ^ 62 → mul64 (pos d) (pos 2) ≡ pos (d * 2)
doubled d h = rw (twice d) (wrap_lem (pos (d * 2)) (omega arith, omega arith))

-- For an interval below 2^62 nanoseconds, a registrar is accepted exactly when both durations are
-- positive, the lease outlives two heartbeats, and the node offers some CPU and some memory.
pub new_registrar_lem :
    (cfg : Registrar) (interval : ℕ)
    → cfg.heartbeat_interval ≡ pos interval
    → interval < 2 ^ 62
    → (new_registrar cfg ≡ ok cfg) ↔ (
        (0 < interval)
        × (pos (interval * 2) <ℤ cfg.lease_ttl)
        × (pos 0 <ℤ cfg.total_cpu)
        × (pos 0 <ℤ cfg.total_mem))
unfolding new_registrar
new_registrar_lem cfg interval p h = rw (p, doubled interval h) (ground arith)
