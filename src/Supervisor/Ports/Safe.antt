-- ===== src/Supervisor/Ports/Safe.antt =====
-- internal/supervisor/spawn.go: the choice of a port writes nothing.
use orchestration.Prelude.{List, [], ◌∷◌}
use orchestration.Prelude.Int.{ℤ}
use orchestration.Prelude.Text.{Str}
use orchestration.Redis.{Redis}
use orchestration.Client.{Env}
use orchestration.Client.Keeps.{
  Keeps, Stable, flow_rules, env_rules, Keeps-hash_get, Keeps-scan_keys,
}
use orchestration.Supervisor.Machine.{Machine}
use orchestration.Supervisor.Ports.{claim, claimed_ports, first_free, allocate_host_port}

module _ {r : Redis} {P : r.Db → Type 0} (e : Env r) (st : Stable e P) (os : Machine) where
  claim-Keeps : (node_id key : Str) → Keeps P (claim e os node_id key)
  unfolding claim
  claim-Keeps node_id key = search (flow_rules, Keeps-hash_get e st)

  claimed_ports-Keeps : (node_id : Str) → Keeps P (claimed_ports e os node_id)
  unfolding claimed_ports
  claimed_ports-Keeps node_id = search (flow_rules, Keeps-scan_keys e st, claim-Keeps)

  first_free_step :
      (claimed : List ℤ) (port : ℤ) (ports : List ℤ)
      → Keeps P (first_free e os claimed ports)
      → Keeps P (first_free e os claimed (port ∷ ports))
  unfolding first_free
  first_free_step claimed port ports rest = search (flow_rules, env_rules)

  first_free-Keeps : (claimed ports : List ℤ) → Keeps P (first_free e os claimed ports)
  unfolding first_free
  first_free-Keeps claimed [] = search flow_rules
  first_free-Keeps claimed (port ∷ ports) =
      first_free_step claimed port ports (first_free-Keeps claimed ports)

  pub allocate_host_port-Keeps :
      (node_id : Str) (preferred : ℤ) → Keeps P (allocate_host_port e os node_id preferred)
  unfolding allocate_host_port
  allocate_host_port-Keeps node_id preferred =
      search (flow_rules, claimed_ports-Keeps, first_free-Keeps)
