-- ===== src/Supervisor/Ports.antt =====
-- internal/supervisor/spawn.go: the host ports of pods.
pub mod Choice
pub mod Safe
use orchestration.Prelude.{
  ℕ, zero, suc, ◌+◌, ◌%◌, ◌≡◌, Bool, true, false, not, ◌&&◌, ◌||◌, Option, none, some, List, [],
  ◌∷◌, ◌++◌, ◌==◌, if◌then◌else◌, any,
}
use orchestration.Prelude.Int.{ℤ, pos, pos_part, ltb_ℤ, leb_ℤ, eq_ℤ}
use orchestration.Prelude.Text.{Str, str_eq}
use orchestration.Prelude.Decimal.{parse_int64}
use orchestration.Redis.{Redis, Hash}
use orchestration.Client.{
  Error, Result, no_port, Env, Client, pure, fail, try, handle, collect, observe, ◌>>=◌, ◌>>◌,
  hash_get, scan_keys,
}
use orchestration.Schema.Keys.{pod_key_pattern}
use orchestration.Schema.Fields.{field_pod_node_id, field_pod_host_port}
use orchestration.Schema.Codec.{text_at}
use orchestration.Supervisor.Machine.{Machine}

abbrev pub min_host_port : ℕ
min_host_port = 20000

abbrev pub max_host_port : ℕ
max_host_port = 60000

abbrev pub port_scan_limit : ℕ
port_scan_limit = 512

-- The port that a pod's hash claims on this node; Go's map holds each once.
abbrev claim_of : Str → Hash → List ℤ
claim_of node_id [] = []
claim_of node_id (f ∷ fields) =
    if str_eq (text_at (f ∷ fields) field_pod_node_id) node_id
    then elim (parse_int64 (text_at (f ∷ fields) field_pod_host_port)) [
      | none ↦ []
      | some port ↦ if ltb_ℤ (pos 0) port then port ∷ [] else []
    ]
    else []

-- minHostPort + i, for every i from a first one on.
abbrev scan_from : ℕ → ℕ → List ℤ
scan_from zero port = []
scan_from (suc n) port = pos port ∷ scan_from n (suc port)

unfoldable pub candidates : ℤ → List ℤ
candidates preferred =
    let scanned = scan_from port_scan_limit min_host_port in
    if leb_ℤ (pos min_host_port) preferred && leb_ℤ preferred (pos max_host_port)
    then preferred ∷ scanned
    else if ltb_ℤ (pos 0) preferred
    then pos (min_host_port + pos_part preferred % 1000) ∷ scanned
    else scanned

-- A candidate that is refused before the kernel is asked.
abbrev pub passed_over : List ℤ → ℤ → Bool
passed_over claimed port =
    ltb_ℤ port (pos min_host_port) || (ltb_ℤ (pos max_host_port) port || any (eq_ℤ port) claimed)

module _ {r : Redis} (e : Env r) (os : Machine) where
  claim : Str → Str → Client r (List ℤ)
  claim node_id key = do
    fields ← try (hash_get e key)
    handle fields (λ h. pure (claim_of node_id h)) (λ _. pure [])

  unfoldable pub claimed_ports : Str → Client r (List ℤ)
  unfolding claim
  claimed_ports node_id = do keys ← scan_keys e pod_key_pattern; collect (claim node_id) keys

  unfoldable pub first_free : List ℤ → List ℤ → Client r ℤ
  first_free claimed [] = fail no_port
  first_free claimed (port ∷ ports) = do
    let others = first_free claimed ports
    (if passed_over claimed port
        then others
        else (do free ← observe (λ t. os.can_bind t port); if free then pure port else others))

  unfoldable pub allocate_host_port : Str → ℤ → Client r ℤ
  unfolding first_free candidates
  allocate_host_port node_id preferred = do
    claimed ← claimed_ports node_id
    first_free claimed (candidates preferred)
