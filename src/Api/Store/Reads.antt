-- ===== src/Api/Store/Reads.antt =====
-- internal/api/store.go: Get and List write nothing.
use orchestration.Prelude.{Option, none, some, List, [], ◌∷◌}
use orchestration.Prelude.Text.{Str}
use orchestration.Redis.{Redis}
use orchestration.Client.{Env, Client, pure}
use orchestration.Client.Keeps.{
  Keeps, Stable, flow_rules, Keeps-hash_get, Keeps-scan_keys, Keeps-bind, Keeps-pure, Keeps-try,
  Keeps-handle,
}
use orchestration.Schema.Codec.{DeploymentSpec}
use orchestration.Api.Store.{get, list, listed, usable}

module _ {r : Redis} {P : r.Db → Type 0} (e : Env r) (st : Stable e P) where
  pub Keeps-get : (name : Str) → Keeps P (get e name)
  unfolding get
  Keeps-get name = search (flow_rules, Keeps-hash_get e st)

  Keeps-listed : (key : Str) → Keeps P (listed e key)
  unfolding listed
  Keeps-listed key =
      Keeps-bind _ _ (Keeps-try _ (Keeps-get _))
        λ found. Keeps-handle found _ _ (λ read _. taken (usable read)) (λ _. Keeps-pure [])
    where
      taken :
          (o : Option DeploymentSpec)
          → Keeps P (elim o as (λ _. Client r (List DeploymentSpec)) [
            | none ↦ pure []
            | some dep ↦ pure (dep ∷ [])
          ])
      taken none = Keeps-pure []
      taken (some dep) = Keeps-pure (dep ∷ [])

  pub Keeps-list : Keeps P (list e)
  unfolding list
  Keeps-list = search (flow_rules, Keeps-scan_keys e st, Keeps-listed)
