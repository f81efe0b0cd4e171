-- ===== src/Api/Server/Answers.antt =====
-- internal/api/server.go: what creating a deployment answers.
use orchestration.Prelude.{
  ◌≡◌, refl, ◌⊎◌, inl, inr, Bool, none, some, List, [], ◌∷◌, ◌++◌, if◌then◌else◌, Option-cases,
  Option, ℕ, ◌∙◌,
}
use orchestration.Prelude.Text.{Str, codes}
use orchestration.Redis.{Redis}
use orchestration.Client.{
  Error, Result, ok, err, Env, World, pure, try, ◌>>=◌, report, handle, info, warn, Level, Fault,
  healthy, lost, unanswered, settle, call, publish,
}
use orchestration.Events.{DeploymentEvent, event_update, publish_event}
use orchestration.Schema.Codec.{DeploymentSpec}
use orchestration.Api.Validate.{DeploymentRequest, validate, trim_space}
use orchestration.Api.Validate.Accepts.{IsValid, validate_lem}
use orchestration.Api.Store.{apply, existed}
use orchestration.Api.Store.Applies.{Held, apply-Held}
use orchestration.Schema.Keys.{deployment_key}
use orchestration.Api.Store.Bounds.{InBounds, apply-InBounds}
use orchestration.Api.Server.{
  Response, respond, said, cause, problems_body, one_deployment, announce_spec, stored_answer,
  store_request, check_request, handle_create_deployment,
}

module _ {r : Redis} (e : Env r) where
  abbrev pub event_of : DeploymentSpec → DeploymentEvent
  event_of dep = record {
    event = event_update;
    deployment = dep.name;
    desired = dep.desired_replicas;
  }

  -- What is logged is nothing to the database.
  publish_event-log :
      (ev : DeploymentEvent) (w : World r) (lines : List (Level × Str))
      → (publish_event e ev (record w { log = lines })).1.db ≡ (publish_event e ev w).1.db
  unfolding publish_event publish call
  publish_event-log ev w lines = same (e.fault w.tick) _
    where
      same :
          (f : Fault) (x : Result (Unit {0}) × r.Db)
          → (settle f (record w { log = lines }) (e.others w.tick w.db) x).1.db
            ≡ (settle f w (e.others w.tick w.db) x).1.db
      same healthy x = refl
      same lost x = refl
      same unanswered x = refl

  -- Announcing a spec never fails, and is one publish to the database.
  announce_spec_lem :
      (dep : DeploymentSpec) (w : World r)
      → (v : World r) × (announce_spec e dep w ≡ (ok tt, v))
        × (v.db ≡ (publish_event e (event_of dep) w).1.db)
  unfolding announce_spec ◌>>=◌ try pure report
  announce_spec_lem dep w =
      told (publish_event e (event_of dep) w).0 (publish_event e (event_of dep) w).1
    where
      told :
          (x : Result (Unit {0})) (w' : World r)
          → (v : World r) × (handle x
                (λ _. pure tt)
                (λ _. report e warn (codes "event_publish_failed"))
                w'
              ≡ (ok tt, v))
            × (v.db ≡ w'.db)
      told (ok a) w' = (_, refl, refl)
      told (err c) w' = (_, refl, refl)

  stored_answer_lem :
      (dep : DeploymentSpec) (there : Bool) (w : World r)
      → (v : World r) × (stored_answer e (dep, there) w
          ≡ (ok (respond (if there then 200 else 201) (one_deployment dep)), v))
        × (v.db ≡ (publish_event e (event_of dep) w).1.db)
  unfolding stored_answer ◌>>=◌ report pure
  stored_answer_lem dep there w =
      let lines =
        w.log
        ++ (info, if there then codes "deployment_updated" else codes "deployment_created") ∷ [] in
      let (v, p, q) = announce_spec_lem dep (record w { log = lines }) in
      (v, rw p refl, q ∙ publish_event-log (event_of dep) w lines)

  -- The status, by the deployment that the hash held before.
  abbrev pub IsStatus : Option DeploymentSpec → ℕ → Type 0
  IsStatus none status = status ≡ 201
  IsStatus (some old) status = status ≡ 200

  IsStatus-existed :
      (old : Option DeploymentSpec) (there : Bool)
      → there ≡ existed old
      → IsStatus old (if there then 200 else 201)
  IsStatus-existed none there p = rw p refl
  IsStatus-existed (some old) there p = rw p refl

  -- A deployment was stored: what is answered, and what the database is then.
  pub record IsStored (req : DeploymentRequest) (w : World r) (x : Response) (w' : World r)
      : Type 0 where
    pub dep : DeploymentSpec
    pub there : Bool
    pub old : Option DeploymentSpec
    pub applied : (apply e req w).0 ≡ ok (dep, there)
    pub held : Held (r.hgetall (e.others w.tick w.db) (deployment_key (trim_space req.name))) old
    pub bounds : InBounds dep
    pub status : IsStatus old x.status
    pub body : x.body ≡ one_deployment dep
    pub announced : w'.db ≡ (publish_event e (event_of dep) (apply e req w).1).1.db

  -- What the handler answers to a decoded body, and where it leaves the world.
  abbrev pub IsCreateAnswer : Result DeploymentRequest → World r → Response → World r → Type 0
  IsCreateAnswer (err c) w x w' = (x ≡ respond 400 (cause c)) × (w' ≡ w)
  IsCreateAnswer (ok req) w x w' =
      ((problems : List Str) × (x ≡ respond 400 (problems_body problems))
        × (¬ IsValid req)
        × (w' ≡ w))
      ⊎ (IsValid req × IsStored req w x w')
      ⊎ (IsValid req
          × ((c : Error) × ((apply e req w).0 ≡ err c)
              × (x.status ≡ 500)
              × (w'.db ≡ (apply e req w).1.db)))

  store_request_lem :
      (req : DeploymentRequest) (w : World r)
      → IsValid req
      → (x : Response) × ((store_request e req w).0 ≡ ok x)
        × IsCreateAnswer (ok req) w x (store_request e req w).1
  unfolding store_request ◌>>=◌ try report pure
  store_request_lem req w v = answered (apply e req w).0 refl
    where
      answered :
          (a : Result (DeploymentSpec × Bool))
          → (apply e req w).0 ≡ a
          → (x : Response) × ((store_request e req w).0 ≡ ok x)
            × IsCreateAnswer (ok req) w x (store_request e req w).1
      answered (ok (dep, there)) p =
          let (u, q, k) = stored_answer_lem dep there (apply e req w).1 in
          let (old, held, same) = apply-Held e req dep there w p in
          (
            respond (if there then 200 else 201) (one_deployment dep),
            rw (p, q) refl,
            inr (
                inl (
                  v,
                  record {
                    dep = dep;
                    there = there;
                    old = old;
                    applied = p;
                    held = held;
                    bounds = ((apply-InBounds e req v).at w (dep, there) p).0;
                    status = IsStatus-existed old there same;
                    body = refl;
                    announced = rw (p, q) k;
                  },
                )),
          )
      answered (err c) p = (
        respond 500 (said (codes "could not store deployment")),
        rw p refl,
        inr (inr (v, (c, p, refl, rw p refl))),
      )

  -- Whatever fails, creating a deployment answers. A body that does not decode, and a request that is
  -- not valid, get 400 and change nothing. For a valid one the status is 500 exactly when Apply
  -- failed, and the database is as Apply left it. When Apply returned, the status is 201 if the hash
  -- that Apply had read spelled no deployment and 200 if it spelled one, the body is the spec that
  -- Apply returned, whose desired count is within its bounds, and after Apply the handler has done
  -- nothing to the database but to publish one update event, of that spec's name and count.
  pub handle_create_deployment_lem :
      (decoded : Result DeploymentRequest) (w : World r)
      → (x : Response) × ((handle_create_deployment e decoded w).0 ≡ ok x)
        × IsCreateAnswer decoded w x (handle_create_deployment e decoded w).1
  unfolding handle_create_deployment check_request pure
  handle_create_deployment_lem (err c) w = (respond 400 (cause c), refl, (refl, refl))
  handle_create_deployment_lem (ok req) w = elim (Option-cases (validate req)) [
    | inl none_wrong ↦ rw none_wrong (store_request_lem req w ((validate_lem req).0 none_wrong))
    | inr (problems, p) ↦ rw p (
      respond 400 (problems_body problems),
      refl,
      inl (problems, refl, (λ v. clash problems p ((validate_lem req).1 v)), refl),
    )
  ]
    where
      clash : (problems : List Str) → validate req ≡ some problems → validate req ≡ none → ⊥
      clash problems p q = cc
