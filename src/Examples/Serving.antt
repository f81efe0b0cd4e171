-- ===== src/Examples/Serving.antt =====
-- The API on the small cluster.
use orchestration.Prelude.{
  ℕ, ◌≡◌, ◌^◌, ◌<◌, ◌==◌, refl, inl, inr, true, false, some, none, List, [], ◌∷◌, map, take,
  if◌then◌else◌, arith,
}
use orchestration.Prelude.Int.{pos}
use orchestration.Prelude.Text.{codes}
use orchestration.Redis.{Redis}
use orchestration.Redis.Memory.{memory}
use orchestration.Client.{ok, healthy, lost, Env, World}
use orchestration.Client.Returns.{Returns}
use orchestration.Api.Validate.{DeploymentRequest}
use orchestration.Api.Views.{snapshot}
use orchestration.Api.Views.Consistent.{IsConsistent, snapshot-IsConsistent}
use orchestration.Api.Logs.{Frame, handle_events}
use orchestration.Api.Logs.Frames.{Stamped, raw, IsIncreasing}
use orchestration.Api.Logs.Order.{IsStream, line_of}
use orchestration.Api.Logs.Sent.{lines_of, handle_events_lem}
use orchestration.Api.Server.{Response, handle_create_deployment}
use orchestration.Api.Server.Answers.{IsCreateAnswer, handle_create_deployment_lem}
use orchestration.Examples.{quiet, start, cluster}

snapshot-IsConsistent_example : Returns IsConsistent (snapshot quiet)
snapshot-IsConsistent_example = snapshot-IsConsistent quiet

abbrev web_request : DeploymentRequest
web_request = record {
  name = codes "web";
  min_replicas = some (pos 1);
  max_replicas = some (pos 5);
  target_cpu_percent = some (pos 50);
  cpu_request = some (pos 300);
  mem_request = some (pos 128);
  exec_path = codes "/bin/web";
  port = some (pos 8080);
}

handle_create_deployment_lem_example :
    (x : Response) × ((handle_create_deployment quiet (ok web_request) (start cluster)).0 ≡ ok x)
    × IsCreateAnswer quiet
        (ok web_request)
        (start cluster)
        x
        (handle_create_deployment quiet (ok web_request) (start cluster)).1
handle_create_deployment_lem_example =
    handle_create_deployment_lem quiet (ok web_request) (start cluster)

abbrev line : ℕ → ℕ → Stamped
line ms seq = ((ms, seq), (codes "message", codes "x") ∷ [])

-- The log, newest entry first.
abbrev lines : List Stamped
lines = line 11 0 ∷ line 10 1 ∷ line 10 0 ∷ line 9 0 ∷ []

-- A server with that log.
abbrev server : Redis
server = record memory { xrevrange = λ db key count. map raw (take count lines) }

-- The first call is lost.
abbrev hasty : Env server
hasty = record {
  fault = λ t. if t == 0 then lost else healthy;
  others = λ t db. db;
  unix = λ t. pos 1700000000;
  random = λ t. none;
  cancelled = λ t. false;
  pages = 5;
}

abbrev opened : World server
opened = record { db = cluster; tick = 0; log = []; acts = [] }

lines-IsStream : IsStream lines
lines-IsStream =
    let sooner : (9 < 10) × (9 < 11) × (10 < 11) × (0 < 1) = omega arith in
    let small : (11 < 2 ^ 64) × (10 < 2 ^ 64) × (9 < 2 ^ 64) × (1 < 2 ^ 64) × (0 < 2 ^ 64) =
      omega arith in
    (
      (small.0, small.4),
      (inl sooner.2, (inl sooner.2, (inl sooner.1, tt))),
      (
        (small.1, small.3),
        (inr (refl, sooner.3), (inl sooner.0, tt)),
        ((small.1, small.4), (inl sooner.0, tt), ((small.2, small.4), tt, tt)),
      ),
    )

handle_events_lem_example :
    (frames : List Frame) × ((handle_events hasty (λ t. true) 2 opened).0 ≡ ok frames)
    × ((sent : List Stamped) × (lines_of frames ≡ map line_of sent) × IsIncreasing sent)
handle_events_lem_example =
    handle_events_lem hasty (λ t. true) (λ db. lines) (λ db count. refl) (λ n db h. (h, inl refl)) 2
      opened lines-IsStream
