-- ===== src/Events.antt =====
-- internal/events/events.go: change notifications. Delivery is the server's business.
use orchestration.Prelude.{◌++◌}
use orchestration.Prelude.Int.{ℤ}
use orchestration.Prelude.Text.{Str, codes}
use orchestration.Prelude.Decimal.{format_int}
use orchestration.Redis.{Redis}
use orchestration.Client
use orchestration.Client.{Env, Client}
use orchestration.Schema.Keys.{deployment_events_channel}
use orchestration.Supervisor.Commands.{json_string}

abbrev pub event_update : Str
event_update = codes "UPDATE"

abbrev pub event_deleted : Str
event_deleted = codes "DELETE"

pub record DeploymentEvent : Type 0 where
  pub event : Str
  pub deployment : Str
  pub desired : ℤ

-- json.Marshal of the event; it does not fail on these fields.
unfoldable pub encode_event : DeploymentEvent → Str
encode_event ev =
    codes "{\"event\":"
    ++ (json_string ev.event
        ++ (codes ",\"deployment\":"
            ++ (json_string ev.deployment
                ++ (codes ",\"desired\":" ++ (format_int ev.desired ++ codes "}")))))

unfoldable pub publish_event : {r : Redis} → Env r → DeploymentEvent → Client r Unit
publish_event e ev = Client.publish e deployment_events_channel (encode_event ev)
