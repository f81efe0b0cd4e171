-- ===== src/Supervisor/Commands.antt =====
-- internal/supervisor/commands.go: the envelope of a command and how it is queued.
use orchestration.Prelude.{ℕ, ◌+◌, ◌/◌, ◌%◌, ◌||◌, [], ◌∷◌, ◌++◌, ltb, ◌==◌, if◌then◌else◌}
use orchestration.Prelude.Text.{Str, codes}
use orchestration.Redis.{Redis}
use orchestration.Client.{Env, Client, list_push}
use orchestration.Schema.Keys.{node_commands_key}

abbrev pub command_start_pod : Str
command_start_pod = codes "start-pod"

abbrev pub command_stop_pod : Str
command_stop_pod = codes "stop-pod"

pub record Command : Type 0 where
  pub type : Str
  pub deployment : Str
  pub pod_id : Str

abbrev hex_digit : ℕ → ℕ
hex_digit n = if ltb n 10 then b'0' + n else 87 + n

-- One byte of an ASCII text inside a JSON string, as encoding/json writes it.
unfoldable pub json_byte : ℕ → Str
json_byte c =
    if c == b'"'
    then codes "\\\""
    else if c == 92
    then 92 ∷ 92 ∷ []
    else if c == 10
    then codes "\\n"
    else if c == 13
    then codes "\\r"
    else if c == 9
    then codes "\\t"
    else if c == 8
    then codes "\\b"
    else if c == 12
    then codes "\\f"
    else if ltb c 32 || (c == b'<' || (c == b'>' || c == b'&'))
    then codes "\\u00" ++ (hex_digit (c / 16) ∷ hex_digit (c % 16) ∷ [])
    else c ∷ []

json_body : Str → Str
unfolding json_byte
json_body [] = b'"' ∷ []
json_body (c ∷ s) = json_byte c ++ json_body s

unfoldable pub json_string : Str → Str
unfolding json_body
json_string s = b'"' ∷ json_body s

-- json.Marshal of the envelope; it does not fail on strings.
unfoldable pub encode_command : Command → Str
unfolding json_string
encode_command cmd =
    codes "{\"type\":"
    ++ (json_string cmd.type
        ++ (codes ",\"deployment\":"
            ++ (json_string cmd.deployment
                ++ (codes ",\"pod_id\":" ++ (json_string cmd.pod_id ++ codes "}")))))

unfoldable pub send_command : {r : Redis} → Env r → Str → Command → Client r Unit
send_command e node_id cmd = list_push e (node_commands_key node_id) (encode_command cmd)
