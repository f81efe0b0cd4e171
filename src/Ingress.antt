-- ===== src/Ingress.antt =====
-- internal/ingress/ingress.go: the Nginx upstreams of the pods that serve.
pub mod Enter
pub mod Canonical
pub mod Installed
pub mod Loop
pub mod Order
use orchestration.Prelude.{
  ℕ, ◌≡◌, refl, Bool, true, false, not, ◌||◌, Option, none, some, List, [], ◌∷◌, ◌++◌, map, ◌*◌,
  ◌^◌, ◌==◌, if◌then◌else◌,
}
use orchestration.Prelude.Int.{ℤ, pos, ltb_ℤ, leb_ℤ}
use orchestration.Prelude.Text.{Str, codes, str_eq, str_lt}
use orchestration.Prelude.Decimal.{format_int}
use orchestration.Prelude.Sort.{sort_by}
use orchestration.Redis.{Redis, Hash}
use orchestration.Client.{
  Result, ok, err, not_written, reload_failed, timed_out, panicked, info, warn, error, installed,
  ran, Env, Client, pure, fail, try, handle, ◌>>=◌, ◌>>◌, hash_get, scan_keys, cancelled, observe,
  act, report,
}
use orchestration.Schema.Keys.{pod_key_pattern}
use orchestration.Schema.Fields.{status_running}
use orchestration.Schema.Codec.{PodSpec, map_to_pod}

-- Durations are in nanoseconds.
pub record Config : Type 0 where
  pub config_path : Str
  pub reload_command : List Str
  pub debounce : ℤ
  pub resync_interval : ℤ

abbrev or_default : ℤ → ℤ → ℤ
or_default z def = if leb_ℤ z (pos 0) then def else z

abbrev or_path : Str → Str → Str
or_path [] def = def
or_path (c ∷ s) def = c ∷ s

abbrev or_command : List Str → List Str → List Str
or_command [] def = def
or_command (c ∷ s) def = c ∷ s

-- New's defaults for what is unset.
unfoldable pub new_config_of : Config → Config
new_config_of cfg = record {
  config_path = or_path cfg.config_path (codes "/tmp/mini-k8s-upstreams.conf");
  reload_command = or_command cfg.reload_command (codes "nginx" ∷ codes "-s" ∷ codes "reload" ∷ []);
  debounce = or_default cfg.debounce (pos (2 * 10 ^ 9));
  resync_interval = or_default cfg.resync_interval (pos (30 * 10 ^ 9));
}

-- The host ports of each deployment's pods: a Go map, its entries in order of first appearance.
abbrev pub Backends : Type 0
Backends = List (Str × List ℤ)

-- backends[name] = append(backends[name], port)
unfoldable pub add_port : Str → ℤ → Backends → Backends
add_port name port [] = (name, port ∷ []) ∷ []
add_port name port ((n, ports) ∷ b) =
    if str_eq n name then (n, ports ++ port ∷ []) ∷ b else (n, ports) ∷ add_port name port b

-- The pod that a hash holds, where it can be sent traffic.
unfoldable pub serving : Hash → Option PodSpec
serving [] = none
serving (f ∷ fields) = elim (map_to_pod (f ∷ fields)) [
  | err _ ↦ none
  | ok pod ↦
      if str_eq pod.deployment []
        || (not (str_eq pod.status status_running) || leb_ℤ pod.host_port (pos 0))
      then none
      else some pod
]

unfoldable pub with_pod : Option PodSpec → Backends → Backends
unfolding add_port
with_pod none b = b
with_pod (some pod) b = add_port pod.deployment pod.host_port b

-- sort.Ints for every deployment
unfoldable pub sort_ports : Backends → Backends
sort_ports [] = []
sort_ports ((n, ports) ∷ b) = (n, sort_by ltb_ℤ ports) ∷ sort_ports b

-- strings.ReplaceAll(s, "-", "_")
unfoldable pub replace_dashes : Str → Str
replace_dashes [] = []
replace_dashes (c ∷ s) = (if c == b'-' then b'_' else c) ∷ replace_dashes s

unfoldable pub upstream_name : Str → Str
unfolding replace_dashes
upstream_name deployment = codes "minik8s_" ++ replace_dashes deployment

abbrev pub names : Backends → List Str
names [] = []
names ((n, ports) ∷ b) = n ∷ names b

-- backends[name]
unfoldable pub ports_of : Str → Backends → List ℤ
ports_of name [] = []
ports_of name ((n, ports) ∷ b) = if str_eq n name then ports else ports_of name b

server_lines : List ℤ → Str
server_lines [] = []
server_lines (port ∷ ports) =
    codes "    server 127.0.0.1:"
    ++ (format_int port ++ (codes " max_fails=2 fail_timeout=5s;\n" ++ server_lines ports))

-- An upstream without servers is left out: Nginx refuses it.
unfoldable pub upstream_block : Str → List ℤ → Str
unfolding server_lines
upstream_block name [] = []
upstream_block name (port ∷ ports) =
    codes "\nupstream "
    ++ (upstream_name name ++ (codes " {\n" ++ (server_lines (port ∷ ports) ++ codes "}\n")))

unfoldable pub location_block : Str → List ℤ → Str
location_block name [] = []
location_block name (port ∷ ports) =
    codes "\nlocation /"
    ++ (name
        ++ (codes "/ {\n    proxy_pass http://"
            ++ (upstream_name name
                ++ codes
                    "/;\n    proxy_set_header Host $host;\n    proxy_next_upstream error timeout http_502 http_503;\n}\n")))

-- One of the two loops of Render, over the sorted names.
unfoldable pub blocks : (Str → List ℤ → Str) → Backends → List Str → Str
unfolding ports_of
blocks block b [] = []
blocks block b (name ∷ rest) = block name (ports_of name b) ++ blocks block b rest

unfoldable pub render : Backends → Str
render b =
    let sorted = sort_by str_lt (names b) in
    codes "# Generated by mini-k8s. Do not edit: rewritten on every change.\n"
    ++ (blocks upstream_block b sorted ++ blocks location_block b sorted)

pub data Outcome : Type 0 where
  succeeded failed overdue : Outcome

-- The controller's machine, at each tick: whether each system call of a write succeeds, whether a
-- command is installed, and how a run of it ends.
pub record Host : Type 0 where
  pub can_create : ℕ → Bool
  pub can_write : ℕ → Bool
  pub can_close : ℕ → Bool
  pub can_chmod : ℕ → Bool
  pub can_rename : ℕ → Bool
  pub has_command : ℕ → Str → Bool
  pub run : ℕ → List Str → Outcome

module _ {r : Redis} (e : Env r) where
  -- A pod that cannot be read is passed over.
  read_backends : List Str → Backends → Client r Backends
  unfolding with_pod serving
  read_backends [] b = pure b
  read_backends (key ∷ keys) b = do
    fields ← try (hash_get e key)
    read_backends keys (handle fields (λ h. with_pod (serving h) b) (λ _. b))

  unfoldable pub backends : Client r Backends
  unfolding read_backends
  backends = do keys ← scan_keys e pod_key_pattern; b ← read_backends keys []; pure (sort_ports b)

module _ {r : Redis} (e : Env r) (host : Host) (cfg : Config) where
  -- One system call, whose failure ends the write.
  must : (ℕ → Bool) → Client r Unit
  must can = do done ← observe can; (if done then pure tt else fail not_written)

  -- The rename puts the whole text in place at once; the temporary file is not modelled.
  unfoldable pub write : Str → Client r Unit
  unfolding must
  write text = do
    must host.can_create
    must host.can_write
    must host.can_close
    must host.can_chmod
    must host.can_rename
    act (installed cfg.config_path text)

  after_reload : Outcome → Client r Unit
  after_reload succeeded = report e info (codes "ingress_reloaded")
  after_reload failed = fail reload_failed
  after_reload overdue = fail timed_out

  -- A command that is not installed is no error.
  reload_by : List Str → Client r Unit
  unfolding after_reload
  reload_by [] = fail panicked
  reload_by (bin ∷ args) = do
    found ← observe (λ t. host.has_command t bin)
    (if found
        then (do
          outcome ← observe (λ t. host.run t (bin ∷ args))
          act (ran (bin ∷ args))
          after_reload outcome)
        else report e warn (codes "ingress_reload_unavailable"))

  unfoldable pub reload : Client r Unit
  unfolding reload_by
  reload = reload_by cfg.reload_command

  -- What Sync does with the text, and the text last written afterwards.
  install : Str → Str → Client r (Str × Result Unit)
  install last text = if str_eq text last then pure (last, ok tt) else (do
    written ← try (write text)
    handle written
        (λ _. do
          report e info (codes "ingress_config_written")
          loaded ← try reload
          pure (text, loaded))
        (λ cause. pure (last, err cause)))

  -- The field lastWritten goes in and comes out beside the outcome.
  unfoldable pub sync : Str → Client r (Str × Result Unit)
  unfolding install
  sync last = do
    found ← try (backends e)
    handle found (λ b. install last (render b)) (λ cause. pure (last, err cause))
