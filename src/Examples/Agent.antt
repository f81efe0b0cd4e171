-- ===== src/Examples/Agent.antt =====
-- The agent of the node of the small cluster.
use orchestration.Prelude.{
  ℕ, ◌+◌, ◌*◌, ◌%◌, ◌^◌, ◌<◌, ◌≡◌, refl, true, false, ◌||◌, if◌then◌else◌, some, List, [], ◌∷◌,
  ◌++◌, ◌↔◌, All, arith,
}
use Prim.Native.Nat.{min}
use orchestration.Prelude.Int.{pos, ◌<ℤ◌, ◌+ℤ◌, ltb_ℤ}
use orchestration.Prelude.Text.{Str, codes, contains, str_eq}
use orchestration.Prelude.Decimal.{format_int, format_nat, scan_int, all_digits, parse_int64}
use orchestration.Redis.Memory.{memory, memory-laws}
use orchestration.Client.{ok, World}
use orchestration.Schema.Keys.{pod_key, node_capacity_key}
use orchestration.Schema.Codec.{
  PodSpec, pod_to_map, map_to_pod, node_capacity_to_map, atoi, atoi_default, parse_uint,
}
use orchestration.Node.{Registrar, new_registrar}
use orchestration.Node.Config.{new_registrar_lem}
use orchestration.Supervisor.Machine.{Machine}
use orchestration.Supervisor.Process.{start_time}
use orchestration.Supervisor.Process.Stat.{IsWord, start_time_lem, unwords}
use orchestration.Supervisor.Telemetry.{cpu_ticks}
use orchestration.Supervisor.Telemetry.Ticks.{cpu_ticks_lem}
use orchestration.Client.Keeps.{Keeps}
use orchestration.Capacity.Sane.{IsSane}
use orchestration.Supervisor.Commands.{command_stop_pod}
use orchestration.Supervisor.Consumer.{handle_command}
use orchestration.Supervisor.Consumer.Safe.{handle_command-Keeps}
use orchestration.Supervisor.Spawn.{spawn}
use orchestration.Supervisor.Spawn.Once.{IsRunning, spawn-IsRunning}
use orchestration.Client.Acts.{Only}
use orchestration.Supervisor.Reconcile.{kill_orphans}
use orchestration.Supervisor.Reconcile.Orphans.{ToOrphan, kill_orphans-Only}
use orchestration.Supervisor.Health.{HealthConfig, backoff_for, check_pod, restart}
use orchestration.Supervisor.Health.Restarts.{wait_of, check_pod_lem}
use orchestration.Supervisor.Health.Backoff.{backoff_for_lem}
use orchestration.Examples.{quiet, quiet-sane, start, web_pod, cluster, stat_line, laptop}

abbrev plain_config : HealthConfig
plain_config = record {
  interval = pos (5 * 10 ^ 9);
  failure_threshold = pos 3;
  backoff_base = pos (10 ^ 9);
  backoff_max = pos (30 * 10 ^ 9);
}

backoff_for_lem_example :
    backoff_for (pos 7) plain_config ≡ pos (min (10 ^ 9 * 2 ^ 7) (30 * 10 ^ 9))
backoff_for_lem_example =
    backoff_for_lem plain_config 7 (10 ^ 9) (30 * 10 ^ 9) refl refl (omega arith) (omega arith)
      (omega arith)

abbrev registrar : Registrar
registrar = record {
  node_id = codes "n1";
  total_cpu = pos 1000;
  total_mem = pos 512;
  heartbeat_interval = pos (3 * 10 ^ 9);
  lease_ttl = pos (10 * 10 ^ 9);
}

new_registrar_lem_example : (new_registrar registrar ≡ ok registrar) ↔ (
    (0 < 3 * 10 ^ 9)
    × (pos (3 * 10 ^ 9 * 2) <ℤ pos (10 * 10 ^ 9))
    × (pos 0 <ℤ pos 1000)
    × (pos 0 <ℤ pos 512))
new_registrar_lem_example = new_registrar_lem registrar (3 * 10 ^ 9) refl (omega arith)

abbrev spaced : List Str → List (Str × ℕ)
spaced [] = []
spaced (word ∷ words) = (word, 32) ∷ spaced words

-- The fields of `stat_line` behind its command name.
abbrev stat_words : List (Str × ℕ)
stat_words = spaced (
    codes "S"
    ∷ codes "1"
    ∷ codes "2"
    ∷ codes "3"
    ∷ codes "4"
    ∷ codes "5"
    ∷ codes "6"
    ∷ codes "7"
    ∷ codes "8"
    ∷ codes "9"
    ∷ codes "10"
    ∷ codes "11"
    ∷ codes "12"
    ∷ codes "13"
    ∷ codes "14"
    ∷ codes "15"
    ∷ codes "16"
    ∷ codes "17"
    ∷ codes "18"
    ∷ codes "777"
    ∷ codes "20"
    ∷ [])

words_are_words : All IsWord stat_words
words_are_words =
    let w : (false ≡ false) × (true ≡ true) = (refl, refl) in
    (
      w,
      (
        w,
        (
          w,
          (
            w,
            (w, (w, (w, (w, (w, (w, (w, (w, (w, (w, (w, (w, (w, (w, (w, (w, (w, tt))))))))))))))))),
          ),
        ),
      ),
    )

no_close : contains b')' (unwords stat_words) ≡ false
unfolding contains
no_close = refl

stat_line_starts : start_time stat_line ≡ some 777
unfolding format_nat
stat_line_starts =
    start_time_lem (codes "41 (a) b (c") stat_words 777 words_are_words no_close refl (omega arith)

start_time_lem_example :
    start_time (codes "41 (a) b (c" ++ b')' ∷ b' ' ∷ unwords stat_words) ≡ some 777
unfolding format_nat
start_time_lem_example =
    start_time_lem (codes "41 (a) b (c") stat_words 777 words_are_words no_close refl (omega arith)

cpu_ticks_lem_example :
    cpu_ticks (codes "41 (a) b (c" ++ b')' ∷ b' ' ∷ unwords stat_words) ≡ some ((11 + 12) % 2 ^ 64)
unfolding format_nat
cpu_ticks_lem_example =
    cpu_ticks_lem (codes "41 (a) b (c") stat_words 11 12 words_are_words no_close refl refl
      (omega arith) (omega arith)

replica-IsRunning : IsRunning laptop (web_pod (codes "a"))
replica-IsRunning = record {
  pid_positive = refl;
  time_recorded = refl;
  exists = λ t. refl;
  line = λ t. stat_line;
  stat = λ t. refl;
  same_time = λ t. stat_line_starts;
}

pod_a_read :
    map_to_pod (memory.hgetall cluster (pod_key (codes "web") (codes "a")))
    ≡ ok (web_pod (codes "a"))
unfolding pod_to_map map_to_pod atoi node_capacity_to_map node_capacity_key pod_key format_int
    scan_int atoi_default parse_uint all_digits
pod_a_read = refl

spawn-IsRunning_example :
    (spawn quiet laptop (codes "n1") (codes "web") (codes "a") (start cluster)).1.acts ≡ []
spawn-IsRunning_example =
    spawn-IsRunning quiet laptop (codes "n1") (codes "web") (codes "a") (web_pod (codes "a"))
      (start cluster) pod_a_read replica-IsRunning

kill_orphans-Only_example :
    Only
      (ToOrphan laptop (codes "n1") ((pos 41, codes "a") ∷ []))
      (kill_orphans quiet laptop (codes "n1") ((pos 41, codes "a") ∷ []))
kill_orphans-Only_example = kill_orphans-Only quiet laptop (codes "n1") ((pos 41, codes "a") ∷ [])

-- A pod that was restarted four seconds before it is looked at, and waits for four.
abbrev fallen : PodSpec
fallen = record (web_pod (codes "a")) {
  status = codes "Failed";
  last_restart_at = codes "1700000000";
}

abbrev later : Machine
later = record laptop { clock = λ t. pos (1700000004 * 10 ^ 9) }

last_restart_read : parse_int64 (codes "1700000000") ≡ some (pos 1700000000)
unfolding parse_int64 all_digits
last_restart_read = refl

check_pod_lem_example :
    let down =
      str_eq (codes "Failed") (codes "CrashLoopBackOff")
      || str_eq (codes "Failed") (codes "Failed") in
    let due = pos (1700000000 * 10 ^ 9) +ℤ wait_of plain_config 4 in
    let read : World memory = record (start cluster) { tick = 1 } in
    (down ≡ false
      → (check_pod quiet later (codes "n1") plain_config fallen (start cluster)).1.acts ≡ [])
    × (down ≡ true
        → check_pod quiet later (codes "n1") plain_config fallen (start cluster) ≡ (
            if ltb_ℤ (pos (1700000004 * 10 ^ 9)) due
            then (ok tt, read)
            else restart quiet later (codes "n1") plain_config fallen read))
check_pod_lem_example =
    check_pod_lem quiet later (codes "n1") plain_config fallen 1699999999 4 (start cluster)
      last_restart_read refl (omega arith)

handle_command-Keeps_example : Keeps (IsSane memory) (
    handle_command quiet laptop
      (codes "n1")
      (record { type = command_stop_pod; deployment = codes "web"; pod_id = codes "a" }))
handle_command-Keeps_example =
    handle_command-Keeps memory-laws quiet quiet-sane laptop (codes "n1")
      (record { type = command_stop_pod; deployment = codes "web"; pod_id = codes "a" })
