-- ===== src/Examples.antt =====
-- Concrete runs: a small cluster in the memory server, a machine, and the theorems applied to them.
pub mod Placement
pub mod Control
pub mod Agent
pub mod Routes
pub mod Scheduling
pub mod Sampling
pub mod Serving
use orchestration.Prelude.{
  ℕ, ◌*◌, ◌/◌, ◌≡◌, refl, Bool, true, false, not, ◌&&◌, Option, none, some, List, [], ◌∷◌, ◌++◌,
  arith,
}
use orchestration.Prelude.Int.{ℤ, pos, negsuc, pos_part, ◌+ℤ◌, ◌*ℤ◌, ltb_ℤ, eq_ℤ}
use orchestration.Prelude.Text.{Str, codes, str_eq}
use orchestration.Prelude.Decimal.{format_int, format_nat}
use orchestration.Prelude.Sort.{IsStrictWeak}
use orchestration.Prelude.Float.{Float, FloatLaws}
use orchestration.Redis.{Redis, hset_all}
use orchestration.Redis.Memory.{Memory, memory, empty}
use orchestration.Client.{healthy, Env, World}
use orchestration.Client.Calm.{Calm}
use orchestration.Client.Keeps.{Stable}
use orchestration.Capacity.Safe.{IsSafe}
use orchestration.Capacity.Sane.{IsSane}
use orchestration.Schema.Keys.{node_capacity_key, node_registry_key, pod_key}
use orchestration.Schema.Fields.{status_running}
use orchestration.Schema.Codec.{
  DeploymentSpec, PodSpec, NodeCapacity, pod_to_map, node_capacity_to_map,
}
use orchestration.Supervisor.Machine.{Machine}

-- Numbers in thousandths, for a double.
abbrev divide : ℤ → ℤ → ℤ
divide (pos a) (pos b) = pos (a * 1000 / b)
divide _ _ = pos 0

abbrev pub thousandths : Float
thousandths = record {
  F = ℤ;
  of_int = λ z. z *ℤ pos 1000;
  add = λ x y. x +ℤ y;
  div = divide;
  lt = ltb_ℤ;
  eq = eq_ℤ;
  floor = λ x. pos (pos_part x / 1000);
}

pub thousandths-laws : FloatLaws thousandths
thousandths-laws = record {
  order = record { asym = λ x y h. ground arith; neg_trans = λ x y z h k. ground arith };
  eq_lem = λ x y. ground arith;
}

-- Nothing fails and no other process writes.
abbrev pub quiet : Env memory
quiet = record {
  fault = λ t. healthy;
  others = λ t db. db;
  unix = λ t. pos 1700000000;
  random = λ t. some (codes "ab12");
  cancelled = λ t. false;
  pages = 5;
}

pub quiet-Stable : Stable quiet (IsSafe memory)
quiet-Stable = record { at = λ n db h. h }

pub quiet-sane : Stable quiet (IsSane memory)
quiet-sane = record { at = λ n db h. h }

pub quiet-Calm : Calm quiet
quiet-Calm = record { served = λ n. refl; alone = λ n db. refl }

abbrev pub start : Memory → World memory
start db = record { db = db; tick = 0; log = []; acts = [] }

abbrev pub web : DeploymentSpec
web = record {
  name = codes "web";
  min_replicas = pos 1;
  max_replicas = pos 5;
  cpu_request = pos 300;
  mem_request = pos 128;
  desired_replicas = pos 2;
  target_cpu_percent = pos 50;
  exec_path = codes "/bin/web";
  port = pos 8080;
  created_at = codes "1700000000";
  last_scale_up_at = [];
  last_scale_down_at = codes "1700000100";
}

abbrev pub web_pod : Str → PodSpec
web_pod pod_id = record {
  deployment = codes "web";
  pod_id = pod_id;
  status = status_running;
  node_id = codes "n1";
  cpu_request = pos 300;
  mem_request = pos 128;
  created_at = codes "1700000000";
  pid = pos 41;
  started_at = [];
  restart_count = pos 2;
  consecutive_failures = pos 0;
  last_health_ok_at = [];
  backoff_next_seconds = pos 4;
  last_restart_at = [];
  pid_start_time = 777;
  host_port = pos 20080;
}

abbrev pub n1 : NodeCapacity
n1 = record {
  total_cpu = pos 1000;
  total_mem = pos 512;
  allocated_cpu = pos 600;
  allocated_mem = pos 256;
}

-- One node with two pods.
abbrev pub cluster : Memory
cluster =
    hset_all memory
      (hset_all memory
        (hset_all memory (memory.sadd empty node_registry_key (codes "n1"))
          (node_capacity_key (codes "n1")) (node_capacity_to_map n1))
        (pod_key (codes "web") (codes "a")) (pod_to_map (web_pod (codes "a"))))
      (pod_key (codes "web") (codes "b")) (pod_to_map (web_pod (codes "b")))

-- A stat line whose command name holds blanks and parentheses.
abbrev pub stat_line : Str
stat_line = codes "41 (a) b (c) S 1 2 3 4 5 6 7 8 9 10 11 12 13 14 15 16 17 18 777 20 "

abbrev pub laptop : Machine
laptop = record {
  exists = λ t pid. true;
  stat = λ t pid. some stat_line;
  has_file = λ t path. true;
  has_null = λ t. true;
  start = λ t path. some (pos 42);
  processes = λ t. some (codes "1" ∷ codes "41" ∷ codes "52" ∷ codes "acpi" ∷ []);
  environ = λ t pid. some (codes "MINIK8S_POD_ID=x" ++ 0 ∷ codes "MINIK8S_NODE_ID=n1");
  self = pos 1;
  can_bind = λ t port. true;
  answers = λ t port. true;
  variable = λ name. [];
  clock = λ t. pos 0;
  polls = 2;
}
