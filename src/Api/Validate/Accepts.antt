-- ===== src/Api/Validate/Accepts.antt =====
-- internal/api/validate.go: which requests are accepted.
use orchestration.Prelude.{
  ◌≡◌, true, Option, none, some, List, [], ◌∷◌, ◌++◌, ◌↔◌, ◌≤◌, arith, length,
}
use orchestration.Prelude.Int.{ℤ, pos, ◌≤ℤ◌}
use orchestration.Prelude.Text.{Str, codes, has_prefix}
use orchestration.Api.Validate.{
  DeploymentRequest, trim_space, is_deployment_name, name_problems, exec_path_problems, require_int,
  order_problems, problems, validate,
}
use orchestration.Api.Validate.Names.{IsLabel, is_deployment_name_iff}

-- A number is given, and lies in the bounds.
abbrev pub Within : Option ℤ → ℤ → ℤ → Type 0
Within none low high = ⊥
Within (some z) low high = (low ≤ℤ z) × (z ≤ℤ high)

abbrev pub Ordered : Option ℤ → Option ℤ → Type 0
Ordered (some a) (some b) = a ≤ℤ b
Ordered _ _ = ⊥

abbrev pub IsAbsolute : Str → Type 0
IsAbsolute [] = ⊥
IsAbsolute (c ∷ s) = c ≡ b'/'

-- What a deployment request must be.
pub record IsValid (req : DeploymentRequest) : Type 0 where
  pub name_short : length (trim_space req.name) ≤ 63
  pub name_label : IsLabel (trim_space req.name)
  pub exec_path : IsAbsolute (trim_space req.exec_path)
  pub min_replicas : Within req.min_replicas (pos 1) (pos 100)
  pub max_replicas : Within req.max_replicas (pos 1) (pos 100)
  pub ordered : Ordered req.min_replicas req.max_replicas
  pub target : Within req.target_cpu_percent (pos 1) (pos 100)
  pub cpu : Within req.cpu_request (pos 1) (pos 8000)
  pub mem : Within req.mem_request (pos 1) (pos 65536)
  pub port : Within req.port (pos 1) (pos 65535)

abbrev IsNil : List Str → Type 0
IsNil xs = xs ≡ []

no_name : {A : Type 0} → is_deployment_name [] ≡ true → A
unfolding is_deployment_name
no_name h = cc

name_problems_lem :
    (name : Str)
    → IsNil (name_problems name) ↔ ((length name ≤ 63) × (is_deployment_name name ≡ true))
unfolding name_problems
name_problems_lem [] = ((λ h. cc), λ h. no_name h.1)
name_problems_lem (c ∷ s) = ground arith

exec_path_problems_lem : (path : Str) → IsNil (exec_path_problems path) ↔ IsAbsolute path
unfolding exec_path_problems has_prefix
exec_path_problems_lem [] = ground arith
exec_path_problems_lem (c ∷ s) = ground arith

require_int_lem :
    (field : Str) (value : Option ℤ) (min max : ℤ)
    → IsNil (require_int field value min max).0 ↔ Within value min max
unfolding require_int
require_int_lem field none min max = ground arith
require_int_lem field (some z) min max = ground arith

require_int_ok :
    (field : Str) (z min max : ℤ)
    → Within (some z) min max
    → require_int field (some z) min max ≡ ([], z, true)
unfolding require_int
require_int_ok field z min max h = ground arith

order_problems_lem :
    (a b : Option ℤ) (f g : Str) (min max : ℤ)
    → Within a min max
    → Within b min max
    → IsNil (order_problems (require_int f a min max) (require_int g b min max)) ↔ Ordered a b
unfolding order_problems
order_problems_lem none b f g min max h k = absurd h
order_problems_lem (some x) none f g min max h k = absurd k
order_problems_lem (some x) (some y) f g min max h k =
    rw (require_int_ok f x min max h, require_int_ok g y min max k) (ground arith)

IsNil-append : (xs ys : List Str) → IsNil (xs ++ ys) ↔ (IsNil xs × IsNil ys)
IsNil-append [] ys = ground arith
IsNil-append (x ∷ xs) ys = ground arith

validate-problems : (req : DeploymentRequest) → (validate req ≡ none) ↔ IsNil (problems req)
unfolding validate
validate-problems req = cases (problems req)
  where
    cases :
        (xs : List Str)
        → ((elim xs as (λ _. Option (List Str)) [ [] ↦ none | p ∷ ps ↦ some (p ∷ ps) ]) ≡ none)
          ↔ IsNil xs
    cases [] = ground arith
    cases (x ∷ xs) = ground arith

problems-IsValid : (req : DeploymentRequest) → IsNil (problems req) → IsValid req
unfolding problems
problems-IsValid req h =
    let (name, h1) = (IsNil-append _ _).0 h in
    let (path, h2) = (IsNil-append _ _).0 h1 in
    let (mins, h3) = (IsNil-append _ _).0 h2 in
    let (maxs, h4) = (IsNil-append _ _).0 h3 in
    let (order, h5) = (IsNil-append _ _).0 h4 in
    let (target, h6) = (IsNil-append _ _).0 h5 in
    let (cpu, h7) = (IsNil-append _ _).0 h6 in
    let (mem, port) = (IsNil-append _ _).0 h7 in
    let named = (name_problems_lem (trim_space req.name)).0 name in
    let low = (require_int_lem (codes "min_replicas") req.min_replicas _ _).0 mins in
    let high = (require_int_lem (codes "max_replicas") req.max_replicas _ _).0 maxs in
    record {
      name_short = named.0;
      name_label = (is_deployment_name_iff _).0 named.1;
      exec_path = (exec_path_problems_lem _).0 path;
      min_replicas = low;
      max_replicas = high;
      ordered =
          (order_problems_lem req.min_replicas req.max_replicas (codes "min_replicas")
              (codes "max_replicas") _ _ low high).0
            order;
      target =
          (require_int_lem (codes "target_cpu_percentage") req.target_cpu_percent _ _).0 target;
      cpu = (require_int_lem (codes "cpu_request") req.cpu_request _ _).0 cpu;
      mem = (require_int_lem (codes "mem_request") req.mem_request _ _).0 mem;
      port = (require_int_lem (codes "port") req.port _ _).0 port;
    }

IsValid-problems : (req : DeploymentRequest) → IsValid req → IsNil (problems req)
unfolding problems
IsValid-problems req v =
    joined ((name_problems_lem _).1 (v.name_short, (is_deployment_name_iff _).1 v.name_label)) (
      joined ((exec_path_problems_lem _).1 v.exec_path) (
        joined ((require_int_lem (codes "min_replicas") req.min_replicas _ _).1 v.min_replicas) (
          joined ((require_int_lem (codes "max_replicas") req.max_replicas _ _).1 v.max_replicas) (
            joined
              ((order_problems_lem req.min_replicas req.max_replicas (codes "min_replicas")
                  (codes "max_replicas") _ _ v.min_replicas v.max_replicas).1
                v.ordered)
              (joined
                ((require_int_lem (codes "target_cpu_percentage") req.target_cpu_percent _ _).1
                  v.target)
                (joined ((require_int_lem (codes "cpu_request") req.cpu_request _ _).1 v.cpu) (
                  joined ((require_int_lem (codes "mem_request") req.mem_request _ _).1 v.mem)
                    ((require_int_lem (codes "port") req.port _ _).1 v.port))))))))
  where
    joined : {xs ys : List Str} → IsNil xs → IsNil ys → IsNil (xs ++ ys)
    joined {xs} {ys} h k = (IsNil-append xs ys).1 (h, k)

-- A request is accepted exactly when it satisfies every bound, and its name is a label: letters,
-- digits and hyphens, with no hyphen at either end.
pub validate_lem : (req : DeploymentRequest) → (validate req ≡ none) ↔ IsValid req
validate_lem req =
    let v = validate-problems req in
    ((λ h. problems-IsValid req (v.0 h)), λ h. v.1 (IsValid-problems req h))
