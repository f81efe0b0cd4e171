-- ===== src/Api/Validate.antt =====
-- internal/api/validate.go: every problem of a deployment request, in the words that the user sees.
pub mod Accepts
pub mod Names
use orchestration.Prelude.{
  ℕ, ◌≡◌, Bool, true, false, not, ◌&&◌, ◌||◌, Option, none, some, List, [], ◌∷◌, ◌++◌, reverse, ltb,
  leb, ◌==◌, if◌then◌else◌, length,
}
use orchestration.Prelude.Int.{ℤ, pos, ltb_ℤ}
use orchestration.Prelude.Text.{Str, codes, str_eq, has_prefix, is_space}
use orchestration.Prelude.Decimal.{format_int}

abbrev pub max_name_length : ℕ
max_name_length = 63

abbrev pub max_replica_count : ℤ
max_replica_count = pos 100

abbrev pub max_cpu_request : ℤ
max_cpu_request = pos 8000

abbrev pub max_mem_request : ℤ
max_mem_request = pos 65536

abbrev pub min_port : ℤ
min_port = pos 1

abbrev pub max_port : ℤ
max_port = pos 65535

-- An absent number is `none`.
pub record DeploymentRequest : Type 0 where
  pub name : Str
  pub min_replicas : Option ℤ
  pub max_replicas : Option ℤ
  pub target_cpu_percent : Option ℤ
  pub cpu_request : Option ℤ
  pub mem_request : Option ℤ
  pub exec_path : Str
  pub port : Option ℤ

abbrev drop_space : Str → Str
drop_space [] = []
drop_space (c ∷ s) = if is_space c then drop_space s else c ∷ s

-- strings.TrimSpace
unfoldable pub trim_space : Str → Str
trim_space s = reverse (drop_space (reverse (drop_space s)))

-- [a-z0-9]
abbrev pub is_alnum : ℕ → Bool
is_alnum c = leb b'a' c && leb c b'z' || leb b'0' c && leb c b'9'

-- [-a-z0-9]
abbrev pub is_label_char : ℕ → Bool
is_label_char c = c == b'-' || is_alnum c

-- [-a-z0-9]*[a-z0-9]
unfoldable pub ends_alnum : Str → Bool
ends_alnum [] = false
ends_alnum (c ∷ []) = is_alnum c
ends_alnum (c ∷ d ∷ s) = is_label_char c && ends_alnum (d ∷ s)

-- ^[a-z0-9]([-a-z0-9]*[a-z0-9])?$
unfoldable pub is_deployment_name : Str → Bool
unfolding ends_alnum
is_deployment_name [] = false
is_deployment_name (c ∷ []) = is_alnum c
is_deployment_name (c ∷ d ∷ s) = is_alnum c && ends_alnum (d ∷ s)

unfoldable pub name_problems : Str → List Str
unfolding is_deployment_name
name_problems name =
    if str_eq name []
    then codes "name is required" ∷ []
    else if ltb max_name_length (length name)
    then codes "name must be at most 63 characters" ∷ []
    else if not (is_deployment_name name)
    then codes "name must be lowercase alphanumeric with internal hyphens (e.g. payment-api)" ∷ []
    else []

unfoldable pub exec_path_problems : Str → List Str
exec_path_problems path =
    if str_eq path []
    then codes "exec_path is required" ∷ []
    else if not (has_prefix path (codes "/"))
    then codes "exec_path must be an absolute path" ∷ []
    else []

-- The problems it appends, the value, and whether the value can be used.
unfoldable pub require_int : Str → Option ℤ → ℤ → ℤ → List Str × ℤ × Bool
require_int field none min max = ((field ++ codes " is required") ∷ [], pos 0, false)
require_int field (some value) min max =
    if ltb_ℤ value min || ltb_ℤ max value
    then (
      (field
            ++ (codes " must be between "
                ++ (format_int min
                    ++ (codes " and "
                        ++ (format_int max
                            ++ (codes " (got " ++ (format_int value ++ codes ")")))))))
          ∷ [],
      value,
      false,
    )
    else ([], value, true)

unfoldable pub order_problems : List Str × ℤ × Bool → List Str × ℤ × Bool → List Str
order_problems (_, min_replicas, usable) (_, max_replicas, usable') =
    if usable && (usable' && ltb_ℤ max_replicas min_replicas)
    then (codes "min_replicas ("
        ++ (format_int min_replicas
            ++ (codes ") must not exceed max_replicas ("
                ++ (format_int max_replicas ++ codes ")"))))
      ∷ []
    else []

unfoldable pub problems : DeploymentRequest → List Str
unfolding trim_space name_problems exec_path_problems require_int order_problems
problems req =
    let mins = require_int (codes "min_replicas") req.min_replicas (pos 1) max_replica_count in
    let maxs = require_int (codes "max_replicas") req.max_replicas (pos 1) max_replica_count in
    name_problems (trim_space req.name)
    ++ (exec_path_problems (trim_space req.exec_path)
        ++ (mins.0
            ++ (maxs.0
                ++ (order_problems mins maxs
                    ++ ((require_int (codes "target_cpu_percentage") req.target_cpu_percent (pos 1)
                          (pos 100)).0
                        ++ ((require_int (codes "cpu_request") req.cpu_request (pos 1)
                              max_cpu_request).0
                            ++ ((require_int (codes "mem_request") req.mem_request (pos 1)
                                  max_mem_request).0
                                ++ (require_int (codes "port") req.port min_port max_port).0)))))))

-- The validation error, with all its problems, or `none` for nil.
unfoldable pub validate : DeploymentRequest → Option (List Str)
unfolding problems
validate req = elim (problems req) [ [] ↦ none | p ∷ ps ↦ some (p ∷ ps) ]
