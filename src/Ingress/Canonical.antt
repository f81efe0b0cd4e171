-- ===== src/Ingress/Canonical.antt =====
-- internal/ingress/ingress.go: the text of backends, read off their canonical form.
use orchestration.Prelude.{
  ◌≡◌, refl, ap, ◌∙◌, false, ◌||◌, Option, none, some, List, [], ◌∷◌, ◌++◌, arith, All, any,
  Bool-cases, inl, inr,
}
use orchestration.Prelude.Int.{ℤ, ltb_ℤ}
use orchestration.Prelude.Text.{Str, codes, str_eq, str_eq_iff, str_eq_refl, str_lt}
use orchestration.Prelude.Sort.{insert_by, sort_by}
use orchestration.Schema.Codec.{PodSpec}
use orchestration.Ingress.{
  Backends, add_port, with_pod, sort_ports, names, ports_of, blocks, render, upstream_block,
  location_block,
}
use orchestration.Ingress.Enter.{put_entry, canonical}

-- The backends of a loop over what the keys held.
abbrev pub with_pods : List (Option PodSpec) → Backends → Backends
with_pods [] b = b
with_pods (found ∷ more) b = with_pods more (with_pod found b)

-- Every name has one entry.
abbrev pub Distinct : Backends → Type 0
Distinct [] = Unit
Distinct ((n, ports) ∷ b) = (any (str_eq n) (names b) ≡ false) × Distinct b

add_port-names :
    (m name : Str) (port : ℤ) (b : Backends)
    → any (str_eq m) (names (add_port name port b)) ≡ (any (str_eq m) (names b) || str_eq m name)
unfolding add_port
add_port-names m name port [] = ground arith
add_port-names m name port ((n, ports) ∷ b) =
    ground (arith, add_port-names m name port b, str_eq_iff n name)

add_port-Distinct :
    (name : Str) (port : ℤ) (b : Backends) → Distinct b → Distinct (add_port name port b)
unfolding add_port
add_port-Distinct name port [] d = (refl, tt)
add_port-Distinct name port ((n, ports) ∷ b) d = elim (Bool-cases (str_eq n name)) [
  | inl e ↦ rw e d
  | inr e ↦ rw e ((add_port-names n name port b ∙ rw (d.0, e)), add_port-Distinct name port b d.1)
]

pub with_pods-Distinct :
    (found : List (Option PodSpec)) (b : Backends) → Distinct b → Distinct (with_pods found b)
unfolding with_pod
with_pods-Distinct [] b d = d
with_pods-Distinct (none ∷ found) b d = with_pods-Distinct found b d
with_pods-Distinct (some pod ∷ found) b d =
    with_pods-Distinct found _ (add_port-Distinct pod.deployment pod.host_port b d)

names-put_entry :
    (n : Str) (ports : List ℤ) (c : Backends)
    → names (put_entry n ports c) ≡ insert_by str_lt n (names c)
unfolding put_entry insert_by
names-put_entry n ports [] = refl
names-put_entry n ports ((m, qs) ∷ c) = ground (arith, names-put_entry n ports c)

names-canonical : (b : Backends) → names (canonical b) ≡ sort_by str_lt (names (sort_ports b))
unfolding canonical sort_by sort_ports
names-canonical [] = refl
names-canonical ((n, ports) ∷ b) =
    names-put_entry n (sort_by ltb_ℤ ports) (canonical b)
    ∙ ap (insert_by str_lt n) (names-canonical b)

-- An entry is what its name reads.
abbrev IsRead : Backends → Str × List ℤ → Type 0
IsRead s x = ports_of x.0 s ≡ x.1

put_entry-All :
    (P : Str × List ℤ → Type 0) (n : Str) (ports : List ℤ) (c : Backends)
    → P (n, ports)
    → All P c
    → All P (put_entry n ports c)
unfolding put_entry
put_entry-All P n ports [] h k = (h, tt)
put_entry-All P n ports ((m, qs) ∷ c) h k = elim (Bool-cases (str_lt m n)) [
  | inl e ↦ rw e (k.0, put_entry-All P n ports c h k.1)
  | inr e ↦ rw e (h, k)
]

canonical-All :
    (P : Str × List ℤ → Type 0) (b : Backends) → All P (sort_ports b) → All P (canonical b)
unfolding canonical sort_ports
canonical-All P [] h = tt
canonical-All P ((n, ports) ∷ b) h =
    put_entry-All P n (sort_by ltb_ℤ ports) (canonical b) h.0 (canonical-All P b h.1)

IsRead-past :
    (n : Str) (ports : List ℤ) (s b : Backends)
    → any (str_eq n) (names b) ≡ false
    → All (IsRead s) (sort_ports b)
    → All (IsRead ((n, ports) ∷ s)) (sort_ports b)
unfolding sort_ports ports_of
IsRead-past n ports s [] f h = tt
IsRead-past n ports s ((m, qs) ∷ b) f h =
    (ground (arith, h.0), IsRead-past n ports s b (ground arith) h.1)

sort_ports-IsRead : (b : Backends) → Distinct b → All (IsRead (sort_ports b)) (sort_ports b)
unfolding sort_ports ports_of
sort_ports-IsRead [] d = tt
sort_ports-IsRead ((n, ports) ∷ b) d = (
  rw (str_eq_refl n),
  IsRead-past n (sort_by ltb_ℤ ports) (sort_ports b) b d.0 (sort_ports-IsRead b d.1),
)

-- The blocks of entries that carry their ports.
abbrev written_out : (Str → List ℤ → Str) → Backends → Str
written_out block [] = []
written_out block ((n, ports) ∷ c) = block n ports ++ written_out block c

blocks-written_out :
    (block : Str → List ℤ → Str) (s c : Backends)
    → All (IsRead s) c
    → blocks block s (names c) ≡ written_out block c
unfolding blocks
blocks-written_out block s [] h = refl
blocks-written_out block s ((n, ports) ∷ c) h = rw (h.0, blocks-written_out block s c h.1)

abbrev pub rendered : Backends → Str
rendered c =
    codes "# Generated by mini-k8s. Do not edit: rewritten on every change.\n"
    ++ (written_out upstream_block c ++ written_out location_block c)

pub render-canonical : (b : Backends) → Distinct b → render (sort_ports b) ≡ rendered (canonical b)
unfolding render
render-canonical b d =
    let same = canonical-All (IsRead (sort_ports b)) b (sort_ports-IsRead b d) in
    rw (← names-canonical b) (
      rw (
        blocks-written_out upstream_block (sort_ports b) (canonical b) same,
        blocks-written_out location_block (sort_ports b) (canonical b) same,
      ))
