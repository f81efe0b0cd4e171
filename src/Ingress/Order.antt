-- ===== src/Ingress/Order.antt =====
-- internal/ingress/ingress.go: the text does not depend on the order in which the pods were found.
use mathlib.Core.List.Perm
use mathlib.Core.List.{Perm, Permᴰ}
use mathlib.Core.Logic.{∥∥₁_elim}
use orchestration.Prelude.{
  suc, All, map, ◌≡◌, refl, sym, ap, ◌∙◌, Option, none, some, List, [], ◌∷◌, All,
}
use orchestration.Prelude.Text.{Str, str_eq_refl}
use orchestration.Redis.{Redis}
use orchestration.Client.{ok, Env, World, hash_get, scan_keys, ◌>>=◌, try, pure}
use orchestration.Client.Calm.{Calm, call-Calm}
use orchestration.Client.Idle.{Idle-scan_keys}
use orchestration.Schema.Codec.{PodSpec}
use orchestration.Schema.Keys.{pod_key_pattern}
use orchestration.Ingress.{
  Config, Host, serving, read_backends, backends, install, sync, Backends, with_pod, sort_ports,
  render,
}
use orchestration.Ingress.Enter.{canonical, enter_pod, enter_comm, canonical-add_port}
use orchestration.Ingress.Canonical.{with_pods, with_pods-Distinct, rendered, render-canonical}

abbrev enter_pods : List (Option PodSpec) → Backends → Backends
enter_pods [] c = c
enter_pods (found ∷ more) c = enter_pods more (enter_pod found c)

canonical-with_pod :
    (found : Option PodSpec) (b : Backends)
    → canonical (with_pod found b) ≡ enter_pod found (canonical b)
unfolding with_pod enter_pod
canonical-with_pod none b = refl
canonical-with_pod (some pod) b = canonical-add_port pod.deployment pod.host_port b

canonical-with_pods :
    (found : List (Option PodSpec)) (b : Backends)
    → canonical (with_pods found b) ≡ enter_pods found (canonical b)
canonical-with_pods [] b = refl
canonical-with_pods (x ∷ found) b =
    canonical-with_pods found (with_pod x b) ∙ ap (enter_pods found) (canonical-with_pod x b)

enter_pod_comm :
    (x y : Option PodSpec) (c : Backends)
    → enter_pod x (enter_pod y c) ≡ enter_pod y (enter_pod x c)
unfolding enter_pod
enter_pod_comm none y c = refl
enter_pod_comm (some pod) none c = refl
enter_pod_comm (some pod) (some other) c =
    enter_comm pod.deployment other.deployment pod.host_port other.host_port c

enter_pods-perm :
    {xs ys : List (Option PodSpec)}
    → Permᴰ xs ys
    → (c : Backends) → enter_pods xs c ≡ enter_pods ys c
enter_pods-perm Permᴰ.nil c = refl
enter_pods-perm (Permᴰ.cons {a} {b} {l₂} p d) c =
    enter_pods-perm d (enter_pod a c) ∙ ap (λ x. enter_pods l₂ (enter_pod x c)) p
enter_pods-perm (Permᴰ.swap {a} {b} {l} p q) c =
    ap (enter_pods l) (enter_pod_comm b a c ∙ (λ i. enter_pod (p i) (enter_pod (q i) c)))
enter_pods-perm (Permᴰ.trans d d') c = enter_pods-perm d c ∙ enter_pods-perm d' c

pub render_perm :
    {xs ys : List (Option PodSpec)}
    → Perm xs ys
    → render (sort_ports (with_pods xs [])) ≡ render (sort_ports (with_pods ys []))
render_perm {xs} {ys} p = ∥∥₁_elim p (hlevel) λ d.
    render-canonical (with_pods xs []) (with_pods-Distinct xs [] tt)
    ∙ ap rendered (
        canonical-with_pods xs []
        ∙ enter_pods-perm d (canonical [])
        ∙ sym (canonical-with_pods ys []))
    ∙ sym (render-canonical (with_pods ys []) (with_pods-Distinct ys [] tt))

-- What the keys hold.
abbrev pub found_at : (r : Redis) → r.Db → List Str → List (Option PodSpec)
found_at r db keys = map (λ key. serving (r.hgetall db key)) keys

module _ {r : Redis} (e : Env r) (calm : Calm e) where
  read_backends_lem :
      (keys : List Str) (b : Backends) (w : World r)
      → (v : World r) × (read_backends e keys b w ≡ (ok (with_pods (found_at r w.db keys) b), v))
        × (v.acts ≡ w.acts)
  unfolding read_backends hash_get ◌>>=◌ try pure
  read_backends_lem [] b w = (w, refl, refl)
  read_backends_lem (key ∷ keys) b w =
      let next = record w { tick = suc w.tick } in
      let (v, p, q) = read_backends_lem keys (with_pod (serving (r.hgetall w.db key)) b) next in
      (v, rw (call-Calm e calm _ w) p, q)

  found_at-eq :
      (db db' : r.Db) (keys : List Str)
      → All (λ key. r.hgetall db key ≡ r.hgetall db' key) keys
      → found_at r db keys ≡ found_at r db' keys
  found_at-eq db db' [] h = refl
  found_at-eq db db' (key ∷ keys) h = rw (h.0, found_at-eq db db' keys h.1)

  backends_lem :
      (keys : List Str) (w v : World r)
      → scan_keys e pod_key_pattern w ≡ (ok keys, v)
      → (u : World r) × (backends e w ≡ (ok (sort_ports (with_pods (found_at r v.db keys) [])), u))
        × (u.acts ≡ w.acts)
  unfolding backends ◌>>=◌ pure
  backends_lem keys w v s =
      let (u, p, q) = read_backends_lem keys [] v in
      (u, rw (s, p), q ∙ ap (λ x. x.1.acts) (sym s) ∙ (Idle-scan_keys e pod_key_pattern).at w)

  install_same :
      (host : Host) (cfg : Config) (text : Str) (w : World r)
      → install e host cfg text text w ≡ (ok (text, ok tt), w)
  unfolding install pure
  install_same host cfg text w = rw (str_eq_refl text)

  -- In surroundings that serve every call and write nothing, a Sync that finds the keys of the last
  -- one in any other order, with the same hashes behind them, neither writes the file nor reloads,
  -- and succeeds: the two databases may differ elsewhere, and the last written text is what the
  -- backends of the first render to.
  pub sync_again :
      (host : Host) (cfg : Config) (keys keys' : List Str) (w v w' v' : World r)
      → scan_keys e pod_key_pattern w ≡ (ok keys, v)
      → scan_keys e pod_key_pattern w' ≡ (ok keys', v')
      → Perm keys keys'
      → All (λ key. r.hgetall v.db key ≡ r.hgetall v'.db key) keys
      → (b : Backends) × ((backends e w).0 ≡ ok b)
        × ((sync e host cfg (render b) w').0 ≡ ok (render b, ok tt))
        × ((sync e host cfg (render b) w').1.acts ≡ w'.acts)
  unfolding sync ◌>>=◌ try
  sync_again host cfg keys keys' w v w' v' s s' p same =
      let (u, q, _) = backends_lem keys w v s in
      let (u', q', idle) = backends_lem keys' w' v' s' in
      let text : render (sort_ports (with_pods (found_at r v.db keys) []))
          ≡ render (sort_ports (with_pods (found_at r v'.db keys') [])) =
        ap (λ x. render (sort_ports (with_pods x []))) (found_at-eq v.db v'.db keys same)
        ∙ render_perm (Perm.map _ p) in
      (
        _,
        ap (λ x. x.0) q,
        rw (q', text, install_same host cfg _ u'),
        rw (q', text, install_same host cfg _ u') idle,
      )
