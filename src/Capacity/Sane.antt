-- ===== src/Capacity/Sane.antt =====
-- internal/capacity/capacity.go: the invariant of `Capacity.Safe`, together with requests that are
-- not negative in every pod and deployment that is stored.
use orchestration.Prelude.{
  ◌≡◌, refl, Bool, true, false, ◌&&◌, ◌||◌, ◌⊎◌, inl, inr, List, [], ◌∷◌, Bool-cases, All, arith, ℕ,
  ◌==◌,
}
use orchestration.Prelude.Int.{ℤ, pos, ◌≤ℤ◌, IsInt64, eq_ℤ}
use orchestration.Prelude.Text.{Str, str_eq, str_eq_iff}
use orchestration.Prelude.Decimal.{format_int}
use orchestration.Redis.{Redis, RedisLaws, Hash, hget, hset_all, del_all}
use orchestration.Client.{ok, Env, hash_set, list_push, delete_key}
use orchestration.Client.Keeps.{Keeps, KeepsIn, Stable, Keeps-call, Keeps-eval_script, flow_rules}
use orchestration.Capacity.{reserve_script, reserve, reserve_outcome, release_script, release}
use orchestration.Capacity.Safe.{IsSafe, Avoids, hset_all-IsSafe, frame-IsSafe, del_all-IsSafe}
use orchestration.Capacity.Reserve.{reserve_script-IsSafe}
use orchestration.Capacity.Release.{release_script-IsSafe}
use orchestration.Capacity.Frame.{reserve_script_frame, release_script_frame}
use orchestration.Capacity.Guard.{Guard}
use orchestration.Schema.Keys.{node_capacity_key}
use orchestration.Schema.Fields.{
  field_cpu_request, field_mem_request, field_allocated_cpu, field_allocated_mem,
}
use orchestration.Schema.Codec.{
  PodSpec, DeploymentSpec, map_to_pod, map_to_deployment, pod_to_map, atoi, or_empty, text_entry,
  int_entry, nat_entry,
}
use orchestration.Schema.Codec.Requests.{map_to_pod-requests, map_to_deployment-requests}
use orchestration.Schema.RoundTrip.{atoi-format_int}
use orchestration.Schema.Avoids.{pod_to_map-Avoids}

-- A request for capacity, as validation leaves it: a Go int that is not negative.
abbrev pub IsRequest : ℤ → Type 0
IsRequest z = (pos 0 ≤ℤ z) × IsInt64 z

abbrev pub is_request_field : Str → Bool
is_request_field f = str_eq f field_cpu_request || str_eq f field_mem_request

-- Where the text is a number, it is a request.
abbrev pub IsRequestText : Str → Type 0
IsRequestText s = (z : ℤ) → atoi s ≡ ok z → IsRequest z

-- An entry that is no request, or a fine one.
abbrev pub IsEntry : Str × Str → Type 0
IsEntry (f, v) = (is_request_field f ≡ false) ⊎ IsRequestText v

format_int-IsRequestText : (z : ℤ) → IsRequest z → IsRequestText (format_int z)
format_int-IsRequestText z h y e = let same : z ≡ y = cc (atoi-format_int z h.1, e) in rw same at h

text_entry-IsEntry :
    (f s : Str) (h : Hash)
    → is_request_field f ≡ false
    → All IsEntry h
    → All IsEntry (text_entry f s h)
unfolding text_entry
text_entry-IsEntry f [] h a k = k
text_entry-IsEntry f (c ∷ s) h a k = (inl a, k)

int_entry-IsEntry :
    (f : Str) (z : ℤ) (h : Hash)
    → is_request_field f ≡ false
    → All IsEntry h
    → All IsEntry (int_entry f z h)
unfolding int_entry
int_entry-IsEntry f z h a k = elim (Bool-cases (eq_ℤ z (pos 0))) [
  | inl e ↦ rw e k
  | inr e ↦ rw e (inl a, k)
]

nat_entry-IsEntry :
    (f : Str) (n : ℕ) (h : Hash)
    → is_request_field f ≡ false
    → All IsEntry h
    → All IsEntry (nat_entry f n h)
unfolding nat_entry
nat_entry-IsEntry f n h a k = elim (Bool-cases (n == 0)) [
  | inl e ↦ rw e k
  | inr e ↦ rw e (inl a, k)
]

pod_to_map-IsEntry :
    (p : PodSpec) → IsRequest p.cpu_request → IsRequest p.mem_request → All IsEntry (pod_to_map p)
unfolding pod_to_map
pod_to_map-IsEntry p c m = (
  inl refl,
  (
    inl refl,
    (
      inl refl,
      (
        inl refl,
        (
          inr (format_int-IsRequestText p.cpu_request c),
          (
            inr (format_int-IsRequestText p.mem_request m),
            (inl refl, search (text_entry-IsEntry, int_entry-IsEntry, nat_entry-IsEntry) depth 30),
          ),
        ),
      ),
    ),
  ),
)

module _ (r : Redis) where
  pub record IsSane (db : r.Db) : Type 0 where
    pub safe : IsSafe r db
    pub requests :
        (key f : Str) → is_request_field f ≡ true → IsRequestText (or_empty (hget r db key f))

  -- What is read from a sane database.
  pub map_to_pod-IsSane :
      (db : r.Db) (key : Str) (p : PodSpec)
      → IsSane db
      → map_to_pod (r.hgetall db key) ≡ ok p
      → IsRequest p.cpu_request × IsRequest p.mem_request
  map_to_pod-IsSane db key p h e =
      let (c, m) = map_to_pod-requests _ p e in
      (h.requests key field_cpu_request refl _ c, h.requests key field_mem_request refl _ m)

  pub map_to_deployment-IsSane :
      (db : r.Db) (key : Str) (d : DeploymentSpec)
      → IsSane db
      → map_to_deployment (r.hgetall db key) ≡ ok d
      → IsRequest d.cpu_request × IsRequest d.mem_request
  map_to_deployment-IsSane db key d h e =
      let (c, m) = map_to_deployment-requests _ d e in
      (h.requests key field_cpu_request refl _ c, h.requests key field_mem_request refl _ m)

module _ (r : Redis) (laws : RedisLaws r) where
  abbrev Requests : r.Db → Type 0
  Requests db =
      (key f : Str) → is_request_field f ≡ true → IsRequestText (or_empty (hget r db key f))

  hset-Requests :
      (db : r.Db) (k g v : Str) → IsEntry (g, v) → Requests db → Requests (r.hset db k g v)
  hset-Requests db k g v entry h key f isreq z e = elim (Bool-cases (str_eq k key && str_eq g f)) [
    | inl c ↦
        let read : atoi v ≡ ok z = rw (laws.hget-hset db k g v key f, c) at e in
        let same : g ≡ f = (str_eq_iff g f).0 (ground (arith, c)) in written entry same read
    | inr c ↦ h key f isreq z (rw (laws.hget-hset db k g v key f, c) at e)
  ]
    where
      written : IsEntry (g, v) → g ≡ f → atoi v ≡ ok z → IsRequest z
      written (inl ne) same read = let ne' : is_request_field f ≡ false = rw same at ne in cc
      written (inr t) same read = t z read

  hset_all-Requests :
      (db : r.Db) (k : Str) (h : Hash) → All IsEntry h → Requests db → Requests (hset_all r db k h)
  hset_all-Requests db k [] a s = s
  hset_all-Requests db k ((f, v) ∷ h) a s =
      hset_all-Requests (r.hset db k f v) k h a.1 (hset-Requests db k f v a.0 s)

  del-Requests : (db : r.Db) (k : Str) → Requests db → Requests (r.del db k)
  unfolding atoi
  del-Requests db k h key f isreq z e = elim (Bool-cases (str_eq k key)) [
    | inl c ↦ let none_left : atoi [] ≡ ok z = rw (laws.hget-del db k key f, c) at e in cc
    | inr c ↦ h key f isreq z (rw (laws.hget-del db k key f, c) at e)
  ]

  del_all-Requests : (db : r.Db) (ks : List Str) → Requests db → Requests (del_all r db ks)
  del_all-Requests db [] h = h
  del_all-Requests db (k ∷ ks) h = del_all-Requests (r.del db k) ks (del-Requests db k h)

  frame-Requests :
      (db db' : r.Db)
      → ((k f : Str) → is_request_field f ≡ true → hget r db' k f ≡ hget r db k f)
      → Requests db
      → Requests db'
  frame-Requests db db' same h key f isreq z e = h key f isreq z (rw (same key f isreq) at e)

  -- A request's field is no allocation.
  not_allocated :
      (f : Str)
      → is_request_field f ≡ true
      → (str_eq field_allocated_cpu f ≡ false) × (str_eq field_allocated_mem f ≡ false)
  not_allocated f h = elim (Bool-cases (str_eq f field_cpu_request)) [
    | inl q ↦ rw ((str_eq_iff f field_cpu_request).0 q) (refl, refl)
    | inr q ↦ rw ((str_eq_iff f field_mem_request).0 (ground (arith, h))) (refl, refl)
  ]

  reserve_script-IsSane :
      (cpu mem : ℤ)
      → IsRequest cpu
      → IsRequest mem
      → (key : Str) → KeepsIn r (IsSane r) (reserve_script r key cpu mem)
  reserve_script-IsSane cpu mem c m key = record {
    at = λ db h. record {
      safe = (reserve_script-IsSafe r laws cpu mem c.0 m.0 key).at db h.safe;
      requests =
          frame-Requests db _
            (λ k f isreq.
              let (nc, nm) = not_allocated f isreq in
              reserve_script_frame r laws f nc nm key k cpu mem db)
            h.requests;
    };
  }

  release_script-IsSane :
      (cpu mem : ℤ)
      → IsRequest cpu
      → IsRequest mem
      → (key : Str) → KeepsIn r (IsSane r) (release_script r key cpu mem)
  release_script-IsSane cpu mem c m key = record {
    at = λ db h. record {
      safe = (release_script-IsSafe r laws cpu mem c.0 m.0 key).at db h.safe;
      requests =
          frame-Requests db _
            (λ k f isreq.
              let (nc, nm) = not_allocated f isreq in
              release_script_frame r laws f nc nm key k cpu mem db)
            h.requests;
    };
  }

  module _ (e : Env r) (st : Stable e (IsSane r)) where
    reserve-Keeps :
        (node_id : Str) (cpu mem : ℤ)
        → IsRequest cpu
        → IsRequest mem
        → Keeps (IsSane r) (reserve r e node_id cpu mem)
    unfolding reserve reserve_outcome
    reserve-Keeps node_id cpu mem c m = search (
      flow_rules,
      Keeps-eval_script e st (reserve_script r (node_capacity_key node_id) cpu mem)
          (reserve_script-IsSane cpu mem c m (node_capacity_key node_id)),
    )

    release-Keeps :
        (node_id : Str) (cpu mem : ℤ)
        → IsRequest cpu
        → IsRequest mem
        → Keeps (IsSane r) (release r e node_id cpu mem)
    unfolding release
    release-Keeps node_id cpu mem c m = search (
      flow_rules,
      Keeps-eval_script e st (release_script r (node_capacity_key node_id) cpu mem)
          (release_script-IsSane cpu mem c m (node_capacity_key node_id)),
    )

    pod_written-Keeps :
        (key : Str) (p : PodSpec)
        → IsRequest p.cpu_request
        → IsRequest p.mem_request
        → Keeps (IsSane r) (hash_set e key (pod_to_map p))
    unfolding hash_set
    pod_written-Keeps key p c m = Keeps-call e _ st (record {
      at = λ db h. record {
        safe = hset_all-IsSafe r laws db key _ (pod_to_map-Avoids r p) h.safe;
        requests = hset_all-Requests db key _ (pod_to_map-IsEntry p c m) h.requests;
      };
    })

    list_push-Keeps : (key value : Str) → Keeps (IsSane r) (list_push e key value)
    unfolding list_push
    list_push-Keeps key value = Keeps-call e _ st (record {
      at = λ db h. record {
        safe = frame-IsSafe r laws db _ (λ k f. laws.hget-rpush db key value k f) h.safe;
        requests = frame-Requests db _ (λ k f isreq. laws.hget-rpush db key value k f) h.requests;
      };
    })

    delete_key-Keeps : (keys : List Str) → Keeps (IsSane r) (delete_key e keys)
    unfolding delete_key
    delete_key-Keeps keys = Keeps-call e _ st (record {
      at = λ db h. record {
        safe = del_all-IsSafe r laws db keys h.safe;
        requests = del_all-Requests db keys h.requests;
      };
    })

    pub fields_written-Keeps :
        (key : Str) (h : Hash) → Avoids r h → All IsEntry h → Keeps (IsSane r) (hash_set e key h)
    unfolding hash_set
    fields_written-Keeps key h a k = Keeps-call e _ st (record {
      at = λ db s. record {
        safe = hset_all-IsSafe r laws db key h a s.safe;
        requests = hset_all-Requests db key h k s.requests;
      };
    })

    pub IsSane-Guard : Guard e (IsSane r) IsRequest
    IsSane-Guard = record {
      stable = st;
      reserves = reserve-Keeps;
      releases = release-Keeps;
      writes = pod_written-Keeps;
      pushes = list_push-Keeps;
      deletes = delete_key-Keeps;
    }
