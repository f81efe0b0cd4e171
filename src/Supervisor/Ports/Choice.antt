-- ===== src/Supervisor/Ports/Choice.antt =====
-- internal/supervisor/spawn.go: the choice among the candidates for a host port.
use orchestration.Prelude.{
  ℕ, ◌≡◌, sym, ◌||◌, ◌∙◌, refl, suc, none, some, All, Bool-cases, inl, inr, Bool, true, false, ◌&&◌,
  List, [], ◌∷◌, any, arith,
}
use orchestration.Prelude.Int.{ℤ, pos, ◌≤ℤ◌, leb_ℤ, ltb_ℤ, eq_ℤ}
use orchestration.Prelude.Text.{Str, str_eq, str_eq_iff}
use orchestration.Prelude.Decimal.{parse_int64}
use orchestration.Redis.Scan.{any-append}
use orchestration.Redis.{Redis, Hash}
use orchestration.Client.{
  Result, ok, err, handle, Env, World, observe, pure, fail, ◌>>=◌, hash_get, scan_keys,
}
use orchestration.Client.Calm.{
  Calm, concat_map, Reads, Reads-pure, Reads-call, Reads-try, Reads-bind, Reads-collect,
}
use orchestration.Schema.Keys.{pod_key_pattern}
use orchestration.Schema.Fields.{field_pod_node_id, field_pod_host_port}
use orchestration.Schema.Codec.{text_at}
use orchestration.Supervisor.Machine.{Machine}
use orchestration.Supervisor.Ports.{
  min_host_port, max_host_port, passed_over, first_free, scan_from, port_scan_limit, candidates,
  claim_of, claim, claimed_ports, allocate_host_port,
}

-- In the range of host ports, and claimed by no pod of the list.
abbrev pub IsOpen : List ℤ → ℤ → Type 0
IsOpen claimed port =
    (pos min_host_port ≤ℤ port) × (port ≤ℤ pos max_host_port) × (any (eq_ℤ port) claimed ≡ false)

not_passed_over :
    (claimed : List ℤ) (port : ℤ) → passed_over claimed port ≡ false → IsOpen claimed port
not_passed_over claimed port h = ground arith

-- What a pod's hash says: that it is of the node, and that the port is its host port.
abbrev pub Claims : Str → ℤ → Hash → Type 0
Claims node_id port h =
    (text_at h field_pod_node_id ≡ node_id)
    × (parse_int64 (text_at h field_pod_host_port) ≡ some port)

claim_of-Claims :
    (node_id : Str) (port : ℤ) (h : Hash)
    → Claims node_id port h
    → pos min_host_port ≤ℤ port
    → any (eq_ℤ port) (claim_of node_id h) ≡ true
unfolding parse_int64
claim_of-Claims node_id port [] c k = let missing : none ≡ some port = c.1 in cc
claim_of-Claims node_id port (f ∷ fields) (same, read) k =
    let mine : str_eq (text_at (f ∷ fields) field_pod_node_id) node_id ≡ true =
      (str_eq_iff _ _).1 same in
    let positive : ltb_ℤ (pos 0) port ≡ true = ground arith in
    let itself : eq_ℤ port port ≡ true = ground arith in rw (mine, read, positive, itself) refl

any-concat_map :
    {A : Type 0} (p : ℤ → Bool) (f : A → List ℤ) (xs : List A)
    → any p (concat_map f xs) ≡ false
    → All (λ x. any p (f x) ≡ false) xs
any-concat_map p f [] h = tt
any-concat_map p f (x ∷ xs) h =
    let split : (any p (f x) || any p (concat_map f xs)) ≡ false =
      sym (any-append p (f x) (concat_map f xs)) ∙ h in
    let both : (any p (f x) ≡ false) × (any p (concat_map f xs) ≡ false) = ground arith in
    (both.0, any-concat_map p f xs both.1)

unclaimed_pods :
    {A : Type 0} (node_id : Str) (port : ℤ) (read : A → Hash) (xs : List A)
    → pos min_host_port ≤ℤ port
    → All (λ x. any (eq_ℤ port) (claim_of node_id (read x)) ≡ false) xs
    → All (λ x. ¬ Claims node_id port (read x)) xs
unclaimed_pods node_id port read [] k h = tt
unclaimed_pods node_id port read (x ∷ xs) k (here, rest) = (
  λ c. (let found = claim_of-Claims node_id port (read x) c k in clash found here),
  unclaimed_pods node_id port read xs k rest,
)
  where
    clash : {b : Bool} → b ≡ true → b ≡ false → ⊥
    clash p q = cc

candidates-preferred :
    (port : ℤ) (claimed : List ℤ)
    → passed_over claimed port ≡ false
    → (ports : List ℤ) × (candidates port ≡ port ∷ ports)
unfolding candidates
candidates-preferred port claimed h =
    (scan_from port_scan_limit min_host_port, rw (in_range port claimed h))
  where
    in_range :
        (port : ℤ) (claimed : List ℤ)
        → passed_over claimed port ≡ false
        → (leb_ℤ (pos min_host_port) port && leb_ℤ port (pos max_host_port)) ≡ true
    in_range port claimed h = ground arith

module _ {r : Redis} (e : Env r) (os : Machine) where
  -- The port is open, and the last look at the machine was that it can be bound.
  abbrev pub WasChosen : List ℤ → ℤ → World r → Type 0
  WasChosen claimed port w' =
      IsOpen claimed port × ((t : ℕ) × (os.can_bind t port ≡ true) × (w'.tick ≡ suc t))

  first_free_lem :
      (claimed ports : List ℤ) (port : ℤ) (w : World r)
      → (first_free e os claimed ports w).0 ≡ ok port
      → WasChosen claimed port (first_free e os claimed ports w).1
  unfolding first_free ◌>>=◌ observe pure fail
  first_free_lem claimed [] port w p = cc
  first_free_lem claimed (first ∷ ports) port w p = elim (Bool-cases (passed_over claimed first)) [
    | inl skip ↦ rw skip (first_free_lem claimed ports port w (rw skip at p))
    | inr open_port ↦ elim (Bool-cases (os.can_bind w.tick first)) [
      | inl free ↦
          let same : ok first ≡ ok port = rw (open_port, free) at p in
          let here : first ≡ port = cc in
          rw (open_port, free)
            (rw here at (not_passed_over claimed first open_port), (w.tick, rw here at free, refl))
      | inr taken ↦
          rw (open_port, taken)
            (first_free_lem claimed ports port (record w { tick = suc w.tick })
              (rw (open_port, taken) at p))
    ]
  ]

  claim-Reads :
      Calm e
      → (node_id key : Str)
      → Reads (λ db. claim_of node_id (r.hgetall db key)) (claim e os node_id key)
  unfolding claim hash_get
  claim-Reads calm node_id key =
      Reads-bind (λ db. ok (r.hgetall db key))
        (λ fields db. handle fields (claim_of node_id) (λ _. [])) _ _
        (Reads-try _ _ (Reads-call e calm (λ db. r.hgetall db key))) λ fields. either fields
    where
      either :
          (fields : Result Hash)
          → Reads {r = r}
              (λ db. handle fields (claim_of node_id) (λ _. []))
              (handle fields (λ h. pure (claim_of node_id h)) (λ _. pure []))
      either (ok h) = Reads-pure _
      either (err c) = Reads-pure _

  -- In surroundings where every call is served and no other process writes, a port that is allocated
  -- lies between 20000 and 60000; of no pod whose key the scan has found does the hash say that it is
  -- of this node and has that host port; and the last thing that was done was to ask the kernel
  -- whether the port can be bound, and it can.
  pub allocate_host_port_lem :
      (node_id : Str) (preferred port : ℤ) (keys : List Str) (w v : World r)
      → Calm e
      → scan_keys e pod_key_pattern w ≡ (ok keys, v)
      → (allocate_host_port e os node_id preferred w).0 ≡ ok port
      → (pos 20000 ≤ℤ port)
        × (port ≤ℤ pos 60000)
        × All (λ key. ¬ Claims node_id port (r.hgetall v.db key)) keys
        × ((t : ℕ) × (os.can_bind t port ≡ true)
            × ((allocate_host_port e os node_id preferred w).1.tick ≡ suc t))
  unfolding allocate_host_port claimed_ports ◌>>=◌
  allocate_host_port_lem node_id preferred port keys w v calm scanned p =
      let (u, q, same) =
        (Reads-collect (λ key db. claim_of node_id (r.hgetall db key)) (claim e os node_id) keys
            (claim-Reads calm node_id)).at
          v in
      let claimed = concat_map (λ key. claim_of node_id (r.hgetall v.db key)) keys in
      let ((low, high, open_port), last) =
        first_free_lem claimed (candidates preferred) port u (rw (scanned, q) at p) in
      (
        low,
        high,
        unclaimed_pods node_id port (λ key. r.hgetall v.db key) keys low
            (any-concat_map (eq_ℤ port) _ keys open_port),
        rw (scanned, q) last,
      )

  first_free-head :
      (claimed ports : List ℤ) (port : ℤ) (w : World r)
      → passed_over claimed port ≡ false
      → os.can_bind w.tick port ≡ true
      → (first_free e os claimed (port ∷ ports) w).0 ≡ ok port
  unfolding first_free ◌>>=◌ observe pure
  first_free-head claimed ports port w unclaimed free = rw (unclaimed, free)

  -- The port that the deployment asks for is the one that its pod gets, when it is in the range,
  -- unclaimed, and can be bound at the tick after the pods were read.
  pub allocate_host_port-preferred :
      (node_id : Str) (preferred : ℤ) (w w' : World r) (claimed : List ℤ)
      → claimed_ports e os node_id w ≡ (ok claimed, w')
      → passed_over claimed preferred ≡ false
      → os.can_bind w'.tick preferred ≡ true
      → (allocate_host_port e os node_id preferred w).0 ≡ ok preferred
  unfolding allocate_host_port ◌>>=◌
  allocate_host_port-preferred node_id preferred w w' claimed p unclaimed free =
      let (ports, q) = candidates-preferred preferred claimed unclaimed in
      rw (p, q) (first_free-head claimed ports preferred w' unclaimed free)
