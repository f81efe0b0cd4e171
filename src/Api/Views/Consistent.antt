-- ===== src/Api/Views/Consistent.antt =====
-- internal/api/dashboard.go: the counts of a snapshot are those of the pods that it shows.
use orchestration.Prelude.{
  ◌+◌, ◌≡◌, refl, ◌∙◌, Bool, true, false, ◌&&◌, List, [], ◌∷◌, if◌then◌else◌, arith, All, All-map,
  keep, length, Bool-cases, inl, inr,
}
use orchestration.Prelude.Text.{Str, str_lt_total, str_lt_irrefl, str_eq, str_eq_iff}
use orchestration.Prelude.Sort.{IsStrictWeak, IsSorted, sort_by-IsSorted, sort_by-All}
use orchestration.Redis.{Redis, Hash}
use orchestration.Client.{Env}
use orchestration.Client.Returns.{
  Returns, Any, Returns-Any, Returns-pure, Returns-bind, Returns-collect, Returns-handle,
}
use orchestration.Scheduler.Order.{str_lt-IsStrictWeak}
use orchestration.Schema.Codec.{NodeCapacity}
use orchestration.Schema.Fields.{status_running}
use orchestration.Api.Views.{
  NodeView, DeploymentView, PodView, StateSnapshot, Counts, bump, count_of, tally, shown_before,
  pod_views, node_views, node_view, node_read, with_lease, deployment_views, deployment_view,
  snapshot,
}

abbrev pub on_node : Str → PodView → Bool
on_node node_id pod = str_eq pod.node_id node_id

abbrev pub runs : Str → PodView → Bool
runs name pod = str_eq pod.deployment name && str_eq pod.status status_running

apart : (n name m : Str) → str_eq n name ≡ false → str_eq name m ≡ true → str_eq n m ≡ false
apart n name m e h = rw (← (str_eq_iff name m).0 h) e

count_of-bump :
    (name m : Str) (counts : Counts)
    → count_of m (bump name counts) ≡ (if str_eq name m then 1 else 0) + count_of m counts
unfolding count_of bump
count_of-bump name m [] = ground arith
count_of-bump name m ((n, k) ∷ counts) = elim (Bool-cases (str_eq n name)) [
  | inl e ↦ rw e (bumped e)
  | inr e ↦ rw e (passed (count_of-bump name m counts) e)
]
  where
    bumped :
        str_eq n name ≡ true
        → (if str_eq n m then k + 1 else count_of m counts)
          ≡ (if str_eq name m then 1 else 0) + (if str_eq n m then k else count_of m counts)
    bumped e = rw (← (str_eq_iff n name).0 e) (ground arith)

    passed :
        count_of m (bump name counts) ≡ (if str_eq name m then 1 else 0) + count_of m counts
        → str_eq n name ≡ false
        → (if str_eq n m then k else count_of m (bump name counts))
          ≡ (if str_eq name m then 1 else 0) + (if str_eq n m then k else count_of m counts)
    passed ih e = ground (arith, ih, apart n name m e)

count_of-tally_nodes :
    (m : Str) (pods : List PodView) (by_node ready : Counts)
    → count_of m (tally pods (by_node, ready)).0
      ≡ count_of m by_node + length (keep (on_node m) pods)
unfolding tally
count_of-tally_nodes m [] by_node ready = omega arith
count_of-tally_nodes m (pod ∷ pods) by_node ready =
    count_of-tally_nodes m pods (bump pod.node_id by_node)
      (if str_eq pod.status status_running then bump pod.deployment ready else ready)
    ∙ ground (arith, count_of-bump pod.node_id m by_node)

count_of-tally_ready :
    (m : Str) (pods : List PodView) (by_node ready : Counts)
    → count_of m (tally pods (by_node, ready)).1 ≡ count_of m ready + length (keep (runs m) pods)
unfolding tally
count_of-tally_ready m [] by_node ready = omega arith
count_of-tally_ready m (pod ∷ pods) by_node ready =
    count_of-tally_ready m pods (bump pod.node_id by_node)
      (if str_eq pod.status status_running then bump pod.deployment ready else ready)
    ∙ ground (arith, count_of-bump pod.deployment m ready)

tallied_nodes :
    (m : Str) (pods : List PodView)
    → count_of m (tally pods ([], [])).0 ≡ length (keep (on_node m) pods)
unfolding count_of
tallied_nodes m pods = omega (arith, count_of-tally_nodes m pods [] [])

tallied_ready :
    (m : Str) (pods : List PodView)
    → count_of m (tally pods ([], [])).1 ≡ length (keep (runs m) pods)
unfolding count_of
tallied_ready m pods = omega (arith, count_of-tally_ready m pods [] [])

-- What one snapshot says of the same pods agrees: a node's count of pods, a deployment's count of
-- ready replicas, and the list of the pods, which is sorted by deployment and id.
pub record IsConsistent (s : StateSnapshot) : Type 0 where
  pub node_counts : All (λ n. n.pod_count ≡ length (keep (on_node n.node_id) s.pods)) s.nodes
  pub ready_counts : All (λ d. d.ready_replicas ≡ length (keep (runs d.name) s.pods)) s.deployments
  pub sorted : IsSorted shown_before s.pods

shown_before-IsStrictWeak : IsStrictWeak shown_before
unfolding shown_before
shown_before-IsStrictWeak = record {
  asym = λ x y h. ground (
    arith,
    str_lt-IsStrictWeak.asym x.deployment y.deployment,
    str_lt-IsStrictWeak.asym x.pod_id y.pod_id,
    str_eq_iff x.deployment y.deployment,
    str_eq_iff y.deployment x.deployment,
    h,
  );
  neg_trans = λ x y z h k. ground (
    arith,
    str_eq_iff z.deployment y.deployment,
    str_eq_iff y.deployment x.deployment,
    str_eq_iff z.deployment x.deployment,
    str_lt-IsStrictWeak.neg_trans x.deployment y.deployment z.deployment,
    str_lt-IsStrictWeak.neg_trans x.pod_id y.pod_id z.pod_id,
    str_lt_total y.deployment x.deployment,
    str_lt_total z.deployment y.deployment,
    str_lt_total z.deployment x.deployment,
    str_lt_irrefl x.deployment,
    h,
    k,
  );
}

module _ {r : Redis} (e : Env r) where
  pod_views-Returns : Returns (λ pods. IsSorted shown_before pods) (pod_views e)
  unfolding pod_views
  pod_views-Returns = Returns-bind Any _ _ (Returns-Any _) λ keys _.
      Returns-bind Any _ _ (Returns-Any _)
        λ views _. Returns-pure _ (sort_by-IsSorted shown_before shown_before-IsStrictWeak views)

  abbrev Counted : Counts → List NodeView → Type 0
  Counted by_node views = All (λ n. n.pod_count ≡ count_of n.node_id by_node) views

  with_lease-Returns :
      (by_node : Counts) (id : Str) (c : NodeCapacity)
      → Returns (Counted by_node) (with_lease e by_node id c)
  unfolding with_lease
  with_lease-Returns by_node id c =
      Returns-bind Any _ _ (Returns-Any _) λ ready _. Returns-pure _ (refl, tt)

  node_read-Returns :
      (by_node : Counts) (id : Str) (h : Hash)
      → Returns (Counted by_node) (node_read e by_node id h)
  unfolding node_read
  node_read-Returns by_node id [] = Returns-pure [] tt
  node_read-Returns by_node id (f ∷ fields) =
      Returns-handle _ _ _ (λ c _. with_lease-Returns by_node id c) (λ _. Returns-pure [] tt)

  node_view-Returns :
      (by_node : Counts) (id : Str) → Returns (Counted by_node) (node_view e by_node id)
  unfolding node_view
  node_view-Returns by_node id = Returns-bind Any _ _ (Returns-Any _) λ fields _.
      Returns-handle _ _ _ (λ h _. node_read-Returns by_node id h) (λ _. Returns-pure [] tt)

  node_views-Returns : (by_node : Counts) → Returns (Counted by_node) (node_views e by_node)
  unfolding node_views
  node_views-Returns by_node =
      Returns-bind Any _ _ (Returns-Any _)
        λ registered _. Returns-collect _ _ _ (node_view-Returns by_node)

  abbrev Readied : Counts → List DeploymentView → Type 0
  Readied ready views = All (λ d. d.ready_replicas ≡ count_of d.name ready) views

  deployment_views-Returns : (ready : Counts) → Returns (Readied ready) (deployment_views e ready)
  unfolding deployment_views deployment_view
  deployment_views-Returns ready = Returns-bind Any _ _ (Returns-Any _) λ deps _.
      Returns-bind (Readied ready) _ _
        (Returns-collect _ _ _
          λ dep. Returns-bind Any _ _ (Returns-Any _) λ cpu _. Returns-pure _ (refl, tt))
        λ views h. Returns-pure _ (sort_by-All _ _ views h)

  -- Every snapshot that is returned is consistent, whatever fails and whatever other processes write
  -- while it is read.
  pub snapshot-IsConsistent : Returns IsConsistent (snapshot e)
  unfolding snapshot
  snapshot-IsConsistent = Returns-bind _ _ _ pod_views-Returns λ pods sorted.
      Returns-bind _ _ _ (node_views-Returns (tally pods ([], [])).0) λ nodes n.
        Returns-bind _ _ _ (deployment_views-Returns (tally pods ([], [])).1) λ deployments d.
          Returns-pure _ (record {
            node_counts = All-map (λ v p. p ∙ tallied_nodes v.node_id pods) nodes n;
            ready_counts = All-map (λ v p. p ∙ tallied_ready v.name pods) deployments d;
            sorted = sorted;
          })
