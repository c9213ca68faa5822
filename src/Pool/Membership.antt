-- ===== src/Pool/Membership.antt =====
-- The members of the pool after an update.
use latency_aware_inference.Common.{
  ◌≡◌, refl, ap, subst, ◌∙◌, Bool, true, false, ◌&&◌, ◌||◌, String, str_eq, str_eq_iff, List, [],
  ◌∷◌, ◌++◌, select, if◌then◌else◌, if_cases, Bool-cases, inl, inr, arith, ◌+◌,
}
use latency_aware_inference.Proxy.{GrpcWorker, set_routing_state, update_state_metrics, new_worker}
use latency_aware_inference.Pool.{
  WorkerInfo, Pool, listed, member, set_state_of, admit, admit_all, update_workers,
}

set_state_of-member :
    (id name state : String) (ws : List GrpcWorker)
    → member id (set_state_of name state ws) ≡ member id ws
unfolding set_routing_state update_state_metrics
set_state_of-member id name state [] = refl
set_state_of-member id name state (w ∷ ws) =
    if_cases (λ (x : List GrpcWorker). member id x ≡ member id (w ∷ ws)) (str_eq w.worker_id name) _
      _ (λ _. refl)
      (λ _. ap (λ b. str_eq w.worker_id id || b) (set_state_of-member id name state ws))

append-member :
    (id : String) (w : GrpcWorker) (ws : List GrpcWorker)
    → member id (ws ++ w ∷ []) ≡ (member id ws || str_eq w.worker_id id)
append-member id w [] = ground arith
append-member id w (v ∷ ws) = ground (arith, append-member id w ws)

-- A name that is the same as a member's is a member.
member_same :
    (id name : String) (ws : List GrpcWorker)
    → member name ws ≡ true
    → str_eq name id ≡ true
    → member id ws ≡ true
member_same id name ws m e = subst (λ x. member x ws ≡ true) ((str_eq_iff name id).0 e) m

admit-member :
    (id name : String) (info : WorkerInfo) (p : Pool)
    → member id (admit name info p).workers ≡ (member id p.workers || str_eq name id)
unfolding admit new_worker update_state_metrics
admit-member id name info p =
    set_state_of-member id name info.state (grown (member name p.workers)).workers
    ∙ if_cases (λ (x : Pool). member id x.workers ≡ (member id p.workers || str_eq name id))
        (member name p.workers) _ _ known
        (λ _. append-member id (new_worker p.next_identity name info.address) p.workers)
  where
    grown : Bool → Pool
    grown b = if b then p else record p {
      workers = p.workers ++ new_worker p.next_identity name info.address ∷ [];
      next_identity = p.next_identity + 1;
    }

    known :
        member name p.workers ≡ true → member id p.workers ≡ (member id p.workers || str_eq name id)
    known m = elim (Bool-cases (str_eq name id)) [
      | inl e ↦ ground (arith, e, member_same id name p.workers m e)
      | inr e ↦ ground (arith, e)
    ]

select-member :
    (id : String) (snapshot : List (String × WorkerInfo)) (ws : List GrpcWorker)
    → member id (select (λ w. listed w.worker_id snapshot) ws)
      ≡ (member id ws && listed id snapshot)
select-member id snapshot [] = refl
select-member id snapshot (w ∷ ws) =
    if_cases (λ (x : List GrpcWorker). member id x ≡ (member id (w ∷ ws) && listed id snapshot))
      (listed w.worker_id snapshot) _ _
      (λ e. elim (Bool-cases (str_eq w.worker_id id)) [
        | inl same ↦ ground (arith, e, same, alike same, select-member id snapshot ws)
        | inr other ↦ ground (arith, other, select-member id snapshot ws)
      ])
      (λ e. elim (Bool-cases (str_eq w.worker_id id)) [
        | inl same ↦ ground (arith, e, same, alike same, select-member id snapshot ws)
        | inr other ↦ ground (arith, other, select-member id snapshot ws)
      ])
  where
    alike : str_eq w.worker_id id ≡ true → listed w.worker_id snapshot ≡ listed id snapshot
    alike same = ap (λ x. listed x snapshot) ((str_eq_iff w.worker_id id).0 same)

admit_all-member :
    (id : String) (snapshot : List (String × WorkerInfo)) (p : Pool)
    → member id (admit_all snapshot p).workers ≡ (member id p.workers || listed id snapshot)
unfolding admit_all
admit_all-member id [] p = ground arith
admit_all-member id ((name, info) ∷ rest) p =
    ground (arith, admit_all-member id rest (admit name info p), admit-member id name info p)

-- An update of a pool that is not stopping leaves exactly the workers of the snapshot as members.
pub update_workers-member :
    (id : String) (snapshot : List (String × WorkerInfo)) (p : Pool)
    → p.stopping ≡ false
    → member id (update_workers snapshot p).0.workers ≡ listed id snapshot
unfolding update_workers
update_workers-member id snapshot p s = rw s (
    ground (
      arith,
      select-member id snapshot (admit_all snapshot p).workers,
      admit_all-member id snapshot p,
    ))
