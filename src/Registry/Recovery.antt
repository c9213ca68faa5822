-- ===== src/Registry/Recovery.antt =====
-- Rounds of the registration loop.
use latency_aware_inference.Common.{
  ℕ, ◌≡◌, ◌⊎◌, refl, ap, subst, ◌∙◌, Bool, true, false, not, ◌&&◌, ◌||◌, Option, none, some, String,
  str_eq, str_eq_iff, List, All, arith, if_cases, Bool-cases, inl, inr, ◌==◌, ==_iff,
}
use latency_aware_inference.Common.Result.{ok}
use latency_aware_inference.Registry.{
  Metadata, Node, Nodes, WorkerRegistry, applied, ZooKeeper, same_option, same_id, same_content,
  Attempt, adopt, claim, ensure_node, metadata, Site, ensure_registered, pending, restore,
}
use latency_aware_inference.Registry.Ownership.{
  same_id_refl, Event, events, EventLeaves, events-kept,
}

same_address : (a b : Option String) → same_option str_eq a b ≡ true → a ≡ b
same_address none none e = refl
same_address none (some t) e = absurd (cc e)
same_address (some s) none e = absurd (cc e)
same_address (some s) (some t) e = ap some ((str_eq_iff s t).0 e)

same_content_lem : (m n : Metadata) → same_content m n ≡ true → m ≡ n
same_content_lem m n e =
    let address : m.address ≡ n.address = same_address m.address n.address (ground (arith, e)) in
    let state : m.state ≡ n.state = (str_eq_iff m.state n.state).0 (ground (arith, e)) in
    cc (address, state)

-- A session whose requests succeed, where the node is its own or there is none, and where the
-- other sessions leave its nodes.
pub record IsClear (z : ZooKeeper) (id : Option ℕ) (nodes : Nodes) : Type 0 where
  pub path : z.path_fails ≡ false
  pub create : z.create ≡ applied
  pub get : z.get_fails ≡ false
  pub set : z.set ≡ applied
  pub free :
      (z.before_create nodes id ≡ none)
      ⊎ ((m : Node) × ((z.before_create nodes id ≡ some m) × ((m.owner == z.session) ≡ true)))
  pub get_kept :
      (x : Nodes) (m : Node)
      → x id ≡ some m
      → (m.owner == z.session) ≡ true
      → z.before_get x id ≡ some m
  pub set_kept :
      (x : Nodes) (m : Node)
      → x id ≡ some m
      → (m.owner == z.session) ≡ true
      → z.before_set x id ≡ some m

module _ (z : ZooKeeper) (id : Option ℕ) (content : Metadata) where
  abbrev own : Node
  own = record { content = content; owner = z.session }

  -- The attempt succeeds, and leaves the node of this session.
  abbrev Owns : Attempt → Type 0
  Owns x = (x.0 ≡ ok tt) × (x.1 id ≡ some own)

  adopt-Owns :
      (nodes : Nodes) (m : Node)
      → z.set ≡ applied
      → nodes id ≡ some m
      → (m.owner == z.session) ≡ true
      → z.before_set nodes id ≡ some m
      → Owns (adopt z id content nodes (some m))
  unfolding adopt
  adopt-Owns nodes m s a o k = elim (Bool-cases (same_content m.content content)) [
    | inl e ↦
        let same : m ≡ own =
          cc (same_content_lem m.content content e, (==_iff m.owner z.session).0 o) in
        rw (o, e) (refl, a ∙ ap some same)
    | inr e ↦
        let owner : m.owner ≡ z.session = (==_iff m.owner z.session).0 o in
        rw (o, e, k, s, same_id_refl id) (refl, cc owner)
  ]

  ensure_node-Owns : (nodes : Nodes) → IsClear z id nodes → Owns (ensure_node z id content nodes)
  unfolding ensure_node
  ensure_node-Owns nodes c = rw c.path (claimed (z.before_create nodes id) refl c.free)
    where
      claimed :
          (o : Option Node)
          → z.before_create nodes id ≡ o
          → (z.before_create nodes id ≡ none)
            ⊎ ((m : Node) × ((z.before_create nodes id ≡ some m) × ((m.owner == z.session) ≡ true)))
          → Owns (claim z id content (z.before_create nodes) o)
      claimed none a f = rw (c.create, same_id_refl id) (refl, refl)
      claimed (some m) a (inl e) = absurd (cc (a, e))
      claimed (some m) a (inr (m', (e, o'))) =
          let same : m' ≡ m = cc (a, e) in
          let o = subst (λ (x : Node). (x.owner == z.session) ≡ true) same o' in
          let g = c.get_kept (z.before_create nodes) m a o in
          rw (c.create, c.get, g)
            (adopt-Owns (z.before_get (z.before_create nodes)) m c.set g o (c.set_kept _ m g o))

-- The registry is recorded as registered in this session, with its own node.
pub record IsRegistered (session : ℕ) (r : WorkerRegistry) (s : Site) : Type 0 where
  pub node : s.nodes r.worker_id ≡ some (record { content = metadata r; owner = session })
  pub noted : s.registry ≡ record r { registered_session = some session }

ensure_registered-IsRegistered :
    (z : ZooKeeper) (r : WorkerRegistry) (nodes : Nodes)
    → IsClear z r.worker_id nodes
    → IsRegistered z.session r (pending (ensure_registered z r nodes))
unfolding ensure_registered
ensure_registered-IsRegistered z r nodes c =
    let (e, a) = ensure_node-Owns z r.worker_id (metadata r) nodes c in
    record { node = rw e a; noted = rw e refl }

-- A round of the loop that has something to restore.
pub record IsDue (is_changed : Bool) (z : ZooKeeper) (w : ℕ) (s : Site) : Type 0 where
  pub running : s.registry.is_stopped ≡ false
  pub named : s.registry.worker_id ≡ some w
  pub due : (is_changed || not (same_id s.registry.registered_session (some z.session))) ≡ true
  pub clear : IsClear z s.registry.worker_id s.nodes

restore-IsRegistered :
    (is_changed : Bool) (z : ZooKeeper) (w : ℕ) (s : Site)
    → IsDue is_changed z w s
    → IsRegistered z.session s.registry (restore is_changed true z s)
unfolding restore
restore-IsRegistered is_changed z w s d =
    if_cases P (s.registry.is_stopped || not true) _ _ (λ e. absurd (ground (arith, e, d.running)))
      (λ _.
        if_cases P (same_id s.registry.worker_id none) _ _
          (λ e. absurd (unnamed s.registry.worker_id d.named e))
          (λ _.
            if_cases P (not is_changed && same_id s.registry.registered_session (some z.session)) _
              _ (λ e. absurd (ground (arith, e, d.due)))
              (λ _. ensure_registered-IsRegistered z s.registry s.nodes d.clear)))
  where
    P : Site → Type 0
    P = IsRegistered z.session s.registry

    unnamed : (o : Option ℕ) → o ≡ some w → same_id o none ≡ true → ⊥
    unnamed none n e = absurd (cc n)
    unnamed (some v) n e = absurd (cc e)

-- Through any sequence of registrations, state changes, rounds of recovery and deregistrations,
-- whatever requests fail and whatever other sessions do between them, a node of another session
-- stays as it is while those sessions leave it. And after such a sequence a round of recovery
-- whose requests succeed gives the worker, unless its identity is taken or it is deregistered, its
-- own node with its current address and state, and records the session.
pub events-restored :
    (es : List Event) (s : Site) (k : Option ℕ) (n : Node) (is_changed : Bool) (z : ZooKeeper)
    (w : ℕ)
    → All (EventLeaves k n) es
    → s.nodes k ≡ some n
    → IsDue is_changed z w (events es s)
    → ((events es s).nodes k ≡ some n)
      × IsRegistered z.session (events es s).registry (restore is_changed true z (events es s))
events-restored es s k n is_changed z w l h d =
    (events-kept k n es s l h, restore-IsRegistered is_changed z w (events es s) d)
