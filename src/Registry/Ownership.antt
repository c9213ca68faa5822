-- ===== src/Registry/Ownership.antt =====
-- The nodes of other sessions, and the worker's own.
use latency_aware_inference.Common.{
  ℕ, ◌≡◌, ◌⊎◌, refl, sym, ap, subst, ◌∙◌, Bool, true, false, not, ◌&&◌, ◌||◌, Option, none, some,
  String, List, [], ◌∷◌, All, arith, if_cases, Bool-cases, inl, inr, ◌==◌, ==_iff, ==_refl,
}
use latency_aware_inference.Common.Result.{Result, ok, raised}
use latency_aware_inference.Registry.{
  Metadata, Node, Nodes, WorkerRegistry, RegistryError, Write, applied, refused, lost, ZooKeeper,
  same_id, same_content, write, Attempt, replace, adopt, is_answered, claim, ensure_node, metadata,
  Site, ensure_registered, pending, register, set_state, restore, deregister,
}

pub same_id_refl : (id : Option ℕ) → same_id id id ≡ true
same_id_refl none = refl
same_id_refl (some n) = ==_refl n

same_id_lem : (id k : Option ℕ) → same_id id k ≡ true → id ≡ k
same_id_lem none none e = refl
same_id_lem none (some n) e = absurd (cc e)
same_id_lem (some m) none e = absurd (cc e)
same_id_lem (some m) (some n) e = ap some ((==_iff m n).0 e)

-- The node `n` at `k` stays through the change.
abbrev Keeps : Option ℕ → Node → (Nodes → Nodes) → Type 0
Keeps k n f = (nodes : Nodes) → nodes k ≡ some n → f nodes k ≡ some n

-- What the other sessions do leaves the node at `k`, of another session, and the own nodes.
pub record Leaves (k : Option ℕ) (n : Node) (z : ZooKeeper) : Type 0 where
  pub foreign : (n.owner == z.session) ≡ false
  pub create_kept : (nodes : Nodes) → nodes k ≡ some n → z.before_create nodes k ≡ some n
  pub get_kept : (nodes : Nodes) → nodes k ≡ some n → z.before_get nodes k ≡ some n
  pub set_kept : (nodes : Nodes) → nodes k ≡ some n → z.before_set nodes k ≡ some n
  pub own_kept :
      (nodes : Nodes) (j : Option ℕ) (m : Node)
      → nodes j ≡ some m
      → (m.owner == z.session) ≡ true
      → z.before_set nodes j ≡ some m

module _ (k : Option ℕ) (n : Node) where
  -- A write elsewhere keeps the node.
  write-kept :
      (w : Write) (id : Option ℕ) (m : Node) (nodes : Nodes)
      → nodes k ≡ some n
      → same_id id k ≡ false
      → (write w id m nodes).1 k ≡ some n
  write-kept applied id m nodes h e = rw e h
  write-kept refused id m nodes h e = h
  write-kept lost id m nodes h e = rw e h

  elsewhere :
      (id : Option ℕ) (nodes : Nodes) (session : ℕ) (o : Option Node)
      → nodes id ≡ o
      → nodes k ≡ some n
      → (n.owner == session) ≡ false
      → (o ≡ none) ⊎ ((m : Node) × ((o ≡ some m) × ((m.owner == session) ≡ true)))
      → same_id id k ≡ false
  elsewhere id nodes session o a h f c = elim (Bool-cases (same_id id k)) [
    | inr e ↦ e
    | inl e ↦ absurd (taken c (sym a ∙ ap nodes (same_id_lem id k e) ∙ h))
  ]
    where
      taken :
          (o ≡ none) ⊎ ((m : Node) × ((o ≡ some m) × ((m.owner == session) ≡ true)))
          → o ≡ some n
          → ⊥
      taken (inl z) g = absurd (cc (z, g))
      taken (inr (m, (z, t))) g =
          let same : m ≡ n = cc (z, g) in
          let t' = subst (λ (x : Node). (x.owner == session) ≡ true) same t in absurd (cc (t', f))

  adopt-kept :
      (z : ZooKeeper) (id : Option ℕ) (content : Metadata) (nodes : Nodes) (o : Option Node)
      → Leaves k n z
      → nodes id ≡ o
      → nodes k ≡ some n
      → (adopt z id content nodes o).1 k ≡ some n
  unfolding adopt
  adopt-kept z id content nodes none l a h = h
  adopt-kept z id content nodes (some m) l a h =
      if_cases (λ (x : Attempt). x.1 k ≡ some n) (not (m.owner == z.session)) _ _ (λ _. h)
        (λ e.
          if_cases (λ (x : Attempt). x.1 k ≡ some n) (same_content m.content content) _ _ (λ _. h)
            (λ _. replaced (own e)))
    where
      own : not (m.owner == z.session) ≡ false → (m.owner == z.session) ≡ true
      own e = ground (arith, e)

      replaced :
          (m.owner == z.session) ≡ true
          → (replace z id content (z.before_set nodes) (z.before_set nodes id)).1 k ≡ some n
      replaced e =
          let at : z.before_set nodes id ≡ some m = l.own_kept nodes id m a e in
          rw at (
            write-kept z.set id (record m { content = content }) (z.before_set nodes)
              (l.set_kept nodes h)
              (elsewhere id (z.before_set nodes) z.session (some m) at (l.set_kept nodes h)
                l.foreign (inr (m, (refl, e)))))

  claim-kept :
      (z : ZooKeeper) (id : Option ℕ) (content : Metadata) (nodes : Nodes) (o : Option Node)
      → Leaves k n z
      → nodes id ≡ o
      → nodes k ≡ some n
      → (claim z id content nodes o).1 k ≡ some n
  claim-kept z id content nodes none l a h =
      write-kept z.create id (record { content = content; owner = z.session }) nodes h
        (elsewhere id nodes z.session none a h l.foreign (inl refl))
  claim-kept z id content nodes (some m) l a h =
      let nodes' = z.before_get nodes in
      if_cases (λ (x : Attempt). x.1 k ≡ some n) (is_answered z.create) _ _
        (λ _.
          if_cases (λ (x : Attempt). x.1 k ≡ some n) z.get_fails _ _ (λ _. l.get_kept nodes h)
            (λ _. adopt-kept z id content nodes' (nodes' id) l refl (l.get_kept nodes h)))
        (λ _. h)

  ensure_node-kept :
      (z : ZooKeeper) (id : Option ℕ) (content : Metadata) (nodes : Nodes)
      → Leaves k n z
      → nodes k ≡ some n
      → (ensure_node z id content nodes).1 k ≡ some n
  unfolding ensure_node
  ensure_node-kept z id content nodes l h =
      let nodes' = z.before_create nodes in
      if_cases (λ (x : Attempt). x.1 k ≡ some n) z.path_fails _ _ (λ _. h)
        (λ _. claim-kept z id content nodes' (nodes' id) l refl (l.create_kept nodes h))

  ensure_registered-kept :
      (z : ZooKeeper) (r : WorkerRegistry) (nodes : Nodes)
      → Leaves k n z
      → nodes k ≡ some n
      → (ensure_registered z r nodes).1.nodes k ≡ some n
  unfolding ensure_registered
  ensure_registered-kept z r nodes l h = ensure_node-kept z r.worker_id (metadata r) nodes l h

  pending-nodes : (x : Result RegistryError (Unit {0}) × Site) → (pending x).nodes ≡ x.1.nodes
  pending-nodes (ok u, s) = refl
  pending-nodes (raised e, s) = refl

-- The operations of the registry, and what other sessions do between them.
pub data Event : Type 0 where
  registers : ZooKeeper → ℕ → String → Event
  sets_state : ZooKeeper → String → Event
  restores : Bool → Bool → ZooKeeper → Event
  deregisters : ℕ → Event
  others : (Nodes → Nodes) → Event

unfoldable pub event : Event → Site → Site
unfolding register set_state restore deregister
event (registers z id address) s = (register z id address s).1
event (sets_state z state) s = (set_state z state s).1
event (restores is_changed is_connected z) s = restore is_changed is_connected z s
event (deregisters session) s = deregister session s
event (others f) s = record s { nodes = f s.nodes }

unfoldable pub events : List Event → Site → Site
unfolding event
events [] s = s
events (e ∷ rest) s = events rest (event e s)

unfoldable pub EventLeaves : Option ℕ → Node → Event → Type 0
EventLeaves k n (registers z id address) = Leaves k n z
EventLeaves k n (sets_state z state) = Leaves k n z
EventLeaves k n (restores is_changed is_connected z) = Leaves k n z
EventLeaves k n (deregisters session) = (n.owner == session) ≡ false
EventLeaves k n (others f) = (nodes : Nodes) → nodes k ≡ some n → f nodes k ≡ some n

module _ (k : Option ℕ) (n : Node) where
  pending-kept :
      (z : ZooKeeper) (r : WorkerRegistry) (nodes : Nodes)
      → Leaves k n z
      → nodes k ≡ some n
      → (pending (ensure_registered z r nodes)).nodes k ≡ some n
  pending-kept z r nodes l h =
      subst (λ (x : Nodes). x k ≡ some n) (sym (pending-nodes k n (ensure_registered z r nodes)))
        (ensure_registered-kept k n z r nodes l h)

  event-kept :
      (e : Event) (s : Site) → EventLeaves k n e → s.nodes k ≡ some n → (event e s).nodes k ≡ some n
  unfolding event EventLeaves
  event-kept (registers z id address) s l h =
      if_cases (λ (x : Result RegistryError (Unit {0}) × Site). x.1.nodes k ≡ some n)
        s.registry.is_stopped _ _ (λ _. h)
        (λ _.
          pending-kept z (record s.registry { worker_id = some id; address = some address }) s.nodes
            l h)
  event-kept (sets_state z state) s l h =
      if_cases (λ (x : Result RegistryError (Unit {0}) × Site). x.1.nodes k ≡ some n)
        s.registry.is_stopped _ _ (λ _. h)
        (λ _. ensure_registered-kept k n z (record s.registry { state = state }) s.nodes l h)
  event-kept (restores is_changed is_connected z) s l h =
      if_cases (λ (x : Site). x.nodes k ≡ some n) (s.registry.is_stopped || not is_connected) _ _
        (λ _. h)
        (λ _.
          if_cases (λ (x : Site). x.nodes k ≡ some n) (same_id s.registry.worker_id none) _ _
            (λ _. h)
            (λ _.
              if_cases (λ (x : Site). x.nodes k ≡ some n)
                (not is_changed && same_id s.registry.registered_session (some z.session)) _ _
                (λ _. h) (λ _. pending-kept z s.registry s.nodes l h)))
  event-kept (deregisters session) s l h =
      if_cases (λ (x : Site). x.nodes k ≡ some n) s.registry.is_stopped _ _ (λ _. h)
        (λ _. rw (h, l) refl)
  event-kept (others f) s l h = l s.nodes h

  pub events-kept :
      (es : List Event) (s : Site)
      → All (EventLeaves k n) es
      → s.nodes k ≡ some n
      → (events es s).nodes k ≡ some n
  unfolding events
  events-kept [] s l h = h
  events-kept (e ∷ es) s l h = events-kept es (event e s) l.1 (event-kept e s l.0 h)
