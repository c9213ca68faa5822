-- ===== src/Registry.antt =====
-- system/zookeeper_registry.py: `WorkerRegistry`. The nodes of the workers are a function from the
-- identity in a node's name. ZooKeeper's answers to one registration are a record: which of the
-- four requests fail, whether a write that fails is applied all the same, and what other sessions
-- do before each request. The lock of the registry makes each operation one step of this process.
pub mod Ownership
pub mod Recovery
use latency_aware_inference.Common.{
  ℕ, Bool, true, false, not, ◌&&◌, ◌||◌, Option, none, some, String, str_eq, List, [], ◌∷◌, ◌==◌,
  if◌then◌else◌,
}
use latency_aware_inference.Common.Result.{Result, ok, raised}

-- The JSON of a node, and its `ephemeralOwner`.
pub record Metadata : Type 0 where
  pub address : Option String
  pub state : String

pub record Node : Type 0 where
  pub content : Metadata
  pub owner : ℕ

abbrev pub Nodes : Type 0
Nodes = Option ℕ → Option Node

pub record WorkerRegistry : Type 0 where
  pub worker_id : Option ℕ
  pub address : Option String
  pub registered_session : Option ℕ
  pub state : String
  pub is_stopped : Bool

-- `WorkerRegistry.__init__`
abbrev pub new_registry : WorkerRegistry
new_registry = record {
  worker_id = none;
  address = none;
  registered_session = none;
  state = "READY";
  is_stopped = false;
}

pub data RegistryError : Type 0 where
  node_exists no_node unavailable closed : RegistryError

-- How a write ends: applied, or with an exception, before or after it is applied.
pub data Write : Type 0 where
  applied refused lost : Write

pub record ZooKeeper : Type 0 where
  pub session : ℕ
  pub path_fails : Bool
  pub create : Write
  pub get_fails : Bool
  pub set : Write
  pub before_create : Nodes → Nodes
  pub before_get : Nodes → Nodes
  pub before_set : Nodes → Nodes

abbrev pub same_option : {A : Type 0} → (A → A → Bool) → Option A → Option A → Bool
same_option eq none none = true
same_option eq none (some b) = false
same_option eq (some a) none = false
same_option eq (some a) (some b) = eq a b

abbrev pub same_id : Option ℕ → Option ℕ → Bool
same_id = same_option (λ m n. m == n)

-- `current_data == data`
abbrev pub same_content : Metadata → Metadata → Bool
same_content m n = same_option str_eq m.address n.address && str_eq m.state n.state

abbrev pub with_node : Option ℕ → Node → Nodes → Nodes
with_node id n nodes = λ k. if same_id id k then some n else nodes k

-- A write of the node: the exception, if there is one, and the nodes after it.
abbrev pub write : Write → Option ℕ → Node → Nodes → Result RegistryError (Unit {0}) × Nodes
write applied id n nodes = (ok tt, with_node id n nodes)
write refused id n nodes = (raised unavailable, nodes)
write lost id n nodes = (raised unavailable, with_node id n nodes)

abbrev pub Attempt : Type 0
Attempt = Result RegistryError (Unit {0}) × Nodes

abbrev pub replace : ZooKeeper → Option ℕ → Metadata → Nodes → Option Node → Attempt
replace z id content nodes none = (raised no_node, nodes)
replace z id content nodes (some n) = write z.set id (record n { content = content }) nodes

-- The read after `NodeExistsError`, and the write of this session's node.
unfoldable pub adopt : ZooKeeper → Option ℕ → Metadata → Nodes → Option Node → Attempt
adopt z id content nodes none = (raised no_node, nodes)
adopt z id content nodes (some n) =
    let later = z.before_set nodes in
    if not (n.owner == z.session)
    then (raised node_exists, nodes)
    else if same_content n.content content
    then (ok tt, nodes)
    else replace z id content later (later id)

abbrev pub confirm : ZooKeeper → Option ℕ → Metadata → Nodes → Attempt
confirm z id content nodes =
    if z.get_fails then (raised unavailable, nodes) else adopt z id content nodes (nodes id)

abbrev pub is_answered : Write → Bool
is_answered applied = true
is_answered _ = false

abbrev pub claim : ZooKeeper → Option ℕ → Metadata → Nodes → Option Node → Attempt
claim z id content nodes none =
    write z.create id (record { content = content; owner = z.session }) nodes
claim z id content nodes (some n) =
    if is_answered z.create
    then confirm z id content (z.before_get nodes)
    else (raised unavailable, nodes)

-- `_ensure_registered`, but for `_registered_session`.
unfoldable pub ensure_node : ZooKeeper → Option ℕ → Metadata → Nodes → Attempt
unfolding adopt
ensure_node z id content nodes =
    let later = z.before_create nodes in
    if z.path_fails then (raised unavailable, nodes) else claim z id content later (later id)

abbrev pub metadata : WorkerRegistry → Metadata
metadata r = record { address = r.address; state = r.state }

pub record Site : Type 0 where
  pub registry : WorkerRegistry
  pub nodes : Nodes

abbrev pub noted : ℕ → Result RegistryError (Unit {0}) → WorkerRegistry → WorkerRegistry
noted session (ok _) r = record r { registered_session = some session }
noted session (raised e) r = r

unfoldable pub ensure_registered :
    ZooKeeper → WorkerRegistry → Nodes → Result RegistryError (Unit {0}) × Site
unfolding ensure_node
ensure_registered z r nodes =
    let a = ensure_node z r.worker_id (metadata r) nodes in
    (a.0, record { registry = noted z.session a.0 r; nodes = a.1 })

-- The handler of `KazooException`.
abbrev pub pending : Result RegistryError (Unit {0}) × Site → Site
pending (ok _, s) = s
pending (raised e, s) = record s { registry = record s.registry { registered_session = none } }

unfoldable pub register : ZooKeeper → ℕ → String → Site → Result RegistryError (Unit {0}) × Site
unfolding ensure_registered
register z id address s =
    let r = record s.registry { worker_id = some id; address = some address } in
    if s.registry.is_stopped
    then (raised closed, s)
    else (ok tt, pending (ensure_registered z r s.nodes))

unfoldable pub set_state : ZooKeeper → String → Site → Result RegistryError (Unit {0}) × Site
unfolding ensure_registered
set_state z state s =
    if s.registry.is_stopped
    then (raised closed, s)
    else ensure_registered z (record s.registry { state = state }) s.nodes

-- One round of `_registration_loop`; `is_changed` is what the wait returns.
unfoldable pub restore : Bool → Bool → ZooKeeper → Site → Site
unfolding ensure_registered
restore is_changed is_connected z s =
    let r = s.registry in
    if r.is_stopped || not is_connected
    then s
    else if same_id r.worker_id none
    then s
    else if not is_changed && same_id r.registered_session (some z.session)
    then s
    else pending (ensure_registered z r s.nodes)

-- The close of the session removes its own nodes.
abbrev pub without : ℕ → Option Node → Option Node
without session none = none
without session (some n) = if n.owner == session then none else some n

unfoldable pub deregister : ℕ → Site → Site
deregister session s = if s.registry.is_stopped then s else record {
  registry = record s.registry { is_stopped = true };
  nodes = λ k. without session (s.nodes k);
}
