-- ===== src/Routing.antt =====
-- controller/routing.go: which node answers a request for a session. What other goroutines do while the
-- request waits is the node that it finds afterwards. http.ReverseProxy sends the request to the address.
pub mod Sound
use turnhive.Base.{
  ℕ, Bool, true, false, ◌||◌, Option, none, some, is_some, List, [], ◌∷◌, Bytes, ◌==◌, bytes_eq,
  if◌then◌else◌,
}
use turnhive.Base.Assoc.{lookup}
use turnhive.Registry.{Etcd, Registry, session_owner}
use turnhive.Spec.{SessionSpec}
use turnhive.Node.{Bucket, Node}
use turnhive.Node.Adopt.{
  Adopting, Adopted, adopted, never_existed, claim_lost, adoption_failed, adopt_session,
}

-- The session, whether the request has the header X-Turnhive-Forwarded, and whether it may adopt.
pub record Request : Type 0 where
  pub id : Bytes
  pub forwarded : Bool
  pub may_adopt : Bool

-- What a request meets: an adoption in flight, if any, and whether it ends before the request does; the node
-- after that wait; whether etcd answers the lookup; the adoption; and, behind a claim that was lost, the
-- node, etcd and whether it answers then.
pub record Meets (Store : Type 0) : Type 0 where
  pub in_flight : Option Bool
  pub woken : Node
  pub answers : Bool
  pub adopting : Adopting
  pub later : Node
  pub later_store : Store
  pub later_answers : Bool

pub data Routed : Type 0 where
  here not_found gateway_timeout bad_gateway : Routed
  forwards : Bytes → Request → Routed

abbrev pub hosts : Bytes → Node → Bool
hosts id node = is_some (lookup id node.sessions)

-- proxy: an address without a scheme or a host is refused. The request that it sends has the header.
abbrev pub proxy_to : Request → Bytes → Option (Bytes × Bytes) → Routed
proxy_to q addr none = bad_gateway
proxy_to q addr (some (scheme, host)) =
    if scheme == [] || host == []
    then bad_gateway
    else forwards addr (record q { forwarded = true })

module _ (e : Etcd) (b : Bucket) (encode : SessionSpec → Option Bytes)
    (decode : Bytes → Option SessionSpec) (parse_url : Bytes → Option (Bytes × Bytes))
    (read_node : Bytes → Option Bytes) where
  open e use {Store}
  open b use {Objects}

  unfoldable pub proxy : Request → Bytes → Routed
  proxy q addr = proxy_to q addr (parse_url addr)

  abbrev pub owner_if : Bool → Bytes → Registry → Store → Option (Option Bytes)
  owner_if answers id r store = if answers then session_owner e read_node id r store else none

  abbrev pub found_again : Request → Node → Store → Option (Option Bytes) → Node × Store × Routed
  found_again q node store (some (some addr)) = (node, store, proxy q addr)
  found_again q node store _ = (node, store, not_found)

  abbrev pub recovered : Request → Meets Store → Node × Store × Adopted → Node × Store × Routed
  recovered q m (node, store, adopted) = (node, store, here)
  recovered q m (node, store, never_existed) = (node, store, not_found)
  recovered q m (node, store, adoption_failed) = (node, store, bad_gateway)
  recovered q m (node, store, claim_lost) =
      if hosts q.id m.later
      then (m.later, m.later_store, here)
      else found_again q m.later m.later_store
          (owner_if m.later_answers q.id m.later.registry m.later_store)

  abbrev pub adopt_if :
      Request → Meets Store → Node → Store → Objects → Bool → Node × Store × Routed
  adopt_if q m node store objects true =
      recovered q m (adopt_session e b encode decode parse_url q.id m.adopting node store objects)
  adopt_if q m node store objects false = (node, store, not_found)

  abbrev pub owner_known :
      Request → Meets Store → Node → Store → Objects → Option (Option Bytes) → Node × Store × Routed
  owner_known q m node store objects none = (node, store, bad_gateway)
  owner_known q m node store objects (some (some addr)) = (node, store, proxy q addr)
  owner_known q m node store objects (some none) = adopt_if q m node store objects q.may_adopt

  -- A request that was forwarded before is not forwarded again.
  abbrev pub locate_unless :
      Request → Meets Store → Node → Store → Objects → Bool → Node × Store × Routed
  locate_unless q m node store objects true = (node, store, not_found)
  locate_unless q m node store objects false =
      owner_known q m node store objects (owner_if m.answers q.id node.registry store)

  abbrev pub locate : Request → Meets Store → Node → Store → Objects → Node × Store × Routed
  locate q m node store objects = locate_unless q m node store objects q.forwarded

  abbrev pub after_wait :
      Request → Meets Store → Node → Store → Objects → Option Bool → Node × Store × Routed
  after_wait q m node store objects none = locate q m node store objects
  after_wait q m node store objects (some false) = (node, store, gateway_timeout)
  after_wait q m node store objects (some true) =
      if hosts q.id m.woken then (m.woken, store, here) else locate q m m.woken store objects

  -- routeSessionMode: the node and etcd after it, and where the request goes.
  unfoldable pub route_session :
      Request → Meets Store → Node → Store → Objects → Node × Store × Routed
  route_session q m node store objects =
      if hosts q.id node then (node, store, here) else after_wait q m node store objects m.in_flight
