-- ===== src/Routing/Sound.antt =====
-- Where a request goes: to this node only if it hosts the session, and never twice to another.
use turnhive.Base.{
  ==_ne, ◌≡◌, ◌≢◌, refl, ap, inl, inr, Bool, true, false, Bool-cases, Option, none, some, is_some,
  [], Bytes, ◌==◌, bytes_eq,
}
use turnhive.Base.Assoc.{lookup-insert_self}
use turnhive.Loop.{Loop, load_history}
use turnhive.Registry.{Etcd, session_owner, claim_session}
use turnhive.Session.State.{Session}
use turnhive.Spec.{SessionSpec}
use turnhive.Provision.{fresh_loop}
use turnhive.Node.{Bucket, Node}
use turnhive.Node.Adopt.{
  Adopting, Adopted, adopted, never_existed, claim_lost, adoption_failed, Found, broken, found,
  found_session, load_session_spec, won_claim, after_claim, adopt_found, adopt_session,
}
use turnhive.Routing.{
  Request, Meets, Routed, here, forwards, hosts, proxy_to, proxy, owner_if, found_again, recovered,
  adopt_if, owner_known, locate_unless, after_wait, route_session,
}

module _ (e : Etcd) (b : Bucket) (encode : SessionSpec → Option Bytes)
    (decode : Bytes → Option SessionSpec) (parse_url : Bytes → Option (Bytes × Bytes))
    (read_node : Bytes → Option Bytes) where
  open e use {Store}
  open b use {Objects}

  -- An adoption that went through hosts the session.
  abbrev Hosts : Bytes → Node × Store × Adopted → Type 0
  Hosts id (node, store, adopted) = hosts id node ≡ true
  Hosts id _ = Unit

  won_claim-Hosts :
      (id : Bytes) (spec : SessionSpec) (s : Session) (a : Adopting) (node : Node) (store : Store)
      (x : Loop × Option Bytes)
      → Hosts id (won_claim e b encode decode parse_url id spec s a node store x)
  won_claim-Hosts id spec s a node store (l, some err) = tt
  won_claim-Hosts id spec s a node store (l, none) =
      ap is_some (lookup-insert_self id _ node.sessions)

  after_claim-Hosts :
      (id : Bytes) (spec : SessionSpec) (s : Session) (a : Adopting) (node : Node)
      (x : Store × Option Bool)
      → Hosts id (after_claim e b encode decode parse_url id spec s a node x)
  after_claim-Hosts id spec s a node (store, none) = tt
  after_claim-Hosts id spec s a node (store, some false) = tt
  after_claim-Hosts id spec s a node (store, some true) =
      won_claim-Hosts id spec s a node store (load_history a.loading fresh_loop)

  adopt_found-Hosts :
      (id : Bytes) (a : Adopting) (node : Node) (store : Store) (f : Found)
      → Hosts id (adopt_found e b encode decode parse_url id a node store f)
  adopt_found-Hosts id a node store broken = tt
  adopt_found-Hosts id a node store Found.not_found = tt
  adopt_found-Hosts id a node store (found spec s) =
      after_claim-Hosts id spec s a node (claim_session e a.claim id node.registry store)

  -- What a routed request shows: served here, the node hosts the session; forwarded, it was not forwarded
  -- before, what is sent is the same request marked as forwarded, and the address is that of the owner that the
  -- registry names, with a scheme and a host.
  abbrev pub Fits : Request → Node × Store × Routed → Type 0
  Fits q (node, store, here) = hosts q.id node ≡ true
  Fits q (node, store, forwards addr sent) =
      (q.forwarded ≡ false)
      × (sent ≡ record { id = q.id; forwarded = true; may_adopt = q.may_adopt })
      × (session_owner e read_node q.id node.registry store ≡ some (some addr))
      × ((scheme : Bytes) × (host : Bytes) × (parse_url addr ≡ some (scheme, host))
          × (scheme ≢ [])
          × (host ≢ []))
  Fits q _ = Unit

  proxy_to-Fits :
      (q : Request) (node : Node) (store : Store) (addr : Bytes) (o : Option (Bytes × Bytes))
      → parse_url addr ≡ o
      → q.forwarded ≡ false
      → session_owner e read_node q.id node.registry store ≡ some (some addr)
      → Fits q (node, store, proxy_to q addr o)
  proxy_to-Fits q node store addr none p f o = tt
  proxy_to-Fits q node store addr (some (scheme, host)) p f o = elim (Bool-cases (scheme == [])) [
    | inl bare ↦ rw bare tt
    | inr named ↦ elim (Bool-cases (host == [])) [
      | inl bare ↦ rw (named, bare) tt
      | inr hosted ↦
          rw (named, hosted)
            (f, refl, o, (scheme, host, p, ==_ne scheme [] named, ==_ne host [] hosted))
    ]
  ]

  found_again-Fits :
      (q : Request) (node : Node) (store : Store) (answers : Bool)
      → q.forwarded ≡ false
      → Fits q (
          found_again e b encode decode parse_url read_node q node store
            (owner_if e b encode decode parse_url read_node answers q.id node.registry store))
  unfolding proxy
  found_again-Fits q node store false f = tt
  found_again-Fits q node store true f =
      by_owner (session_owner e read_node q.id node.registry store) refl
    where
      by_owner :
          (o : Option (Option Bytes))
          → session_owner e read_node q.id node.registry store ≡ o
          → Fits q (found_again e b encode decode parse_url read_node q node store o)
      by_owner none p = tt
      by_owner (some none) p = tt
      by_owner (some (some addr)) p = proxy_to-Fits q node store addr (parse_url addr) refl f p

  recovered-Fits :
      (q : Request) (m : Meets Store) (x : Node × Store × Adopted)
      → q.forwarded ≡ false
      → Hosts q.id x
      → Fits q (recovered e b encode decode parse_url read_node q m x)
  recovered-Fits q m (node, store, adopted) f h = h
  recovered-Fits q m (node, store, never_existed) f h = tt
  recovered-Fits q m (node, store, adoption_failed) f h = tt
  recovered-Fits q m (node, store, claim_lost) f h = elim (Bool-cases (hosts q.id m.later)) [
    | inl hosted ↦ rw hosted hosted
    | inr gone ↦ rw gone (found_again-Fits q m.later m.later_store m.later_answers f)
  ]

  adopt_if-Fits :
      (q : Request) (m : Meets Store) (node : Node) (store : Store) (objects : Objects) (may : Bool)
      → q.forwarded ≡ false
      → Fits q (adopt_if e b encode decode parse_url read_node q m node store objects may)
  unfolding adopt_session
  adopt_if-Fits q m node store objects true f =
      recovered-Fits q m
        (adopt_session e b encode decode parse_url q.id m.adopting node store objects) f
        (adopt_found-Hosts q.id m.adopting node store (
          found_session m.adopting
            (load_session_spec e b encode decode parse_url m.adopting.readable q.id objects)))
  adopt_if-Fits q m node store objects false f = tt

  owner_known-Fits :
      (q : Request) (m : Meets Store) (node : Node) (store : Store) (objects : Objects)
      (answers : Bool) (o : Option (Option Bytes))
      → owner_if e b encode decode parse_url read_node answers q.id node.registry store ≡ o
      → q.forwarded ≡ false
      → Fits q (owner_known e b encode decode parse_url read_node q m node store objects o)
  unfolding proxy
  owner_known-Fits q m node store objects answers none p f = tt
  owner_known-Fits q m node store objects answers (some none) p f =
      adopt_if-Fits q m node store objects q.may_adopt f
  owner_known-Fits q m node store objects true (some (some addr)) p f =
      proxy_to-Fits q node store addr (parse_url addr) refl f p
  owner_known-Fits q m node store objects false (some (some addr)) p f = cc

  locate_unless-Fits :
      (q : Request) (m : Meets Store) (node : Node) (store : Store) (objects : Objects)
      (again : Bool)
      → q.forwarded ≡ again
      → Fits q (locate_unless e b encode decode parse_url read_node q m node store objects again)
  locate_unless-Fits q m node store objects true f = tt
  locate_unless-Fits q m node store objects false f =
      owner_known-Fits q m node store objects m.answers _ refl f

  after_wait-Fits :
      (q : Request) (m : Meets Store) (node : Node) (store : Store) (objects : Objects)
      (waited : Option Bool)
      → Fits q (after_wait e b encode decode parse_url read_node q m node store objects waited)
  after_wait-Fits q m node store objects none =
      locate_unless-Fits q m node store objects q.forwarded refl
  after_wait-Fits q m node store objects (some false) = tt
  after_wait-Fits q m node store objects (some true) = elim (Bool-cases (hosts q.id m.woken)) [
    | inl hosted ↦ rw hosted hosted
    | inr gone ↦ rw gone (locate_unless-Fits q m m.woken store objects q.forwarded refl)
  ]

  -- A request is served here only where the node hosts the session, also after it adopted it or waited for
  -- another adoption. It is forwarded only if it was not marked as forwarded, it is then sent with that mark, and
  -- only to the address of the owner that the registry names, which has a scheme and a host.
  pub route_session-Fits :
      (q : Request) (m : Meets Store) (node : Node) (store : Store) (objects : Objects)
      → Fits q (route_session e b encode decode parse_url read_node q m node store objects)
  unfolding route_session
  route_session-Fits q m node store objects = elim (Bool-cases (hosts q.id node)) [
    | inl hosted ↦ rw hosted hosted
    | inr gone ↦ rw gone (after_wait-Fits q m node store objects m.in_flight)
  ]
