-- ===== src/Node/Adoption.antt =====
-- A session that left a node is adopted by the next: from its stored spec, by one node only, and never after
-- it was deleted.
use turnhive.Base.{
  ℕ, ◌≡◌, ◌≢◌, refl, sym, ap, subst, ◌∙◌, Bool, true, false, Option, none, some, List, Bytes,
  ==_refl, bytes_eq,
}
use turnhive.Base.Assoc.{lookup, insert, lookup-insert_self, lookup-remove}
use turnhive.Loop.{Loop, load_history, sealed_loaded}
use turnhive.Registry.{
  Etcd, Reply, answered, Registry, session_key, unregister_session, claim_session,
}
use turnhive.Registry.Owned.{
  Owned, Owned-refuses, Owned-ServedBy, ServedBy, absent-claims, claim_session-Owned,
}
use turnhive.Session.State.{Session, PersistedObject, FileRecord}
use turnhive.Session.Turns.{touch}
use turnhive.Session.Sandbox.{set_loop, take_if_cold, close_session, take_sandbox, listed}
use turnhive.Spec.{SessionSpec, validate_spec}
use turnhive.Provision.{fresh_loop}
use turnhive.Node.{Bucket, Hosted, Node, hosted, spec_object_key}
use turnhive.Node.Adopt.{
  Adopting, spec_is, Found, broken, not_found, found, Adopted, adopted, never_existed, adoptable,
  found_session, load_session_spec, after_claim, adopt_found, adopt_session,
}
use turnhive.Node.Sweep.{handle_delete_session, evict_cold_session}

module _ (e : Etcd) (b : Bucket) (encode : SessionSpec → Option Bytes)
    (decode : Bytes → Option SessionSpec) (parse_url : Bytes → Option (Bytes × Bytes)) where
  open e use {Store, get}
  open b use {Objects, get_object, delete_object}

  -- The spec of a session lies in storage, decodes, and passes the validation.
  pub record IsSaved (id : Bytes) (spec : SessionSpec) (objects : Objects) : Type 0 where
    pub text : Bytes
    pub stored : get_object (spec_object_key id) objects ≡ some text
    pub decodes : decode text ≡ some spec
    pub valid : validate_spec parse_url spec ≡ none

  pub load_session_spec-saved :
      (id : Bytes) (spec : SessionSpec) (objects : Objects)
      → IsSaved id spec objects
      → load_session_spec e b encode decode parse_url true id objects ≡ spec_is spec
  unfolding load_session_spec
  load_session_spec-saved id spec objects s = rw s.stored (rw s.decodes (rw s.valid refl))

  -- The answers with which an adoption goes through, and the loop that it gets.
  pub record Supports (a : Adopting) : Type 0 where
    pub objects_listed : List (Bytes × PersistedObject)
    pub manifest : List (Bytes × FileRecord)
    pub loop : Loop
    pub readable : a.readable ≡ true
    pub persisted : a.persisted ≡ some objects_listed
    pub files : a.files ≡ some manifest
    pub claim : a.claim ≡ answered
    pub loads : load_history a.loading fresh_loop ≡ (loop, none)

  abbrev pub adopted_session : (a : Adopting) → Supports a → Session
  adopted_session a h = set_loop a.loop (adoptable a h.objects_listed h.manifest)

  adopt_found-won :
      (id : Bytes) (a : Adopting) (node : Node) (store : Store) (spec : SessionSpec) (s : Session)
      (l : Loop)
      → a.claim ≡ answered
      → load_history a.loading fresh_loop ≡ (l, none)
      → (x : Store × Option Bool) → x.1 ≡ some true
      → after_claim e b encode decode parse_url id spec s a node x ≡ (
        record node {
          sessions =
              insert id (hosted spec (set_loop a.loop s) (sealed_loaded (l, none)).0) node.sessions;
        },
        x.0,
        adopted,
      )
  adopt_found-won id a node store spec s l claims loads (t, some true) won = rw loads refl
  adopt_found-won id a node store spec s l claims loads (t, some false) won = cc
  adopt_found-won id a node store spec s l claims loads (t, none) won = cc

  adopt_session-saved :
      (id : Bytes) (a : Adopting) (h : Supports a) (node : Node) (lease : ℕ) (store : Store)
      (objects : Objects) (spec : SessionSpec)
      → IsSaved id spec objects
      → node.registry.lease_id ≡ some lease
      → get (session_key node.registry.prefix id) store ≡ none
      → adopt_session e b encode decode parse_url id a node store objects ≡ (
        record node {
          sessions =
              insert id
                (hosted spec (adopted_session a h) (sealed_loaded (h.loop, none)).0)
                node.sessions;
        },
        (claim_session e answered id node.registry store).0,
        adopted,
      )
  unfolding adopt_session
  adopt_session-saved id a h node lease store objects spec saved leased absent =
      let finds : found_session a
            (load_session_spec e b encode decode parse_url a.readable id objects)
          ≡ found spec (adoptable a h.objects_listed h.manifest) =
        ap (λ r. found_session a (load_session_spec e b encode decode parse_url r id objects))
          h.readable
        ∙ ap (found_session a) (load_session_spec-saved id spec objects saved)
        ∙ rw h.persisted (rw h.files refl) in
      ap (adopt_found e b encode decode parse_url id a node store) finds
      ∙ ap
          (λ r.
            after_claim e b encode decode parse_url id spec
              (adoptable a h.objects_listed h.manifest) a node
              (claim_session e r id node.registry store))
          h.claim
      ∙ adopt_found-won id a node store spec (adoptable a h.objects_listed h.manifest) h.loop
          h.claim h.loads (claim_session e answered id node.registry store)
          (absent-claims e id node.registry lease store leased absent)

  -- A session that is another's: the adoption changes nothing and does not go through.
  after_claim-lost :
      (id : Bytes) (a : Adopting) (node : Node) (spec : SessionSpec) (s : Session) (store : Store)
      (x : Store × Option Bool)
      → x.0 ≡ store
      → x.1 ≢ some true
      → let out = after_claim e b encode decode parse_url id spec s a node x in
        (out.0 ≡ node) × (out.1 ≡ store) × (out.2 ≢ adopted)
  after_claim-lost id a node spec s store (t, none) same lost = (refl, same, λ q. cc)
  after_claim-lost id a node spec s store (t, some false) same lost = (refl, same, λ q. cc)
  after_claim-lost id a node spec s store (t, some true) same lost = absurd (lost refl)

  adopt_found-Owned :
      (id n : Bytes) (l : ℕ) (a : Adopting) (node : Node) (store : Store) (f : Found)
      → Owned e node.registry.prefix id n l store
      → let out = adopt_found e b encode decode parse_url id a node store f in
        (out.0 ≡ node) × (out.1 ≡ store) × (out.2 ≢ adopted)
  adopt_found-Owned id n l a node store broken o = (refl, refl, λ q. cc)
  adopt_found-Owned id n l a node store not_found o = (refl, refl, λ q. cc)
  adopt_found-Owned id n l a node store (found spec s) o =
      let (same, lost) =
        Owned-refuses e node.registry.prefix id n l a.claim node.registry store refl o in
      after_claim-lost id a node spec s store (claim_session e a.claim id node.registry store) same
        lost

  -- No second node takes a session: while the session's record names an owner under a lease that holds, an
  -- adoption by any node of the cluster, whatever storage and etcd answer, does not go through and leaves the
  -- node and etcd as they were.
  pub adopt_session-Owned :
      (id n : Bytes) (l : ℕ) (a : Adopting) (node : Node) (store : Store) (objects : Objects)
      → Owned e node.registry.prefix id n l store
      → let out = adopt_session e b encode decode parse_url id a node store objects in
        (out.0 ≡ node) × (out.1 ≡ store) × (out.2 ≢ adopted)
  unfolding adopt_session
  adopt_session-Owned id n l a node store objects o =
      adopt_found-Owned id n l a node store
        (found_session a (load_session_spec e b encode decode parse_url a.readable id objects)) o

  -- An adoption that went through on a session that nobody owned.
  pub record Takes (id : Bytes) (spec : SessionSpec) (a : Adopting) (h : Supports a)
      (read_node : Bytes → Option Bytes) (other : Registry) (node : Node)
      (out : Node × Store × Adopted) : Type 0 where
    pub goes_through : out.2 ≡ adopted
    pub persisted : (adopted_session a h).persisted ≡ h.objects_listed
    pub files : (adopted_session a h).files ≡ h.manifest
    pub hosts :
        lookup id out.0.sessions
        ≡ some (hosted spec (adopted_session a h) (sealed_loaded (h.loop, none)).0)
    pub serves : ServedBy e id node.registry.node_id read_node answered other out.1

  adopt_session-Takes :
      (id : Bytes) (spec : SessionSpec) (a : Adopting) (h : Supports a)
      (read_node : Bytes → Option Bytes) (other : Registry) (node : Node) (lease : ℕ)
      (store : Store) (objects : Objects)
      → IsSaved id spec objects
      → node.registry.lease_id ≡ some lease
      → other.prefix ≡ node.registry.prefix
      → get (session_key node.registry.prefix id) store ≡ none
      → Takes id spec a h read_node other node
          (adopt_session e b encode decode parse_url id a node store objects)
  unfolding set_loop touch
  adopt_session-Takes id spec a h read_node other node lease store objects saved leased alike
        absent =
      let owned : Owned e node.registry.prefix id node.registry.node_id lease
          (claim_session e answered id node.registry store).0 =
        claim_session-Owned e id node.registry lease store leased
          (absent-claims e id node.registry lease store leased absent) in
      subst (Takes id spec a h read_node other node)
        (sym (adopt_session-saved id a h node lease store objects spec saved leased absent))
        (record {
          goes_through = refl;
          persisted = refl;
          files = refl;
          hosts = lookup-insert_self id _ node.sessions;
          serves = Owned-ServedBy e id node.registry.node_id lease _ read_node answered other (
              subst
                (λ q.
                  Owned e q id node.registry.node_id lease
                    (claim_session e answered id node.registry store).0)
                (sym alike) owned);
        })

  -- What an eviction leaves: the session on no node, and no record of it.
  evicted-gone :
      (id : Bytes) (h : Hosted) (cold_timeout now : ℕ) (node : Node) (store : Store)
      → (take_if_cold cold_timeout now h.conversation.session).2 ≡ true
      → let out =
          evict_cold_session e b encode decode parse_url cold_timeout now answered id h node
            store in
        (lookup id out.0.sessions ≡ none) × (get (session_key node.registry.prefix id) out.1 ≡ none)
  unfolding evict_cold_session unregister_session
  evicted-gone id h cold_timeout now node store cold = rw cold (
    lookup-remove id id node.sessions ∙ rw (==_refl id) refl,
    e.get-delete _ _ store ∙ rw (==_refl (session_key node.registry.prefix id)) refl,
  )

  -- A session goes to cold storage and comes back: once a node has evicted a session whose spec is stored, it
  -- no longer hosts it; the next node that adopts it, with storage and etcd answering, hosts it with the spec
  -- that it had, and with the persisted objects, the files and the history that storage answers then, a broken
  -- off turn sealed. The session is then that node's: its own lookup finds its own address, that of another the
  -- address in its node record, or no live owner where that record is not there, and no claim is won.
  pub evict_cold_session-adopts :
      (id : Bytes) (h : Hosted) (cold_timeout now : ℕ) (old : Node) (store : Store)
      (objects : Objects) (a : Adopting) (answers : Supports a) (read_node : Bytes → Option Bytes)
      (other : Registry) (next : Node) (lease : ℕ)
      → (take_if_cold cold_timeout now h.conversation.session).2 ≡ true
      → IsSaved id h.spec objects
      → next.registry.prefix ≡ old.registry.prefix
      → other.prefix ≡ next.registry.prefix
      → next.registry.lease_id ≡ some lease
      → let out =
          evict_cold_session e b encode decode parse_url cold_timeout now answered id h old store in
        (lookup id out.0.sessions ≡ none)
        × Takes id h.spec a answers read_node other next
            (adopt_session e b encode decode parse_url id a next out.1 objects)
  evict_cold_session-adopts id h cold_timeout now old store objects a answers read_node other next
        lease cold saved alike same leased =
      let (unhosted, absent) = evicted-gone id h cold_timeout now old store cold in
      (
        unhosted,
        adopt_session-Takes id h.spec a answers read_node other next lease _ objects saved leased
            same
            (ap
                (λ q.
                  get (session_key q id)
                    (evict_cold_session e b encode decode parse_url cold_timeout now answered id h
                      old store).1)
                alike
              ∙ absent),
      )

  -- A deleted session stays deleted: a deletion whose spec storage did delete takes the session off the
  -- node that handles it, hands its sandbox back to be released, and no node can adopt the session afterwards: where the storage
  -- answers at all, it never existed, and the node and etcd stay as they are.
  pub handle_delete_session-forgets :
      (id : Bytes) (h : Hosted) (unregister : Reply) (node next : Node) (store : Store)
      (objects : Objects) (a : Adopting) (later : Store)
      → lookup id node.sessions ≡ some h
      → a.readable ≡ true
      → let out =
          handle_delete_session e b encode decode parse_url unregister answered id node store
            objects in
        (lookup id out.node.sessions ≡ none)
        × (out.released ≡ listed h.conversation.session.sandbox)
        × (adopt_session e b encode decode parse_url id a next later out.objects
            ≡ (next, later, never_existed))
  unfolding handle_delete_session adopt_session load_session_spec close_session take_sandbox
  handle_delete_session-forgets id h unregister node next store objects a later held readable =
      let gone : get_object (spec_object_key id) (delete_object (spec_object_key id) objects)
          ≡ none =
        b.get_object-delete_object (spec_object_key id) (spec_object_key id) objects
        ∙ rw (==_refl (spec_object_key id)) refl in
      (
        lookup-remove id id node.sessions ∙ rw (==_refl id) refl,
        rw held refl,
        rw readable (rw gone refl),
      )
