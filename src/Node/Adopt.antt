-- ===== src/Node/Adopt.antt =====
-- controller/adopt.go: a session that is on no node is adopted from its stored spec, its persisted files, its
-- files manifest and its history.
use turnhive.Base.{ℕ, Bool, true, false, Option, none, some, List, Bytes, bytes_eq, if◌then◌else◌}
use turnhive.Base.Assoc.{insert}
use turnhive.Loop.{Loop, Loading, load_history, sealed_loaded}
use turnhive.Registry.{Etcd, Reply, unregister_session, claim_session}
use turnhive.Session.State.{Session, PersistedObject, FileRecord, new_session}
use turnhive.Session.Turns.{touch}
use turnhive.Session.Sandbox.{set_loop}
use turnhive.Spec.{SessionSpec, SpecError, validate_spec}
use turnhive.Provision.{fresh_loop}
use turnhive.Node.{Bucket, Node, spec_object_key, hosted}

-- What an adoption meets: whether the spec can be read, the listed objects and the files manifest unless
-- they cannot, the claim, the history, the reply to the claim's undoing, the time and the new loop.
pub record Adopting : Type 0 where
  pub readable : Bool
  pub persisted : Option (List (Bytes × PersistedObject))
  pub files : Option (List (Bytes × FileRecord))
  pub claim : Reply
  pub loading : Loading
  pub undo : Reply
  pub now : ℕ
  pub loop : ℕ

pub data LoadedSpec : Type 0 where
  unreadable no_spec : LoadedSpec
  spec_is : SessionSpec → LoadedSpec

pub data Found : Type 0 where
  broken not_found : Found
  found : SessionSpec → Session → Found

pub data Adopted : Type 0 where
  adopted never_existed claim_lost adoption_failed : Adopted

-- &Session{…} of loadAdoptableSession
abbrev pub adoptable :
    Adopting → List (Bytes × PersistedObject) → List (Bytes × FileRecord) → Session
adoptable a persisted files =
    touch a.now (record new_session { persisted = persisted; files = files })

abbrev pub with_manifests :
    Adopting
    → SessionSpec
    → Option (List (Bytes × PersistedObject))
    → Option (List (Bytes × FileRecord))
    → Found
with_manifests a spec none files = broken
with_manifests a spec (some persisted) none = broken
with_manifests a spec (some persisted) (some files) = found spec (adoptable a persisted files)

abbrev pub found_session : Adopting → LoadedSpec → Found
found_session a unreadable = broken
found_session a no_spec = not_found
found_session a (spec_is spec) = with_manifests a spec a.persisted a.files

module _ (e : Etcd) (b : Bucket) (encode : SessionSpec → Option Bytes)
    (decode : Bytes → Option SessionSpec) (parse_url : Bytes → Option (Bytes × Bytes)) where
  open e use {Store}
  open b use {Objects, get_object, put_object, delete_object}

  -- loadSessionSpec: a stored spec is validated again.
  abbrev pub checked : SessionSpec → Option SpecError → LoadedSpec
  checked spec none = spec_is spec
  checked spec (some err) = unreadable

  abbrev pub parsed : Option SessionSpec → LoadedSpec
  parsed none = unreadable
  parsed (some spec) = checked spec (validate_spec parse_url spec)

  abbrev pub read : Option Bytes → LoadedSpec
  read none = no_spec
  read (some data_) = parsed (decode data_)

  unfoldable pub load_session_spec : Bool → Bytes → Objects → LoadedSpec
  load_session_spec readable id objects =
      if readable then read (get_object (spec_object_key id) objects) else unreadable

  abbrev pub stays : Node → Store → Adopted → Node × Store × Adopted
  stays node store outcome = (node, store, outcome)

  -- adoptSession behind the claim that was won.
  abbrev pub won_claim :
      Bytes
      → SessionSpec
      → Session
      → Adopting
      → Node
      → Store
      → Loop × Option Bytes
      → Node × Store × Adopted
  won_claim id spec s a node store (l, some err) =
      stays node (unregister_session e a.undo id node.registry store).0 adoption_failed
  won_claim id spec s a node store (l, none) = (
    record node {
      sessions =
          insert id (hosted spec (set_loop a.loop s) (sealed_loaded (l, none)).0) node.sessions;
    },
    store,
    adopted,
  )

  abbrev pub after_claim :
      Bytes → SessionSpec → Session → Adopting → Node → Store × Option Bool → Node × Store × Adopted
  after_claim id spec s a node (store, none) = stays node store adoption_failed
  after_claim id spec s a node (store, some false) = stays node store claim_lost
  after_claim id spec s a node (store, some true) =
      won_claim id spec s a node store (load_history a.loading fresh_loop)

  abbrev pub adopt_found : Bytes → Adopting → Node → Store → Found → Node × Store × Adopted
  adopt_found id a node store broken = stays node store adoption_failed
  adopt_found id a node store not_found = stays node store never_existed
  adopt_found id a node store (found spec s) =
      after_claim id spec s a node (claim_session e a.claim id node.registry store)

  -- adoptSession of a caller that no other adoption on the node is ahead of.
  unfoldable pub adopt_session : Bytes → Adopting → Node → Store → Objects → Node × Store × Adopted
  adopt_session id a node store objects =
      adopt_found id a node store (found_session a (load_session_spec a.readable id objects))
