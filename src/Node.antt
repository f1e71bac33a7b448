-- ===== src/Node.antt =====
-- The sessions of a node: handleCreateSession of controller/controller.go, with writeSessionSpec of
-- controller/adopt.go. The object storage is the parameter `Bucket`, etcd is `Etcd`, the JSON of a spec and
-- url.Parse are parameters, and what a call of storage, of ironhive or of etcd answers comes with the request,
-- which is decoded.
pub mod Adopt
pub mod Adoption
pub mod Creation
pub mod Reconnect
pub mod Sweep
use turnhive.Base.{
  ℕ, ◌≡◌, Bool, true, false, Option, none, some, List, [], ◌∷◌, ◌++◌, Bytes, codes, ◌==◌, bytes_eq,
  if◌then◌else◌,
}
use turnhive.Base.Assoc.{lookup, insert, remove}
use turnhive.Hub.{EventHub, new_event_hub, close_all}
use turnhive.Llm.{Message}
use turnhive.Loop.{Loop, Loading, load_history, sealed_loaded}
use turnhive.Registry.{
  Etcd, Reply, answered, failed_before, failed_after, Registry, effect, register_session,
  unregister_session, claim_session,
}
use turnhive.Session.State.{Session, PersistedObject, FileRecord, new_session}
use turnhive.Session.Turns.{touch, cancel_turn}
use turnhive.Session.Sandbox.{
  Detached, close_session, take_if_cold, take_sandbox_if_idle, set_loop, listed,
}
use turnhive.Turn.{Conversation}
use turnhive.Spec.{SessionSpec, SpecError, validate_spec}
use turnhive.Provision.{
  Build, BuildError, Ensured, ensure_sandbox, built_loop, fresh_loop, release_session_sandbox,
}

-- The operations of adoptionStore that the lives of sessions rest on, with DeleteObject.
pub record Bucket : Type 1 where
  pub Objects : Type 0
  pub get_object : Bytes → Objects → Option Bytes
  pub put_object : Bytes → Bytes → Objects → Objects
  pub delete_object : Bytes → Objects → Objects
  pub get_object-put_object :
      (k j v : Bytes) (o : Objects)
      → get_object j (put_object k v o) ≡ (if k == j then some v else get_object j o)
  pub get_object-delete_object :
      (k j : Bytes) (o : Objects)
      → get_object j (delete_object k o) ≡ (if k == j then none else get_object j o)

-- A session of a node: its spec, which never changes, itself with its hub, and its loop.
pub record Hosted : Type 0 where
  pub spec : SessionSpec
  pub conversation : Conversation
  pub loop : Loop

-- The fields of Controller that change.
pub record Node : Type 0 where
  pub registry : Registry
  pub sessions : List (Bytes × Hosted)

unfoldable pub spec_object_key : Bytes → Bytes
spec_object_key session_id = codes "sessions/" ++ (session_id ++ codes "/spec.json")

pub data Answer : Type 0 where
  created bad_request bad_gateway : Answer

-- The answers of ironhive, storage and etcd that a creation meets, and the time.
pub record Creating : Type 0 where
  pub build : Build
  pub put : Reply
  pub register : Reply
  pub undo : Reply
  pub now : ℕ

abbrev pub hosted : SessionSpec → Session → Loop → Hosted
hosted spec s l = record {
  spec = spec;
  conversation = record { session = s; hub = new_event_hub };
  loop = l;
}

module _ (e : Etcd) (b : Bucket) (encode : SessionSpec → Option Bytes)
    (decode : Bytes → Option SessionSpec) (parse_url : Bytes → Option (Bytes × Bytes)) where
  open e use {Store}
  open b use {Objects, get_object, put_object, delete_object}

  -- What a request leaves: the node and the stores, the sandboxes released, and the answer.
  pub record Served (A : Type 0) : Type 0 where
    pub node : Node
    pub store : Store
    pub objects : Objects
    pub released : List ℕ
    pub answer : A

  -- The creation behind a sandbox that was built.
  abbrev pub registered :
      Bytes → SessionSpec → Creating → Session → Node → Objects → Store × Bool → Served Answer
  registered id r a s node objects (store, true) = record {
    node = record node { sessions = insert id (hosted r s (built_loop a.build)) node.sessions };
    store = store;
    objects = objects;
    released = [];
    answer = created;
  }
  registered id r a s node objects (store, false) = record {
    node = node;
    store = store;
    objects = (effect a.undo objects (delete_object (spec_object_key id) objects)).0;
    released = (release_session_sandbox s).1;
    answer = bad_gateway;
  }

  abbrev pub spec_written :
      Bytes → SessionSpec → Creating → Session → Node → Store → Objects × Bool → Served Answer
  spec_written id r a s node store (objects, true) =
      registered id r a s node objects (register_session e a.register id node.registry store)
  spec_written id r a s node store (objects, false) = record {
    node = node;
    store = store;
    objects = objects;
    released = (release_session_sandbox s).1;
    answer = bad_gateway;
  }

  -- writeSessionSpec
  unfoldable pub write_session_spec : Reply → Bytes → Option Bytes → Objects → Objects × Bool
  write_session_spec reply id none objects = (objects, false)
  write_session_spec reply id (some data_) objects =
      effect reply objects (put_object (spec_object_key id) data_ objects)

  abbrev pub sandbox_built :
      Bytes
      → SessionSpec
      → Creating
      → Node
      → Store
      → Objects
      → Session
      → List ℕ
      → Option BuildError
      → Served Answer
  sandbox_built id r a node store objects s released (some err) = record {
    node = node;
    store = store;
    objects = objects;
    released = released;
    answer = bad_gateway;
  }
  sandbox_built id r a node store objects s released none =
      spec_written id r a s node store (write_session_spec a.put id (encode r) objects)

  abbrev pub validated :
      Bytes → SessionSpec → Creating → Node → Store → Objects → Option SpecError → Served Answer
  validated id r a node store objects (some err) = record {
    node = node;
    store = store;
    objects = objects;
    released = [];
    answer = bad_request;
  }
  validated id r a node store objects none =
      let built = ensure_sandbox a.build [] (touch a.now new_session) in
      sandbox_built id r a node store objects built.session built.released built.failed

  -- handleCreateSession of a decoded body; `id` is the new session's.
  unfoldable pub handle_create_session :
      Bytes → SessionSpec → Creating → Node → Store → Objects → Served Answer
  handle_create_session id r a node store objects =
      validated id r a node store objects (validate_spec parse_url r)
