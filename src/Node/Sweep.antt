-- ===== src/Node/Sweep.antt =====
-- How sessions leave a node: handleDeleteSession of controller/controller.go, for a request that was routed to
-- the session, and controller/sweeper.go.
use turnhive.Base.{ℕ, Bool, true, false, Option, none, some, List, [], ◌∷◌, ◌++◌, Bytes, bytes_eq}
use turnhive.Base.Assoc.{lookup, remove}
use turnhive.Hub.{EventHub, close_all}
use turnhive.Registry.{Etcd, Reply, Registry, effect, register_session, unregister_session}
use turnhive.Session.State.{Session}
use turnhive.Session.Turns.{cancel_turn}
use turnhive.Session.Sandbox.{Detached, close_session, take_if_cold, take_sandbox_if_idle, listed}
use turnhive.Spec.{SessionSpec}
use turnhive.Node.{Bucket, Hosted, Node, spec_object_key, Served}

module _ (e : Etcd) (b : Bucket) (encode : SessionSpec → Option Bytes)
    (decode : Bytes → Option SessionSpec) (parse_url : Bytes → Option (Bytes × Bytes)) where
  open e use {Store}
  open b use {Objects, get_object, put_object, delete_object}

  -- handleDeleteSession behind the routing: what it released, and the turn's context that it cancelled.
  abbrev pub torn_down : Option Hosted → List ℕ × Option ℕ
  torn_down none = ([], none)
  torn_down (some h) =
      (listed (close_session h.conversation.session).1.sandbox, cancel_turn h.conversation.session)

  unfoldable pub handle_delete_session :
      Reply → Reply → Bytes → Node → Store → Objects → Served e b encode decode parse_url (Option ℕ)
  handle_delete_session unregister forget id node store objects =
      let (released, cancelled) = torn_down (lookup id node.sessions) in
      record {
        node = record node { sessions = remove id node.sessions };
        store = (unregister_session e unregister id node.registry store).0;
        objects = (effect forget objects (delete_object (spec_object_key id) objects)).0;
        released = released;
        answer = cancelled;
      }

  -- One round of evictColdSessions: the node, etcd, the sandboxes released, and the hub that is closed.
  abbrev pub evicted :
      Reply
      → Bytes
      → Hosted
      → Node
      → Store
      → Detached
      → Bool
      → Node × Store × List ℕ × Option EventHub
  evicted unregister id h node store d false = (node, store, [], some h.conversation.hub)
  evicted unregister id h node store d true = (
    record node { sessions = remove id node.sessions },
    (unregister_session e unregister id node.registry store).0,
    listed d.sandbox,
    close_all h.conversation.hub,
  )

  unfoldable pub evict_cold_session :
      ℕ → ℕ → Reply → Bytes → Hosted → Node → Store → Node × Store × List ℕ × Option EventHub
  evict_cold_session cold_timeout now unregister id h node store =
      let (s, d, cold) = take_if_cold cold_timeout now h.conversation.session in
      evicted unregister id h node store d cold

  -- ReregisterSessions, with the reply to each call.
  unfoldable pub reregister : (Bytes → Reply) → Registry → List (Bytes × Hosted) → Store → Store
  reregister reply r [] store = store
  reregister reply r ((id, h) ∷ rest) store =
      reregister reply r rest (register_session e (reply id) id r store).0

-- reapIdleSandboxes: the sessions after it, and the sandboxes released.
abbrev pub reaped_session : Hosted → Session → Hosted
reaped_session h s = record h { conversation = record h.conversation { session = s } }

unfoldable pub reap_idle_sandboxes : ℕ → ℕ → List (Bytes × Hosted) → List (Bytes × Hosted) × List ℕ
reap_idle_sandboxes idle_timeout now [] = ([], [])
reap_idle_sandboxes idle_timeout now ((id, h) ∷ rest) =
    let (s, d) = take_sandbox_if_idle idle_timeout now h.conversation.session in
    let (kept, released) = reap_idle_sandboxes idle_timeout now rest in
    ((id, reaped_session h s) ∷ kept, listed d.sandbox ++ released)
