-- ===== src/Node/Creation.antt =====
-- The creation of a session: all of it, or nothing that its client could reach.
use turnhive.Base.{
  ℕ, ◌≡◌, ◌≢◌, refl, sym, ap, subst, ◌∙◌, inl, inr, ◌⊎◌, Bool, true, false, Option, none, some,
  is_some, List, [], Bytes, arith, ==_refl, bytes_eq,
}
use turnhive.Base.Assoc.{lookup, lookup-insert_self}
use turnhive.Registry.{
  Etcd, Reply, answered, failed_before, failed_after, effect, register_session, register_under,
}
use turnhive.Registry.Owned.{Owned, put_self, some-ne-none}
use turnhive.Session.State.{Session, new_session}
use turnhive.Session.Turns.{touch}
use turnhive.Session.Sandbox.{live_sandbox, take_sandbox, listed}
use turnhive.Session.Step.{run}
use turnhive.Spec.{SessionSpec, SpecError, validate_spec}
use turnhive.Llm.{Message}
use turnhive.Loop.{Loading, loaded, load_failed, load_history}
use turnhive.Provision.{
  Build, build, BuildError, ensure_sandbox, fresh_loop, release_session_sandbox,
}
use turnhive.Provision.Accounts.{Builds, ensure_sandbox-Builds}
use turnhive.Node.{
  Bucket, Node, Answer, created, bad_request, Creating, Served, hosted, spec_object_key, registered,
  spec_written, sandbox_built, validated, write_session_spec, handle_create_session,
}
use turnhive.Node.Adoption.{IsSaved}

effect_done {ℓ} :
    {S : Type ℓ} (reply : Reply) (before after : S)
    → (effect reply before after).1 ≡ true
    → (effect reply before after).0 ≡ after
effect_done answered before after h = refl
effect_done failed_before before after h = cc
effect_done failed_after before after h = cc

-- A sandbox that was built without an error has a loop whose history was loaded.
build-loads :
    (x : Build) (s : Session) (o : Option ℕ)
    → (build x s o).failed ≡ none
    → (ms : List Message) × (x.loading ≡ loaded ms)
unfolding load_history
build-loads x s none fine = cc
build-loads x s (some sb) fine = by_loading x.loading refl
  where
    by_loading : (l : Loading) → x.loading ≡ l → (ms : List Message) × (x.loading ≡ loaded ms)
    by_loading (loaded ms) e = (ms, e)
    by_loading (load_failed err) e =
        let bad : is_some (load_history x.loading fresh_loop).1 ≡ true = rw e refl in
        absurd (ground (arith, fine, bad))

module _ (e : Etcd) (b : Bucket) (encode : SessionSpec → Option Bytes)
    (decode : Bytes → Option SessionSpec) (parse_url : Bytes → Option (Bytes × Bytes)) where
  open e use {Store}
  open b use {Objects, get_object, put_object}

  module _ (id : Bytes) (r : SessionSpec) (a : Creating) (node : Node) where
    -- A session that its client can use: the node hosts it with its sandbox and the loop with the history loaded, any node can adopt it, and its
    -- record names this node under the node's lease.
    pub record IsCreated (out : Served e b encode decode parse_url Answer) : Type 0 where
      pub session : Session
      pub messages : List Message
      pub lease : ℕ
      pub accepted : out.answer ≡ created
      pub history : a.build.loading ≡ loaded messages
      pub hosts :
          lookup id out.node.sessions
          ≡ some (hosted r session (record { busy = false; history = messages; hist_ready = true }))
      pub has_sandbox :
          (is_some a.build.allocated ≡ true) × (live_sandbox session ≡ a.build.allocated)
      pub saved : IsSaved e b encode decode parse_url id r out.objects
      pub owned : Owned e node.registry.prefix id node.registry.node_id lease out.store
      pub keeps_sandbox : out.released ≡ []

    -- A refusal: the node is as it was, and what was built is released. A request that does not pass the
    -- validation builds nothing.
    pub record IsRefused (out : Served e b encode decode parse_url Answer) : Type 0 where
      pub refused : out.answer ≢ created
      pub unchanged : out.node ≡ node
      pub releases :
          (out.released ≡ listed a.build.allocated)
          ⊎ ((out.answer ≡ bad_request) × (out.released ≡ []))

    abbrev Settles : Served e b encode decode parse_url Answer → Type 0
    Settles out = IsCreated out ⊎ IsRefused out

    -- A registration without an error: the record is there.
    register_under-Owned :
        (reply : Reply) (store : Store) (o : Option ℕ)
        → (register_under e reply id node.registry store o).1 ≡ true
        → (lease : ℕ) × Owned e node.registry.prefix id node.registry.node_id lease
            (register_under e reply id node.registry store o).0
    register_under-Owned reply store none fine = cc
    register_under-Owned reply store (some lease) fine = (
      lease,
      subst (Owned e node.registry.prefix id node.registry.node_id lease)
          (sym (effect_done reply _ _ fine))
          (put_self e node.registry.prefix id node.registry.node_id lease store),
    )

    abbrev Attached : Session → Type 0
    Attached s =
        (is_some a.build.allocated ≡ true)
        × (live_sandbox s ≡ a.build.allocated)
        × (ms : List Message) × (a.build.loading ≡ loaded ms)

    release-Attached :
        (s : Session) → Attached s → (release_session_sandbox s).1 ≡ listed a.build.allocated
    unfolding release_session_sandbox live_sandbox take_sandbox
    release-Attached s (some_sandbox, live, ms, loads) = ground arith

    registered-Settles :
        (s : Session) (objects : Objects) (x : Store × Bool)
        → Attached s
        → IsSaved e b encode decode parse_url id r objects
        → (x.1 ≡ true
            → (lease : ℕ) × Owned e node.registry.prefix id node.registry.node_id lease x.0)
        → Settles (registered e b encode decode parse_url id r a s node objects x)
    unfolding load_history
    registered-Settles s objects (store, true) (some_sandbox, live, ms, loads) saved owns =
        let (lease, owned) = owns refl in
        inl (record {
          session = s;
          lease = lease;
          accepted = refl;
          messages = ms;
          history = loads;
          hosts =
              lookup-insert_self id _ node.sessions
              ∙ ap (λ x. some (hosted r s (load_history x fresh_loop).0)) loads;
          has_sandbox = (some_sandbox, live);
          saved = saved;
          owned = owned;
          keeps_sandbox = refl;
        })
    registered-Settles s objects (store, false) live saved owns =
        inr
          (record { refused = λ q. cc; unchanged = refl; releases = inl (release-Attached s live) })

    spec_written-Settles :
        (s : Session) (store : Store) (x : Objects × Bool)
        → Attached s
        → (x.1 ≡ true → IsSaved e b encode decode parse_url id r x.0)
        → Settles (spec_written e b encode decode parse_url id r a s node store x)
    unfolding register_session
    spec_written-Settles s store (objects, true) live saves =
        registered-Settles s objects (register_session e a.register id node.registry store) live
          (saves refl) (register_under-Owned a.register store node.registry.lease_id)
    spec_written-Settles s store (objects, false) live saves =
        inr
          (record { refused = λ q. cc; unchanged = refl; releases = inl (release-Attached s live) })

    module _ (decodes : (text : Bytes) → encode r ≡ some text → decode text ≡ some r) where
      write_session_spec-saved :
          (reply : Reply) (o : Option Bytes) (objects : Objects)
          → encode r ≡ o
          → validate_spec parse_url r ≡ none
          → (write_session_spec e b encode decode parse_url reply id o objects).1 ≡ true
          → IsSaved e b encode decode parse_url id r
              (write_session_spec e b encode decode parse_url reply id o objects).0
      unfolding write_session_spec
      write_session_spec-saved reply none objects f valid fine = cc
      write_session_spec-saved reply (some text) objects f valid fine = record {
        text = text;
        stored =
            ap (get_object (spec_object_key id)) (effect_done reply _ _ fine)
            ∙ b.get_object-put_object (spec_object_key id) (spec_object_key id) text objects
            ∙ rw (==_refl (spec_object_key id)) refl;
        decodes = decodes text f;
        valid = valid;
      }

      sandbox_built-Settles :
          (s : Session) (store : Store) (objects : Objects) (built : Session) (released : List ℕ)
          (failed : Option BuildError)
          → validate_spec parse_url r ≡ none
          → ((failed ≡ none)
              × (live_sandbox built ≡ a.build.allocated)
              × (is_some a.build.allocated ≡ true)
              × (ms : List Message) × (a.build.loading ≡ loaded ms))
            ⊎ ((is_some failed ≡ true) × (released ≡ listed a.build.allocated))
          → Settles (
              sandbox_built e b encode decode parse_url id r a node store objects built released
                failed)
      sandbox_built-Settles s store objects built released (some err) valid
            (inl (fine, live, is_there, ms, loads)) =
          absurd (some-ne-none err fine)
      sandbox_built-Settles s store objects built released (some err) valid (inr (failing, same)) =
          inr (record { refused = λ q. cc; unchanged = refl; releases = inl same })
      sandbox_built-Settles s store objects built released none valid (inr (failing, same)) = cc
      sandbox_built-Settles s store objects built released none valid
            (inl (fine, live, is_there, ms, loads)) =
          spec_written-Settles built store
            (write_session_spec e b encode decode parse_url a.put id (encode r) objects)
            (is_there, live, ms, loads)
            (write_session_spec-saved a.put (encode r) objects refl valid)

      built_new :
          Builds a.build
            (run (touch a.now new_session) [])
            (ensure_sandbox a.build [] (touch a.now new_session))
      unfolding new_session touch run live_sandbox
      built_new = ensure_sandbox-Builds a.build [] (touch a.now new_session) refl refl

      new-loads :
          (ensure_sandbox a.build [] (touch a.now new_session)).failed ≡ none
          → (ms : List Message) × (a.build.loading ≡ loaded ms)
      unfolding ensure_sandbox new_session touch run live_sandbox
      new-loads fine = build-loads a.build _ a.build.allocated fine

      validated-Settles :
          (store : Store) (objects : Objects) (o : Option SpecError)
          → validate_spec parse_url r ≡ o
          → Settles (validated e b encode decode parse_url id r a node store objects o)
      validated-Settles store objects (some err) f =
          inr (record { refused = λ q. cc; unchanged = refl; releases = inr (refl, refl) })
      validated-Settles store objects none f =
          sandbox_built-Settles (touch a.now new_session) store objects _ _ _ f
            (elim built_new.outcome [
              | inl (fine, live, is_there, loop, stop, stopped) ↦
                  let (ms, loads) = new-loads fine in inl (fine, live, is_there, ms, loads)
              | inr (failing, same, empty, closed) ↦ inr (failing, same)
            ])

      -- A creation makes the whole session or refuses it, whatever ironhive, storage and etcd answer. Made, the
      -- node hosts it with the sandbox that was allocated and a loop with the history that was loaded, its spec is stored and can be adopted, and its
      -- record names the node. Refused, the node is as it was and the sandbox that was allocated, if any, is
      -- released; a request that does not pass the validation allocates none.
      pub handle_create_session-settles :
          (store : Store) (objects : Objects)
          → IsCreated (handle_create_session e b encode decode parse_url id r a node store objects)
            ⊎ IsRefused
                (handle_create_session e b encode decode parse_url id r a node store objects)
      unfolding handle_create_session
      handle_create_session-settles store objects =
          validated-Settles store objects (validate_spec parse_url r) refl
