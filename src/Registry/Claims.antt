-- ===== src/Registry/Claims.antt =====
-- Claims of sessions by the nodes of a cluster, in any interleaving.
use turnhive.Base.{
  ℕ, ◌≡◌, ◌≢◌, refl, sym, ap, subst, ◌∙◌, true, Option, none, some, List, [], ◌∷◌, Bytes, All,
  bytes_eq,
}
use turnhive.Registry.{
  Etcd, Reply, answered, Registry, session_key, register_session, unregister_session, claim_session,
  register_node, close, owner_of, session_owner,
}
use turnhive.Registry.Owned.{
  Owned, ServedBy, Owned-ServedBy, claim_session-Owned, absent-claims, eqb_refl, register-Owned,
  claim-Owned, unregister-Owned, join-Owned, leave-Owned, expire-Owned,
}

-- Calls of nodes on the registry, each with the node as it is then, and the end of a lease.
pub data Call : Type 0 where
  registers claims unregisters : Reply → Bytes → Registry → Call
  joins : Reply → Option ℕ → Registry → Call
  leaves : Reply → Registry → Call
  expires : ℕ → Call

-- The calls that do not end the ownership of a session whose record the lease holds.
abbrev pub Spares : Bytes → Bytes → ℕ → Call → Type 0
Spares prefix id lease (registers reply j r) = (r.prefix ≡ prefix) × (j ≢ id)
Spares prefix id lease (claims reply j r) = r.prefix ≡ prefix
Spares prefix id lease (unregisters reply j r) = (r.prefix ≡ prefix) × (j ≢ id)
Spares prefix id lease (joins reply granted r) = r.prefix ≡ prefix
Spares prefix id lease (leaves reply r) = r.lease_id ≢ some lease
Spares prefix id lease (expires l) = l ≢ lease

module _ (e : Etcd) (encode : Bytes → Option Bytes) where
  open e use {Store, get, lease_of, put, create, delete, expire}

  unfoldable pub step : Call → Store → Store
  step (registers reply j r) s = (register_session e reply j r s).0
  step (claims reply j r) s = (claim_session e reply j r s).0
  step (unregisters reply j r) s = (unregister_session e reply j r s).0
  step (joins reply granted r) s = (register_node e encode reply granted r s).1
  step (leaves reply r) s = (close e reply r s).1
  step (expires l) s = expire l s

  unfoldable pub run : List Call → Store → Store
  run [] s = s
  run (c ∷ cs) s = run cs (step c s)

  module _ (p id n : Bytes) (l : ℕ) where
    step-Owned :
        (c : Call) (s : Store) → Spares p id l c → Owned e p id n l s → Owned e p id n l (step c s)
    unfolding step
    step-Owned (registers reply j r) s h o = register-Owned e p id n l reply j r s h o
    step-Owned (claims reply j r) s h o = claim-Owned e p id n l reply j r s h o
    step-Owned (unregisters reply j r) s (same, other) o =
        unregister-Owned e p id n l reply j r s (same, other) o
    step-Owned (joins reply granted r) s h o = join-Owned e p id n l encode reply granted r s h o
    step-Owned (leaves reply r) s h o = leave-Owned e p id n l reply r s h o
    step-Owned (expires lease) s h o = expire-Owned e p id n l lease s h o

    run-Owned :
        (cs : List Call) (s : Store)
        → All (Spares p id l) cs
        → Owned e p id n l s
        → Owned e p id n l (run cs s)
    unfolding run
    run-Owned [] s h o = o
    run-Owned (c ∷ cs) s (hc, h) o = run-Owned cs (step c s) h (step-Owned c s hc o)

  module _ (id : Bytes) (r : Registry) (lease : ℕ) (s : Store)
      (registered : r.lease_id ≡ some lease) (won : (claim_session e answered id r s).1 ≡ some true)
      (cs : List Call) (spared : All (Spares r.prefix id lease) cs) where
    abbrev claimed_then : Store
    claimed_then = run cs (claim_session e answered id r s).0

    claimed_then-Owned : Owned e r.prefix id r.node_id lease claimed_then
    claimed_then-Owned =
        run-Owned r.prefix id r.node_id lease cs _ spared
          (claim_session-Owned e id r lease s registered won)

    module _ (decode : Bytes → Option Bytes) (reply : Reply) (other : Registry)
        (same : other.prefix ≡ r.prefix) where
      -- One node owns a session: once a node has won the claim, and whatever the nodes call in any order, with
      -- errors of etcd before or after a call took effect, except to delete or overwrite the session's record
      -- or to end the node's lease, the session stays that node's: its own lookup finds its own address, that
      -- of any other node of the cluster finds the address in its node record, or no live owner where that
      -- record is not there, and no claim of any node is won or changes anything.
      pub claim_stays : ServedBy e id r.node_id decode reply other claimed_then
      claim_stays =
          Owned-ServedBy e id r.node_id lease claimed_then decode reply other
            (subst (λ q. Owned e q id r.node_id lease claimed_then) (sym same) claimed_then-Owned)

      -- A crash frees the session: when the lease of such a node ends, a lookup finds no owner, and the next
      -- node that claims the session wins it. The session is then that node's: its own lookup finds its own
      -- address, that of another the address in its node record, or no live owner where that record is not
      -- there, and further claims are not won.
      pub crash_frees :
          (next : Registry) (next_lease : ℕ)
          → next.prefix ≡ r.prefix
          → next.lease_id ≡ some next_lease
          → let after = expire lease claimed_then in
            (session_owner e decode id other after ≡ some none)
            × ((claim_session e answered id next after).1 ≡ some true)
            × ServedBy e id next.node_id decode reply other
                (claim_session e answered id next after).0
      unfolding session_owner
      crash_frees next next_lease alike leased =
          let o : Owned e r.prefix id r.node_id lease claimed_then = claimed_then-Owned in
          let key : Bytes = session_key r.prefix id in
          let gone : get key (expire lease claimed_then) ≡ none =
            e.get-expire lease key claimed_then ∙ rw o.held (rw (eqb_refl lease) refl) in
          let absent : (q : Bytes)
              → q ≡ r.prefix
              → get (session_key q id) (expire lease claimed_then) ≡ none =
            λ q h. ap (λ x. get (session_key x id) (expire lease claimed_then)) h ∙ gone in
          let wins : (claim_session e answered id next (expire lease claimed_then)).1 ≡ some true =
            absent-claims e id next next_lease _ leased (absent next.prefix alike) in
          (
            ap (owner_of e decode other (expire lease claimed_then)) (absent other.prefix same),
            wins,
            Owned-ServedBy e id next.node_id next_lease _ decode reply other (
                subst
                  (λ q.
                    Owned e q id next.node_id next_lease
                      (claim_session e answered id next (expire lease claimed_then)).0)
                  (alike ∙ sym same) (claim_session-Owned e id next next_lease _ leased wins)),
          )
