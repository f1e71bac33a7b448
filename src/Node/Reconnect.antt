-- ===== src/Node/Reconnect.antt =====
-- A node that lost its lease and is registered again.
use turnhive.Base.{
  ℕ, ◌≡◌, sym, subst, inl, inr, Bool-cases, Option, some, List, [], ◌∷◌, Bytes, ◌==◌, ==_iff,
  bytes_eq,
}
use turnhive.Base.Assoc.{lookup}
use turnhive.Registry.{
  Etcd, Reply, answered, Registry, session_key, register_under, register_session,
}
use turnhive.Registry.Owned.{Owned, effect-Owned, put-Owned, put_self}
use turnhive.Spec.{SessionSpec}
use turnhive.Node.{Bucket, Hosted}
use turnhive.Node.Sweep.{reregister}

module _ (e : Etcd) (b : Bucket) (encode : SessionSpec → Option Bytes)
    (decode : Bytes → Option SessionSpec) (parse_url : Bytes → Option (Bytes × Bytes)) where
  open e use {Store, put}

  module _ (reply : Bytes → Reply) (r : Registry) (lease : ℕ) (leased : r.lease_id ≡ some lease)
      (id : Bytes) where
    abbrev Mine : Store → Type 0
    Mine s = Owned e r.prefix id r.node_id lease s

    -- A registration of any session by the node leaves the records that name it.
    put-Mine :
        (j : Bytes) (s : Store) → Mine s → Mine (put (session_key r.prefix j) r.node_id lease s)
    put-Mine j s o = elim (Bool-cases (session_key r.prefix j == session_key r.prefix id)) [
      | inl same ↦
          subst (λ k. Mine (put k r.node_id lease s)) (sym ((==_iff _ _).0 same))
            (put_self e r.prefix id r.node_id lease s)
      | inr other ↦ put-Owned e r.prefix id r.node_id lease _ _ lease s other o
    ]

    register_session-Mine :
        (j : Bytes) (s : Store) → Mine s → Mine (register_session e (reply j) j r s).0
    unfolding register_session
    register_session-Mine j s o =
        subst (λ l. Mine (register_under e (reply j) j r s l).0) (sym leased)
          (effect-Owned e r.prefix id r.node_id lease (reply j) s _ o (put-Mine j s o))

    reregister-Mine :
        (sessions : List (Bytes × Hosted)) (s : Store)
        → Mine s
        → Mine (reregister e b encode decode parse_url reply r sessions s)
    unfolding reregister
    reregister-Mine [] s o = o
    reregister-Mine ((j, h) ∷ rest) s o = reregister-Mine rest _ (register_session-Mine j s o)

    register_session-takes :
        reply id ≡ answered → (s : Store) → Mine (register_session e (reply id) id r s).0
    unfolding register_session
    register_session-takes fine s = rw (fine, leased) (put_self e r.prefix id r.node_id lease s)

    -- A node that is registered again takes back its sessions: after ReregisterSessions, the record of every
    -- session in its memory for which etcd answered names the node under its new lease, whatever the calls for
    -- other sessions gave and whatever the record was before, another node's that adopted the session included.
    pub reregister-Owned :
        (sessions : List (Bytes × Hosted)) (h : Hosted) (s : Store)
        → lookup id sessions ≡ some h
        → reply id ≡ answered
        → Owned e r.prefix id r.node_id lease
            (reregister e b encode decode parse_url reply r sessions s)
    unfolding reregister lookup
    reregister-Owned [] h s there fine = cc
    reregister-Owned ((j, held) ∷ rest) h s there fine = elim (Bool-cases (j == id)) [
      | inl same ↦
          subst
            (λ k. Mine (
              reregister e b encode decode parse_url reply r rest
                (register_session e (reply k) k r s).0))
            (sym ((==_iff j id).0 same)) (reregister-Mine rest _ (register_session-takes fine s))
      | inr other ↦ reregister-Owned rest h _ (rw other at there) fine
    ]
