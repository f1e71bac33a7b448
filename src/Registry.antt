-- ===== src/Registry.antt =====
-- registry/registry.go: the owners of sessions in etcd. etcd is the parameter `Etcd`: a store of keys with
-- the leases that hold them, and the documented behaviour of the calls that the registry makes. The JSON of
-- a node record is a parameter too.
pub mod Keys
pub mod Owned
pub mod Claims
use turnhive.Base.{
  ◌>>=◌, ℕ, ◌≡◌, Bool, true, false, Option, none, some, is_some, List, [], ◌∷◌, ◌++◌, Bytes, codes,
  ◌==◌, bytes_eq, eqb, if◌then◌else◌,
}

abbrev pub held_by : ℕ → Option ℕ → Bool
held_by lease none = false
held_by lease (some l) = eqb l lease

-- `create` is the transaction that puts a key if its create revision is 0, and `expire` is what the end of
-- a lease does, revoked or not kept alive.
pub record Etcd : Type 1 where
  pub Store : Type 0
  pub get : Bytes → Store → Option Bytes
  pub lease_of : Bytes → Store → Option ℕ
  pub put : Bytes → Bytes → ℕ → Store → Store
  pub create : Bytes → Bytes → ℕ → Store → Store × Bool
  pub delete : Bytes → Store → Store
  pub expire : ℕ → Store → Store
  pub get-put :
      (k j v : Bytes) (l : ℕ) (s : Store)
      → get j (put k v l s) ≡ (if k == j then some v else get j s)
  pub lease_of-put :
      (k j v : Bytes) (l : ℕ) (s : Store)
      → lease_of j (put k v l s) ≡ (if k == j then some l else lease_of j s)
  pub create-absent :
      (k v : Bytes) (l : ℕ) (s : Store) → get k s ≡ none → create k v l s ≡ (put k v l s, true)
  pub create-present :
      (k v w : Bytes) (l : ℕ) (s : Store) → get k s ≡ some w → create k v l s ≡ (s, false)
  pub get-delete :
      (k j : Bytes) (s : Store) → get j (delete k s) ≡ (if k == j then none else get j s)
  pub lease_of-delete :
      (k j : Bytes) (s : Store) → lease_of j (delete k s) ≡ (if k == j then none else lease_of j s)
  pub get-expire :
      (l : ℕ) (k : Bytes) (s : Store)
      → get k (expire l s) ≡ (if held_by l (lease_of k s) then none else get k s)
  pub lease_of-expire :
      (l : ℕ) (k : Bytes) (s : Store)
      → lease_of k (expire l s) ≡ (if held_by l (lease_of k s) then none else lease_of k s)

-- How a call of etcd ends: with its answer, or with an error before or after it took effect.
pub data Reply : Type 0 where
  answered failed_before failed_after : Reply

-- A lease id of 0, before the node is registered, is `none`.
pub record Registry : Type 0 where
  pub prefix : Bytes
  pub node_id : Bytes
  pub advertise : Bytes
  pub lease_id : Option ℕ

unfoldable pub node_key : Bytes → Bytes → Bytes
node_key prefix node_id = prefix ++ (codes "/nodes/" ++ node_id)

unfoldable pub session_key : Bytes → Bytes → Bytes
session_key prefix session_id = prefix ++ (codes "/sessions/" ++ session_id)

-- What a call leaves, and whether it gave no error.
abbrev pub effect {ℓ} : {S : Type ℓ} → Reply → S → S → S × Bool
effect answered before after = (after, true)
effect failed_before before after = (before, false)
effect failed_after before after = (after, false)

abbrev pub claimed {ℓ} : {S : Type ℓ} → Reply → S → S × Bool → S × Option Bool
claimed answered before (after, won) = (after, some won)
claimed failed_before before (after, won) = (before, none)
claimed failed_after before (after, won) = (after, none)

abbrev pub closed {ℓ} : {S : Type ℓ} → Registry → S × Bool → Registry × S × Bool
closed r (s, true) = (record r { lease_id = none }, s, true)
closed r (s, false) = (r, s, false)

module _ (e : Etcd) where
  open e use {Store, get, put, create, delete, expire}

  -- RegisterSession
  abbrev pub register_under : Reply → Bytes → Registry → Store → Option ℕ → Store × Bool
  register_under reply id r s none = (s, false)
  register_under reply id r s (some lease) =
      effect reply s (put (session_key r.prefix id) r.node_id lease s)

  unfoldable pub register_session : Reply → Bytes → Registry → Store → Store × Bool
  register_session reply id r s = register_under reply id r s r.lease_id

  -- UnregisterSession
  unfoldable pub unregister_session : Reply → Bytes → Registry → Store → Store × Bool
  unregister_session reply id r s = effect reply s (delete (session_key r.prefix id) s)

  -- ClaimSession: whether the claim was won, or none for an error.
  abbrev pub claim_under : Reply → Bytes → Registry → Store → Option ℕ → Store × Option Bool
  claim_under reply id r s none = (s, none)
  claim_under reply id r s (some lease) =
      claimed reply s (create (session_key r.prefix id) r.node_id lease s)

  unfoldable pub claim_session : Reply → Bytes → Registry → Store → Store × Option Bool
  claim_session reply id r s = claim_under reply id r s r.lease_id

  -- RegisterNode up to its keepalive: the lease that was granted, if any, and the record's JSON, if it has
  -- one; the registry keeps the lease also where the record was not put.
  abbrev pub put_node : Reply → Registry → ℕ → Option Bytes → Store → Store × Bool
  put_node reply r lease none s = (s, false)
  put_node reply r lease (some value) s =
      effect reply s (put (node_key r.prefix r.node_id) value lease s)

  unfoldable pub register_node :
      (Bytes → Option Bytes) → Reply → Option ℕ → Registry → Store → Registry × Store × Bool
  register_node encode reply none r s = (r, s, false)
  register_node encode reply (some lease) r s =
      let (t, fine) = put_node reply r lease (encode r.advertise) s in
      (record r { lease_id = some lease }, t, fine)

  -- Close, which revokes the lease.
  abbrev pub revoke : Reply → Registry → Store → Option ℕ → Registry × Store × Bool
  revoke reply r s none = (r, s, true)
  revoke reply r s (some lease) = closed r (effect reply s (expire lease s))

  unfoldable pub close : Reply → Registry → Store → Registry × Store × Bool
  close reply r s = revoke reply r s r.lease_id

  abbrev pub owner_record : (Bytes → Option Bytes) → Option Bytes → Option (Option Bytes)
  owner_record decode none = some none
  owner_record decode (some value) = decode value >>= λ addr. some (some addr)

  abbrev pub owner_of :
      (Bytes → Option Bytes) → Registry → Store → Option Bytes → Option (Option Bytes)
  owner_of decode r s none = some none
  owner_of decode r s (some node_id) =
      if node_id == r.node_id
      then some (some r.advertise)
      else owner_record decode (get (node_key r.prefix node_id) s)

  -- SessionOwner where etcd answers: the address of the owner, none for no owner that is alive, or no
  -- result for a record that is no JSON.
  unfoldable pub session_owner :
      (Bytes → Option Bytes) → Bytes → Registry → Store → Option (Option Bytes)
  session_owner decode id r s = owner_of decode r s (get (session_key r.prefix id) s)
