-- ===== src/Registry/Owned.antt =====
-- A session that is owned: its record names a node and is held by a lease, and which calls keep it so.
use turnhive.Base.{
  ne_==, ==_ne, ==_iff, ◌>>=◌, ◌⊎◌, Bool-cases, ℕ, ◌≡◌, ◌≢◌, refl, sym, ap, subst, ◌∙◌, inl, inr,
  Bool, true, false, Option, none, some, Option-cases, Bytes, arith, eqb, eqb_iff, ◌==◌, ==_refl,
  bytes_eq,
}
use turnhive.Registry.{
  Etcd, Reply, answered, failed_before, failed_after, Registry, node_key, session_key, held_by,
  effect, claimed, closed, register_under, claim_under, revoke, register_session,
  unregister_session, claim_session, register_node, close, owner_of, session_owner,
}
use turnhive.Registry.Keys.{session_key-injective, node_key-ne-session_key}

other_key : (p j id : Bytes) → j ≢ id → (session_key p j == session_key p id) ≡ false
other_key p j id h = ne_== _ _ (λ e. h (session_key-injective p j id e))

node_not_session : (p n id : Bytes) → (node_key p n == session_key p id) ≡ false
node_not_session p n id = ne_== _ _ (node_key-ne-session_key p n id)

pub eqb_refl : (n : ℕ) → eqb n n ≡ true
eqb_refl n = ground arith

pub some-ne-none {ℓ} : {A : Type ℓ} (a : A) → some a ≢ none
some-ne-none a e = cc

false_not_won : some false ≢ some true
false_not_won x = cc

refused {ℓ} :
    {S : Type ℓ} (reply : Reply) (s : S)
    → ((claimed reply s (s, false)).0 ≡ s) × ((claimed reply s (s, false)).1 ≢ some true)
refused answered s = (refl, λ x. false_not_won x)
refused failed_before s = (refl, λ x. some-ne-none true (sym x))
refused failed_after s = (refl, λ x. some-ne-none true (sym x))

module _ (e : Etcd) where
  open e use {Store, get, lease_of, put, create, delete, expire}

  -- The record of a session: its node, and the lease that holds it.
  pub record Owned (prefix id node_id : Bytes) (lease : ℕ) (s : Store) : Type 0 where
    pub owner : get (session_key prefix id) s ≡ some node_id
    pub held : lease_of (session_key prefix id) s ≡ some lease

  module _ (p id n : Bytes) (l : ℕ) where
    pub effect-Owned :
        (reply : Reply) (s t : Store)
        → Owned p id n l s
        → Owned p id n l t
        → Owned p id n l (effect reply s t).0
    effect-Owned answered s t a b = b
    effect-Owned failed_before s t a b = a
    effect-Owned failed_after s t a b = b

    pub put-Owned :
        (k v : Bytes) (lease : ℕ) (s : Store)
        → (k == session_key p id) ≡ false
        → Owned p id n l s
        → Owned p id n l (put k v lease s)
    put-Owned k v lease s h o = record {
      owner = e.get-put k (session_key p id) v lease s ∙ rw h o.owner;
      held = e.lease_of-put k (session_key p id) v lease s ∙ rw h o.held;
    }

    pub delete-Owned :
        (k : Bytes) (s : Store)
        → (k == session_key p id) ≡ false
        → Owned p id n l s
        → Owned p id n l (delete k s)
    delete-Owned k s h o = record {
      owner = e.get-delete k (session_key p id) s ∙ rw h o.owner;
      held = e.lease_of-delete k (session_key p id) s ∙ rw h o.held;
    }

    pub expire-Owned :
        (lease : ℕ) (s : Store) → lease ≢ l → Owned p id n l s → Owned p id n l (expire lease s)
    expire-Owned lease s h o =
        let spared : held_by lease (lease_of (session_key p id) s) ≡ false =
          rw o.held (ground (arith, eqb_iff l lease)) in
        record {
          owner = e.get-expire lease (session_key p id) s ∙ rw spared o.owner;
          held = e.lease_of-expire lease (session_key p id) s ∙ rw spared o.held;
        }

    -- A claim of the session changes nothing, and one of another session leaves its record.
    pub create-Owned :
        (j v : Bytes) (lease : ℕ) (s : Store)
        → Owned p id n l s
        → Owned p id n l (create (session_key p j) v lease s).0
    create-Owned j v lease s o = elim (Option-cases (get (session_key p j) s)) [
      | inl absent ↦
          let apart : session_key p j ≢ session_key p id =
            λ same. some-ne-none n (sym o.owner ∙ sym (ap (λ k. get k s) same) ∙ absent) in
          rw (e.create-absent (session_key p j) v lease s absent)
            (put-Owned (session_key p j) v lease s (ne_== _ _ apart) o)
      | inr (w, present) ↦ rw (e.create-present (session_key p j) v w lease s present) o
    ]

    pub claimed-Owned :
        (reply : Reply) (s : Store) (x : Store × Bool)
        → Owned p id n l s
        → Owned p id n l x.0
        → Owned p id n l (claimed reply s x).0
    claimed-Owned answered s (t, won) a b = b
    claimed-Owned failed_before s (t, won) a b = a
    claimed-Owned failed_after s (t, won) a b = b

    pub register-Owned :
        (reply : Reply) (j : Bytes) (r : Registry) (s : Store)
        → (r.prefix ≡ p) × (j ≢ id)
        → Owned p id n l s
        → Owned p id n l (register_session e reply j r s).0
    unfolding register_session
    register-Owned reply j r s (same, other) o = elim (Option-cases r.lease_id) [
      | inl unregistered ↦ rw unregistered o
      | inr (lease, f) ↦
          subst (λ x. Owned p id n l (register_under e reply j r s x).0) (sym f)
            (effect-Owned reply s _ o
              (rw same (put-Owned _ r.node_id lease s (other_key p j id other) o)))
    ]

    pub claim-Owned :
        (reply : Reply) (j : Bytes) (r : Registry) (s : Store)
        → r.prefix ≡ p
        → Owned p id n l s
        → Owned p id n l (claim_session e reply j r s).0
    unfolding claim_session
    claim-Owned reply j r s same o = elim (Option-cases r.lease_id) [
      | inl unregistered ↦ rw unregistered o
      | inr (lease, f) ↦
          rw f (claimed-Owned reply s _ o (rw same (create-Owned j r.node_id lease s o)))
    ]

    pub unregister-Owned :
        (reply : Reply) (j : Bytes) (r : Registry) (s : Store)
        → (r.prefix ≡ p) × (j ≢ id)
        → Owned p id n l s
        → Owned p id n l (unregister_session e reply j r s).0
    unfolding unregister_session
    unregister-Owned reply j r s (same, other) o =
        effect-Owned reply s _ o (rw same (delete-Owned _ s (other_key p j id other) o))

    pub closed-Owned :
        (r : Registry) (x : Store × Bool) → Owned p id n l x.0 → Owned p id n l (closed r x).1
    closed-Owned r (s, true) o = o
    closed-Owned r (s, false) o = o

    pub join-Owned :
        (encode : Bytes → Option Bytes) (reply : Reply) (granted : Option ℕ) (r : Registry)
        (s : Store)
        → r.prefix ≡ p
        → Owned p id n l s
        → Owned p id n l (register_node e encode reply granted r s).1
    unfolding register_node
    join-Owned encode reply none r s same o = o
    join-Owned encode reply (some lease) r s same o = elim (Option-cases (encode r.advertise)) [
      | inl unwritten ↦ rw unwritten o
      | inr (value, f) ↦ rw f (
          effect-Owned reply s _ o
            (rw same (put-Owned _ value lease s (node_not_session p r.node_id id) o)))
    ]

    pub leave-Owned :
        (reply : Reply) (r : Registry) (s : Store)
        → r.lease_id ≢ some l
        → Owned p id n l s
        → Owned p id n l (close e reply r s).1
    unfolding close
    leave-Owned reply r s other o = elim (Option-cases r.lease_id) [
      | inl unregistered ↦ rw unregistered o
      | inr (lease, f) ↦
          let gone : Owned p id n l (expire lease s) =
            expire-Owned lease s (λ same. other (f ∙ ap some same)) o in
          subst (λ x. Owned p id n l (revoke e reply r s x).1) (sym f)
            (closed-Owned r _ (effect-Owned reply s _ o gone))
    ]

    -- Nobody wins a claim of an owned session, and every lookup goes to the node of its record.
    pub Owned-refuses :
        (reply : Reply) (r : Registry) (s : Store)
        → r.prefix ≡ p
        → Owned p id n l s
        → ((claim_session e reply id r s).0 ≡ s) × ((claim_session e reply id r s).1 ≢ some true)
    unfolding claim_session
    Owned-refuses reply r s same o = elim (Option-cases r.lease_id) [
      | inl unregistered ↦ rw unregistered (refl, λ x. some-ne-none true (sym x))
      | inr (lease, f) ↦
          let taken : create (session_key r.prefix id) r.node_id lease s ≡ (s, false) =
            e.create-present _ r.node_id n lease s
              (ap (λ q. get (session_key q id) s) same ∙ o.owner) in
          rw f (rw taken (refused reply s))
    ]

    Owned-found :
        (decode : Bytes → Option Bytes) (r : Registry) (s : Store)
        → r.prefix ≡ p
        → Owned p id n l s
        → session_owner e decode id r s ≡ owner_of e decode r s (some n)
    unfolding session_owner
    Owned-found decode r s same o =
        ap (owner_of e decode r s) (ap (λ q. get (session_key q id) s) same ∙ o.owner)

  pub put_self :
      (p id n : Bytes) (lease : ℕ) (s : Store)
      → Owned p id n lease (put (session_key p id) n lease s)
  put_self p id n lease s = record {
    owner =
        e.get-put (session_key p id) (session_key p id) n lease s
        ∙ rw (==_refl (session_key p id)) refl;
    held =
        e.lease_of-put (session_key p id) (session_key p id) n lease s
        ∙ rw (==_refl (session_key p id)) refl;
  }

  pub claim_session-Owned :
      (id : Bytes) (r : Registry) (lease : ℕ) (s : Store)
      → r.lease_id ≡ some lease
      → (claim_session e answered id r s).1 ≡ some true
      → Owned r.prefix id r.node_id lease (claim_session e answered id r s).0
  unfolding claim_session
  claim_session-Owned id r lease s f won = elim (Option-cases (get (session_key r.prefix id) s)) [
    | inl absent ↦
        subst (λ x. Owned r.prefix id r.node_id lease (claim_under e answered id r s x).0) (sym f)
          (rw (e.create-absent (session_key r.prefix id) r.node_id lease s absent)
            (put_self r.prefix id r.node_id lease s))
    | inr (w, present) ↦
        let lost : claim_session e answered id r s ≡ (s, some false) =
          ap (claim_under e answered id r s) f
          ∙ ap (claimed answered s)
              (e.create-present (session_key r.prefix id) r.node_id w lease s present) in
        absurd (false_not_won (sym (ap (λ x. x.1) lost) ∙ won))
  ]

  -- The claim of a registered node wins a session that has no record.
  pub absent-claims :
      (id : Bytes) (r : Registry) (lease : ℕ) (s : Store)
      → r.lease_id ≡ some lease
      → get (session_key r.prefix id) s ≡ none
      → (claim_session e answered id r s).1 ≡ some true
  unfolding claim_session
  absent-claims id r lease s f absent =
      ap (λ x. (claim_under e answered id r s x).1) f
      ∙ ap (λ x. (claimed answered s x).1)
          (e.create-absent (session_key r.prefix id) r.node_id lease s absent)

  -- What the lookup of a node finds for a session of the node `n`: its own address if it is that node, or the
  -- address that the record of that node has (no result if that is no JSON), or no owner that is alive if that
  -- node has no record.
  abbrev pub Resolves : Bytes → Bytes → (Bytes → Option Bytes) → Registry → Store → Type 0
  Resolves id n decode other s =
      ((other.node_id ≡ n) × (session_owner e decode id other s ≡ some (some other.advertise)))
      ⊎ ((other.node_id ≢ n)
          × (((get (node_key other.prefix n) s ≡ none)
                × (session_owner e decode id other s ≡ some none))
              ⊎ ((value : Bytes) × (get (node_key other.prefix n) s ≡ some value)
                  × (session_owner e decode id other s
                      ≡ (decode value >>= λ addr. some (some addr))))))

  owner_of-Resolves :
      (id n : Bytes) (decode : Bytes → Option Bytes) (other : Registry) (s : Store)
      → session_owner e decode id other s ≡ owner_of e decode other s (some n)
      → Resolves id n decode other s
  owner_of-Resolves id n decode other s found = elim (Bool-cases (n == other.node_id)) [
    | inl self ↦ inl (sym ((==_iff n other.node_id).0 self), found ∙ rw self refl)
    | inr apart ↦ inr (
      (λ same. ==_ne n other.node_id apart (sym same)),
      elim (Option-cases (get (node_key other.prefix n) s)) [
        | inl none_there ↦ inl (none_there, found ∙ rw apart (rw none_there refl))
        | inr (value, there) ↦ inr (value, there, found ∙ rw apart (rw there refl))
      ],
    )
  ]

  -- What a node meets while a session is owned by the node `n`: its lookup, and its claim, which is not won and
  -- changes nothing.
  abbrev pub ServedBy : Bytes → Bytes → (Bytes → Option Bytes) → Reply → Registry → Store → Type 0
  ServedBy id n decode reply other s =
      Resolves id n decode other s
      × ((claim_session e reply id other s).0 ≡ s)
      × ((claim_session e reply id other s).1 ≢ some true)

  pub Owned-ServedBy :
      (id n : Bytes) (l : ℕ) (s : Store) (decode : Bytes → Option Bytes) (reply : Reply)
      (other : Registry)
      → Owned other.prefix id n l s
      → ServedBy id n decode reply other s
  Owned-ServedBy id n l s decode reply other o =
      let (unchanged, lost) = Owned-refuses other.prefix id n l reply other s refl o in
      (
        owner_of-Resolves id n decode other s
            (Owned-found other.prefix id n l decode other s refl o),
        unchanged,
        lost,
      )
