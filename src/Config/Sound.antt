-- ===== src/Config/Sound.antt =====
-- What a configuration that loads gives the other parts.
use turnhive.Base.{
  ==_ne, ℕ, zero, suc, ◌≤◌, ◌≡◌, ◌≢◌, refl, sym, ap, subst, ◌∙◌, inl, inr, ◌⊎◌, Bool, true, false,
  not, ◌&&◌, Bool-cases, Option, none, some, is_none, [], ◌∷◌, Bytes, codes, arith, eqb, eqb_iff,
  last?, length, has_prefix, ◌==◌, ==_iff, bytes_eq, bytes_eqb, if◌then◌else◌,
}
use turnhive.Base.Int.{ℤ, pos, negsuc, is_negative}
use turnhive.Files.{contains}
use turnhive.Llm.Retry.{second}
use turnhive.Spec.{http_parts}
use turnhive.Spec.Sound.{HttpParts, http_parts-good}
use turnhive.Config.{
  Config, ConfigError, slash, put_before, trim_slashes_right, trim_slashes_left, trim_slashes,
  or_text, default_prefix, ltb_int, is_positive, refuse, set_defaults, validate, loaded, checked,
  load_config,
}

abbrev EndsWell : Bytes → Type 0
EndsWell s = last? s ≢ some slash

put_before-EndsWell : (c : ℕ) (s : Bytes) → EndsWell s → EndsWell (put_before c s)
put_before-EndsWell c [] h = elim (Bool-cases (eqb c slash)) [
  | inl bar ↦ rw bar (λ e. cc)
  | inr other ↦ rw other (λ e. absurd (ground (arith, eqb_iff c slash, other, e)))
]
put_before-EndsWell c (d ∷ s) h = h

trim_right-EndsWell : (s : Bytes) → EndsWell (trim_slashes_right s)
unfolding trim_slashes_right
trim_right-EndsWell [] = λ e. cc
trim_right-EndsWell (c ∷ s) = put_before-EndsWell c (trim_slashes_right s) (trim_right-EndsWell s)

tail-EndsWell : (c : ℕ) (s : Bytes) → EndsWell (c ∷ s) → EndsWell s
tail-EndsWell c [] h = λ e. cc
tail-EndsWell c (d ∷ s) h = h

trim_left-Clean :
    (s : Bytes)
    → EndsWell s
    → EndsWell (trim_slashes_left s) × (has_prefix (trim_slashes_left s) (slash ∷ []) ≡ false)
unfolding trim_slashes_left has_prefix
trim_left-Clean [] h = (h, refl)
trim_left-Clean (c ∷ s) h = elim (Bool-cases (eqb c slash)) [
  | inl bar ↦ rw bar (trim_left-Clean s (tail-EndsWell c s h))
  | inr other ↦ rw other (h, rw other refl)
]

-- A prefix of keys: it is there, has no slash at either end, and none that follows another.
pub record IsPrefix (s : Bytes) : Type 0 where
  pub given : s ≢ []
  pub starts : has_prefix s (slash ∷ []) ≡ false
  pub ends : last? s ≢ some slash
  pub single : contains (codes "//") s ≡ false

default-IsPrefix : IsPrefix default_prefix
unfolding contains has_prefix bytes_eqb
default-IsPrefix = record { given = λ e. cc; starts = refl; ends = λ e. cc; single = refl }

or_text-IsPrefix :
    (s : Bytes)
    → EndsWell s
    → has_prefix s (slash ∷ []) ≡ false
    → contains (codes "//") (or_text s default_prefix) ≡ false
    → IsPrefix (or_text s default_prefix)
or_text-IsPrefix s ends starts single = elim (Bool-cases (s == [])) [
  | inl empty ↦ subst (λ b. IsPrefix (if b then default_prefix else s)) (sym empty) default-IsPrefix
  | inr text ↦
      subst (λ b. IsPrefix (if b then default_prefix else s)) (sym text)
        (record {
          given = ==_ne s [] text;
          starts = starts;
          ends = ends;
          single =
              sym (ap (λ b. contains (codes "//") (if b then default_prefix else s)) text) ∙ single;
        })
]

prefix-IsPrefix :
    (s : Bytes)
    → contains (codes "//") (or_text (trim_slashes s) default_prefix) ≡ false
    → IsPrefix (or_text (trim_slashes s) default_prefix)
unfolding trim_slashes
prefix-IsPrefix s =
    let (ends, starts) = trim_left-Clean (trim_slashes_right s) (trim_right-EndsWell s) in
    or_text-IsPrefix (trim_slashes s) ends starts

refuse-none :
    (test : Bool) (e : ConfigError) (rest : Option ConfigError)
    → refuse test e rest ≡ none
    → (test ≡ false) × (rest ≡ none)
refuse-none true e rest h = cc
refuse-none false e rest h = (refl, h)

-- A lease that etcd can grant: at least one whole second.
abbrev pub IsLease : ℤ → Type 0
IsLease (pos ttl) = second ≤ ttl
IsLease (negsuc n) = ⊥

at_least_second : (d : ℤ) → ltb_int d (pos second) ≡ false → IsLease d
at_least_second (pos ttl) h = ground (arith, h)
at_least_second (negsuc n) h = cc

-- No cold sweeps, or a cold timeout beyond the idle timeout.
abbrev pub ColdAfter : ℤ → ℤ → Type 0
ColdAfter idle cold = (cold ≡ pos 0) ⊎ (ltb_int idle cold ≡ true)

cold-ColdAfter :
    (idle cold : ℤ)
    → is_negative cold ≡ false
    → (is_positive cold && not (ltb_int idle cold)) ≡ false
    → ColdAfter idle cold
cold-ColdAfter idle (pos zero) h k = inl refl
cold-ColdAfter idle (pos (suc n)) h k = elim (Bool-cases (ltb_int idle (pos (suc n)))) [
  | inl above ↦ inr above
  | inr below ↦ absurd (ground (arith, below, k))
]
cold-ColdAfter idle (negsuc n) h k = cc

-- Both empty, or neither.
abbrev pub Together : Bytes → Bytes → Type 0
Together s t = ((s ≡ []) × (t ≡ [])) ⊎ ((s ≢ []) × (t ≢ []))

pair-Together :
    (s t : Bytes)
    → not (eqb (if s == [] then 1 else 0) (if t == [] then 1 else 0)) ≡ false
    → Together s t
pair-Together s t h = ground (arith, h, ==_iff s [], ==_iff t [])

not-false : {b : Bool} → not b ≡ false → b ≡ true
not-false {b = true} h = refl
not-false {b = false} h = cc

module _ (parse_url : Bytes → Option (Bytes × Bytes))
    (split_host_port : Bytes → Option (Bytes × Bytes)) where
  pub record IsSound (c : Config) : Type 0 where
    pub listens : split_host_port c.listen ≢ none
    pub advertised : HttpParts (parse_url c.advertise)
    pub stored : c.bucket ≢ []
    pub object_keys : IsPrefix c.s3_prefix
    pub clustered : c.endpoints ≢ []
    pub etcd_keys : IsPrefix c.etcd_prefix
    pub leased : IsLease c.lease_ttl
    pub certified : Together c.cert_file c.key_file
    pub sandboxed : HttpParts (parse_url c.ironhive_url)
    pub sandbox_leased : is_positive c.ironhive_lease ≡ true
    pub reaps : is_positive c.idle_timeout ≡ true
    pub evicts : ColdAfter c.idle_timeout c.cold_timeout

  module _ (default_id : Bytes) where
    validate-IsSound :
        (c : Config)
        → (contains (codes "//") c.s3_prefix ≡ false → IsPrefix c.s3_prefix)
        → (contains (codes "//") c.etcd_prefix ≡ false → IsPrefix c.etcd_prefix)
        → validate parse_url split_host_port default_id c ≡ none
        → IsSound c
    unfolding validate
    validate-IsSound c s3 etcd h =
        let (k1, h) = refuse-none (is_none (split_host_port c.listen)) _ _ h in
        let (k2, h) = refuse-none (not (http_parts (parse_url c.advertise))) _ _ h in
        let (k3, h) = refuse-none (c.bucket == []) _ _ h in
        let (k4, h) = refuse-none (contains (codes "//") c.s3_prefix) _ _ h in
        let (k5, h) = refuse-none (eqb (length c.endpoints) 0) _ _ h in
        let (k6, h) = refuse-none (contains (codes "//") c.etcd_prefix) _ _ h in
        let (k7, h) = refuse-none (ltb_int c.lease_ttl (pos second)) _ _ h in
        let (k8, h) =
          refuse-none
            (not (eqb (if c.cert_file == [] then 1 else 0) (if c.key_file == [] then 1 else 0))) _ _
            h in
        let (_, h) = refuse-none (c.ironhive_url == []) _ _ h in
        let (k10, h) = refuse-none (not (http_parts (parse_url c.ironhive_url))) _ _ h in
        let (k11, h) = refuse-none (not (is_positive c.ironhive_lease)) _ _ h in
        let (k12, h) = refuse-none (not (is_positive c.idle_timeout)) _ _ h in
        let (k13, h) = refuse-none (is_negative c.cold_timeout) _ _ h in
        let (k14, _) =
          refuse-none (is_positive c.cold_timeout && not (ltb_int c.idle_timeout c.cold_timeout)) _
            _ h in
        record {
          listens = λ e. cc (k1, e);
          advertised = (http_parts-good (parse_url c.advertise)).0 (not-false k2);
          stored = ==_ne c.bucket [] k3;
          object_keys = s3 k4;
          clustered = λ e. absurd (cc (k5, e));
          etcd_keys = etcd k6;
          leased = at_least_second c.lease_ttl k7;
          certified = pair-Together c.cert_file c.key_file k8;
          sandboxed = (http_parts-good (parse_url c.ironhive_url)).0 (not-false k10);
          sandbox_leased = not-false k11;
          reaps = not-false k12;
          evicts = cold-ColdAfter c.idle_timeout c.cold_timeout k13 k14;
        }

    checked-loaded :
        (c cfg : Config) (o : Option ConfigError)
        → checked parse_url split_host_port default_id c o ≡ loaded cfg
        → (o ≡ none) × (c ≡ cfg)
    checked-loaded c cfg none h = (refl, cc)
    checked-loaded c cfg (some e) h = cc

    -- A configuration that Load returns is sound: the listen address splits, both URLs are HTTP with a host, the
    -- bucket and the endpoints are given, both key prefixes are non-empty, with no slash at either end and no two
    -- together, the etcd lease is at least a second, certificate and key are given together, the sandbox's lease
    -- and the idle timeout are positive, and the cold timeout is zero or beyond the idle timeout.
    pub load_config-IsSound :
        (c cfg : Config)
        → load_config parse_url split_host_port default_id c ≡ loaded cfg
        → IsSound cfg
    unfolding load_config set_defaults
    load_config-IsSound c cfg h =
        let d = set_defaults parse_url split_host_port default_id c in
        let (valid, same) =
          checked-loaded d cfg (validate parse_url split_host_port default_id d) h in
        subst IsSound same
          (validate-IsSound d (prefix-IsPrefix c.s3_prefix) (prefix-IsPrefix c.etcd_prefix) valid)
