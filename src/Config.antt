-- ===== src/Config.antt =====
-- config/config.go behind the YAML decoder: the defaults and the validation. Durations are nanoseconds.
-- url.Parse and net.SplitHostPort are parameters, and the host name and process id come as the node's default
-- id. Fields that are neither defaulted nor validated are left out.
pub mod Sound
use turnhive.Base.{
  ℕ, ◌+◌, ◌*◌, Bool, true, false, not, ◌&&◌, ◌||◌, Option, none, some, is_none, is_some, List, [],
  ◌∷◌, ◌++◌, Bytes, codes, eqb, ltb, leb, length, ◌==◌, bytes_eq, if◌then◌else◌,
}
use turnhive.Base.Int.{ℤ, pos, negsuc, is_negative}
use turnhive.Files.{contains}
use turnhive.Spec.{http_parts}
use turnhive.Llm.Retry.{second}

pub record Config : Type 0 where
  pub listen : Bytes
  pub node_id : Bytes
  pub advertise : Bytes
  pub bucket : Bytes
  pub s3_prefix : Bytes
  pub endpoints : List Bytes
  pub dial_timeout : ℤ
  pub etcd_prefix : Bytes
  pub lease_ttl : ℤ
  pub cert_file : Bytes
  pub key_file : Bytes
  pub ironhive_url : Bytes
  pub ironhive_lease : ℤ
  pub idle_timeout : ℤ
  pub cold_timeout : ℤ

abbrev pub slash : ℕ
slash = b'/'

abbrev pub put_before : ℕ → Bytes → Bytes
put_before c [] = if eqb c slash then [] else c ∷ []
put_before c (d ∷ rest) = c ∷ d ∷ rest

-- strings.Trim(s, "/")
unfoldable pub trim_slashes_right : Bytes → Bytes
trim_slashes_right [] = []
trim_slashes_right (c ∷ s) = put_before c (trim_slashes_right s)

unfoldable pub trim_slashes_left : Bytes → Bytes
trim_slashes_left [] = []
trim_slashes_left (c ∷ s) = let rest = trim_slashes_left s in if eqb c slash then rest else c ∷ s

unfoldable pub trim_slashes : Bytes → Bytes
trim_slashes s = trim_slashes_left (trim_slashes_right s)

abbrev pub or_text : Bytes → Bytes → Bytes
or_text s default = if s == [] then default else s

abbrev pub is_zero : ℤ → Bool
is_zero (pos n) = eqb n 0
is_zero (negsuc n) = false

abbrev pub or_duration : ℤ → ℕ → ℤ
or_duration d default = if is_zero d then pos default else d

abbrev pub default_listen : Bytes
default_listen = codes ":8080"

abbrev pub default_prefix : Bytes
default_prefix = codes "turnhive"

abbrev pub half_hour : ℕ
half_hour = 30 * (60 * second)

-- a < b
abbrev pub ltb_int : ℤ → ℤ → Bool
ltb_int (pos a) (pos b) = ltb a b
ltb_int (pos a) (negsuc b) = false
ltb_int (negsuc a) (pos b) = true
ltb_int (negsuc a) (negsuc b) = ltb b a

abbrev pub is_positive : ℤ → Bool
is_positive d = ltb_int (pos 0) d

pub data ConfigError : Type 0 where
  bad_listen bad_advertise no_bucket slashes_in_s3_prefix no_endpoints slashes_in_etcd_prefix :
      ConfigError
  short_ttl half_tls no_ironhive_url bad_ironhive_url bad_lease bad_idle bad_cold cold_not_above :
      ConfigError

abbrev pub refuse : Bool → ConfigError → Option ConfigError → Option ConfigError
refuse test e rest = if test then some e else rest

module _ (parse_url : Bytes → Option (Bytes × Bytes))
    (split_host_port : Bytes → Option (Bytes × Bytes)) (default_id : Bytes) where
  abbrev pub port_of : Option (Bytes × Bytes) → Bytes
  port_of none = codes "8080"
  port_of (some (host, port)) = or_text port (codes "8080")

  unfoldable pub set_defaults : Config → Config
  set_defaults c =
      let listen = or_text c.listen default_listen in
      record c {
        listen = listen;
        node_id = or_text c.node_id default_id;
        advertise =
            or_text c.advertise (codes "http://127.0.0.1:" ++ port_of (split_host_port listen));
        s3_prefix = or_text (trim_slashes c.s3_prefix) default_prefix;
        dial_timeout = or_duration c.dial_timeout (5 * second);
        etcd_prefix = or_text (trim_slashes c.etcd_prefix) default_prefix;
        lease_ttl = or_duration c.lease_ttl (10 * second);
        ironhive_lease = or_duration c.ironhive_lease half_hour;
        idle_timeout = or_duration c.idle_timeout half_hour;
      }

  unfoldable pub validate : Config → Option ConfigError
  validate c = refuse (is_none (split_host_port c.listen)) bad_listen (
      refuse (not (http_parts (parse_url c.advertise))) bad_advertise (
        refuse (c.bucket == []) no_bucket (
          refuse (contains (codes "//") c.s3_prefix) slashes_in_s3_prefix (
            refuse (eqb (length c.endpoints) 0) no_endpoints (
              refuse (contains (codes "//") c.etcd_prefix) slashes_in_etcd_prefix (
                refuse (ltb_int c.lease_ttl (pos second)) short_ttl (
                  refuse
                    (not (
                      eqb (if c.cert_file == [] then 1 else 0) (if c.key_file == [] then 1 else 0)))
                    half_tls
                    (refuse (c.ironhive_url == []) no_ironhive_url (
                      refuse (not (http_parts (parse_url c.ironhive_url))) bad_ironhive_url (
                        refuse (not (is_positive c.ironhive_lease)) bad_lease (
                          refuse (not (is_positive c.idle_timeout)) bad_idle (
                            refuse (is_negative c.cold_timeout) bad_cold (
                              refuse
                                (is_positive c.cold_timeout
                                  && not (ltb_int c.idle_timeout c.cold_timeout))
                                cold_not_above none)))))))))))))

  -- What Load makes of a decoded configuration.
  pub data Loaded : Type 0 where
    loaded : Config → Loaded
    invalid : ConfigError → Loaded

  abbrev pub checked : Config → Option ConfigError → Loaded
  checked c none = loaded c
  checked c (some e) = invalid e

  unfoldable pub load_config : Config → Loaded
  load_config c = checked (set_defaults c) (validate (set_defaults c))
