-- ===== src/Tests/Config.antt =====
-- A configuration with the fields that have no default.
use turnhive.Base.{
  ◌≡◌, refl, Option, none, some, [], ◌∷◌, Bytes, codes, drop, has_prefix, bytes_eqb, if◌then◌else◌,
}
use turnhive.Base.Int.{pos}
use turnhive.Files.{contains}
use turnhive.Config.{
  trim_slashes, trim_slashes_left, trim_slashes_right, Config, set_defaults, validate, load_config,
  loaded,
}
use turnhive.Config.Sound.{IsSound, load_config-IsSound}

abbrev parse_url : Bytes → Option (Bytes × Bytes)
parse_url u = if has_prefix u (codes "http://") then some (codes "http", drop 7 u) else none

abbrev split_host_port : Bytes → Option (Bytes × Bytes)
split_host_port s = if has_prefix s (codes ":") then some ([], drop 1 s) else none

abbrev given : Config
given = record {
  listen = [];
  node_id = [];
  advertise = [];
  bucket = codes "b";
  s3_prefix = codes "/team/one/";
  endpoints = codes "http://etcd" ∷ [];
  dial_timeout = pos 0;
  etcd_prefix = [];
  lease_ttl = pos 0;
  cert_file = [];
  key_file = [];
  ironhive_url = codes "http://hive";
  ironhive_lease = pos 0;
  idle_timeout = pos 0;
  cold_timeout = pos 0;
}

abbrev filled : Config
filled = set_defaults parse_url split_host_port (codes "host-1") given

loads : load_config parse_url split_host_port (codes "host-1") given ≡ loaded filled
unfolding load_config validate has_prefix set_defaults bytes_eqb contains trim_slashes
    trim_slashes_left trim_slashes_right
loads = refl

load_config-IsSound_example : IsSound parse_url split_host_port filled
load_config-IsSound_example =
    load_config-IsSound parse_url split_host_port (codes "host-1") given filled loads
