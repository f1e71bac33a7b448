-- ===== src/Tests/Cluster/Nodes.antt =====
-- An etcd and an object storage in memory, and the nodes and the session of the tests.
use turnhive.Base.{
  ℕ, ◌≡◌, refl, Bool, true, false, Option, none, some, [], Bytes, codes, arith, drop, has_prefix,
  ◌==◌, bytes_eq, if◌then◌else◌,
}
use turnhive.Base.Int.{pos}
use turnhive.Registry.{Etcd, held_by, Registry}
use turnhive.Spec.{SessionSpec}
use turnhive.Node.{Bucket}

-- What a key holds: a value and its lease.
abbrev pub Cells : Type 0
Cells = Bytes → Option (Bytes × ℕ)

abbrev pub value_of : Option (Bytes × ℕ) → Option Bytes
value_of none = none
value_of (some (v, l)) = some v

abbrev pub lease_in : Option (Bytes × ℕ) → Option ℕ
lease_in none = none
lease_in (some (v, l)) = some l

abbrev pub put_cell : Bytes → Bytes → ℕ → Cells → Cells
put_cell k v l s j = if k == j then some (v, l) else s j

abbrev pub clear_cell : Bytes → Cells → Cells
clear_cell k s j = if k == j then none else s j

pub put_cell-value :
    (k j v : Bytes) (l : ℕ) (s : Cells)
    → value_of (put_cell k v l s j) ≡ (if k == j then some v else value_of (s j))
put_cell-value k j v l s = ground arith

pub put_cell-lease :
    (k j v : Bytes) (l : ℕ) (s : Cells)
    → lease_in (put_cell k v l s j) ≡ (if k == j then some l else lease_in (s j))
put_cell-lease k j v l s = ground arith

pub clear_cell-value :
    (k j : Bytes) (s : Cells)
    → value_of (clear_cell k s j) ≡ (if k == j then none else value_of (s j))
clear_cell-value k j s = ground arith

pub clear_cell-lease :
    (k j : Bytes) (s : Cells)
    → lease_in (clear_cell k s j) ≡ (if k == j then none else lease_in (s j))
clear_cell-lease k j s = ground arith

abbrev pub create_on : Bytes → Bytes → ℕ → Cells → Option (Bytes × ℕ) → Cells × Bool
create_on k v l s none = (put_cell k v l s, true)
create_on k v l s (some held) = (s, false)

abbrev pub unless_held : ℕ → Option (Bytes × ℕ) → Option (Bytes × ℕ)
unless_held l none = none
unless_held l (some (v, held)) = if held_by l (some held) then none else some (v, held)

pub create_on-absent :
    (k v : Bytes) (l : ℕ) (s : Cells) (o : Option (Bytes × ℕ))
    → value_of o ≡ none
    → create_on k v l s o ≡ (put_cell k v l s, true)
create_on-absent k v l s none h = refl
create_on-absent k v l s (some held) h = cc

pub create_on-present :
    (k v w : Bytes) (l : ℕ) (s : Cells) (o : Option (Bytes × ℕ))
    → value_of o ≡ some w
    → create_on k v l s o ≡ (s, false)
create_on-present k v w l s none h = cc
create_on-present k v w l s (some held) h = refl

pub unless_held-value :
    (l : ℕ) (o : Option (Bytes × ℕ))
    → value_of (unless_held l o) ≡ (if held_by l (lease_in o) then none else value_of o)
unless_held-value l none = refl
unless_held-value l (some (v, held)) = ground arith

pub unless_held-lease :
    (l : ℕ) (o : Option (Bytes × ℕ))
    → lease_in (unless_held l o) ≡ (if held_by l (lease_in o) then none else lease_in o)
unless_held-lease l none = refl
unless_held-lease l (some (v, held)) = ground arith

abbrev pub memory : Etcd
memory = record {
  Store = Cells;
  get = λ k s. value_of (s k);
  lease_of = λ k s. lease_in (s k);
  put = put_cell;
  create = λ k v l s. create_on k v l s (s k);
  delete = clear_cell;
  expire = λ l s k. unless_held l (s k);
  get-put = put_cell-value;
  lease_of-put = put_cell-lease;
  create-absent = λ k v l s h. create_on-absent k v l s (s k) h;
  create-present = λ k v w l s h. create_on-present k v w l s (s k) h;
  get-delete = clear_cell-value;
  lease_of-delete = clear_cell-lease;
  get-expire = λ l k s. unless_held-value l (s k);
  lease_of-expire = λ l k s. unless_held-lease l (s k);
}

abbrev pub no_keys : memory.Store
no_keys k = none

abbrev pub bucket : Bucket
bucket = record {
  Objects = Bytes → Option Bytes;
  get_object = λ k o. o k;
  put_object = λ k v o j. if k == j then some v else o j;
  delete_object = λ k o j. if k == j then none else o j;
  get_object-put_object = λ k j v o. refl;
  get_object-delete_object = λ k j o. refl;
}

abbrev pub no_objects : bucket.Objects
no_objects k = none

-- An address is a scheme and a host.
abbrev pub parse_url : Bytes → Option (Bytes × Bytes)
parse_url u = if has_prefix u (codes "http://") then some (codes "http", drop 7 u) else none

abbrev pub request : SessionSpec
request = record {
  model = record {
    url = codes "http://llm";
    protocol = codes "openai_completions";
    name = codes "m";
    headers = [];
    max_context = pos 8000;
    features = [];
  };
  system = codes "be brief";
  pool = codes "p";
  skills = [];
  mcp_servers = [];
  tools = [];
}

-- Specs that differ from the request in their prompt at most are written as that.
abbrev pub encode : SessionSpec → Option Bytes
encode r = some r.system

abbrev pub decode : Bytes → Option SessionSpec
decode text = some (record request { system = text })

abbrev pub write_node : Bytes → Option Bytes
write_node address = some address

abbrev pub read_node : Bytes → Option Bytes
read_node value = some value

abbrev pub node : Bytes → Bytes → ℕ → Registry
node id advertise lease = record {
  prefix = codes "t";
  node_id = id;
  advertise = advertise;
  lease_id = some lease;
}

abbrev pub alice : Registry
alice = node (codes "a") (codes "http://a") 1

abbrev pub bob : Registry
bob = node (codes "b") (codes "http://b") 2

abbrev pub carol : Registry
carol = node (codes "c") (codes "http://c") 3
