-- ===== src/Tests/Cluster.antt =====
-- Three nodes of a cluster, with etcd and the object storage in memory: a session is created, claimed, evicted,
-- adopted and deleted.
mod Nodes
use turnhive.Base.{
  ==_ne, ℕ, ◌≡◌, ◌⊎◌, ◌↔◌, refl, sym, ap, Bool, true, false, Option, none, some, List, [], ◌∷◌,
  Bytes, codes, All, arith, drop, has_prefix, ◌==◌, bytes_eq, bytes_eqb, if◌then◌else◌,
}
use turnhive.Base.Assoc.{lookup}
use turnhive.Base.Int.{pos}
use turnhive.Loop.{loaded, load_history}
use turnhive.Session.State.{new_session}
use turnhive.Session.Turns.{touch}
use turnhive.Session.Sandbox.{take_if_cold, listed}
use turnhive.Registry.{
  Etcd, held_by, answered, failed_after, Registry, session_key, claim_session, session_owner,
}
use turnhive.Registry.Owned.{Owned, ServedBy}
use turnhive.Registry.Claims.{
  Call, registers, claims, joins, leaves, expires, Spares, run, claim_stays, crash_frees,
}
use turnhive.Files.{is_blank, blank_from, prefix_length}
use turnhive.Spec.{
  SessionSpec, validate_spec, validate_http_url, is_http_url, check_features, check_skills,
  check_servers, check_tools,
}
use turnhive.Spec.Sound.{GoodSpec, validate_spec-good}
use turnhive.Provision.{Build, fresh_loop}
use turnhive.Node.{Bucket, Hosted, hosted, Node, Creating, handle_create_session, spec_object_key}
use turnhive.Node.Adopt.{Adopting, adopt_session, never_existed}
use turnhive.Node.Sweep.{reregister, evict_cold_session, handle_delete_session}
use turnhive.Node.Adoption.{
  IsSaved, Supports, Takes, evict_cold_session-adopts, handle_delete_session-forgets,
}
use turnhive.Node.Reconnect.{reregister-Owned}
use turnhive.Node.Creation.{IsCreated, IsRefused, handle_create_session-settles}
use turnhive.Routing.{Request, Meets, route_session}
use turnhive.Routing.Sound.{Fits, route_session-Fits}
use turnhive.Tests.Cluster.Nodes.{
  Cells, value_of, lease_in, put_cell, clear_cell, put_cell-value, put_cell-lease, clear_cell-value,
  clear_cell-lease, create_on, unless_held, create_on-absent, create_on-present, unless_held-value,
  unless_held-lease, memory, no_keys, bucket, no_objects, parse_url, request, encode, decode,
  write_node, read_node, node, alice, bob, carol,
}

abbrev session : Bytes
session = codes "s"

-- Other nodes claim it, register another session, join and leave, and the lease of one ends.
abbrev calls : List Call
calls =
    claims failed_after session bob
    ∷ registers answered (codes "u") carol
    ∷ joins answered (some 2) bob
    ∷ leaves answered carol
    ∷ expires 2
    ∷ claims answered session carol
    ∷ []

calls-Spares : All (Spares (codes "t") session 1) calls
unfolding bytes_eqb
calls-Spares =
    (refl, ((refl, ==_ne (codes "u") session refl), (refl, ((λ e. cc), ((λ e. cc), (refl, tt))))))

wins : (claim_session memory answered session alice no_keys).1 ≡ some true
unfolding claim_session
wins = refl

claim_stays_example :
    ServedBy memory session
      (codes "a")
      read_node
      answered
      bob
      (run memory write_node calls (claim_session memory answered session alice no_keys).0)
claim_stays_example =
    claim_stays memory write_node session alice 1 no_keys refl wins calls calls-Spares read_node
      answered bob refl

crash_frees_example :
    let after =
      memory.expire 1
        (run memory write_node calls (claim_session memory answered session alice no_keys).0) in
    (session_owner memory read_node session bob after ≡ some none)
    × ((claim_session memory answered session carol after).1 ≡ some true)
    × ServedBy memory session
        (codes "c")
        read_node
        answered
        bob
        (claim_session memory answered session carol after).0
crash_frees_example =
    crash_frees memory write_node session alice 1 no_keys refl wins calls calls-Spares read_node
      answered bob refl carol 3 refl refl

abbrev build : Build
build = record {
  allocated = some 7;
  skills_installed = true;
  persisted_restored = true;
  files_injected = true;
  loading = loaded [];
  loop = 1;
  stop_renew = 1;
}

abbrev creating : Creating
creating = record { build = build; put = answered; register = answered; undo = answered; now = 0 }

abbrev empty : Registry → Node
empty r = record { registry = r; sessions = [] }

request-decodes : (text : Bytes) → encode request ≡ some text → decode text ≡ some request
request-decodes text e = let same : codes "be brief" ≡ text = cc in sym (ap decode same)

request-valid : validate_spec parse_url request ≡ none
unfolding validate_spec bytes_eqb validate_http_url is_http_url has_prefix is_blank blank_from
    prefix_length check_features check_skills check_servers check_tools
request-valid = refl

validate_spec-good_example : (validate_spec parse_url request ≡ none) ↔ GoodSpec parse_url request
validate_spec-good_example = validate_spec-good parse_url request

handle_create_session-settles_example :
    let out =
      handle_create_session memory bucket encode decode parse_url session request creating
        (empty alice)
        no_keys
        no_objects in
    IsCreated memory bucket encode decode parse_url session request creating (empty alice) out
    ⊎ IsRefused memory bucket encode decode parse_url session request creating (empty alice) out
handle_create_session-settles_example =
    handle_create_session-settles memory bucket encode decode parse_url session request creating
      (empty alice) request-decodes no_keys no_objects

abbrev adopting : Adopting
adopting = record {
  readable = true;
  persisted = some [];
  files = some [];
  claim = answered;
  loading = loaded [];
  undo = answered;
  now = 5;
  loop = 2;
}

abbrev claimed_by_alice : memory.Store
claimed_by_alice = memory.put (session_key (codes "t") session) (codes "a") 1 no_keys

abbrev old_session : Hosted
old_session = hosted request (touch 0 new_session) fresh_loop

abbrev hosting : Node
hosting = record (empty alice) { sessions = (session, old_session) ∷ [] }

abbrev saved : bucket.Objects
saved = bucket.put_object (spec_object_key session) (codes "be brief") no_objects

saved-IsSaved : IsSaved memory bucket encode decode parse_url session request saved
unfolding bytes_eqb spec_object_key
saved-IsSaved = record {
  text = codes "be brief";
  stored = refl;
  decodes = refl;
  valid = request-valid;
}

abbrev supports : Supports memory bucket encode decode parse_url adopting
unfolding load_history
supports = record {
  objects_listed = [];
  manifest = [];
  loop = (load_history (loaded []) fresh_loop).0;
  readable = refl;
  persisted = refl;
  files = refl;
  claim = refl;
  loads = refl;
}

is_cold : (take_if_cold 10 20 old_session.conversation.session).2 ≡ true
unfolding take_if_cold touch new_session bytes_eqb
is_cold = refl

evict_cold_session-adopts_example :
    let out =
      evict_cold_session memory bucket encode decode parse_url 10 20 answered session old_session
        hosting claimed_by_alice in
    (lookup session out.0.sessions ≡ none)
    × Takes memory bucket encode decode parse_url session request adopting supports read_node carol
        (empty bob)
        (adopt_session memory bucket encode decode parse_url session adopting
          (empty bob)
          out.1
          saved)
evict_cold_session-adopts_example =
    evict_cold_session-adopts memory bucket encode decode parse_url session old_session 10 20
      hosting claimed_by_alice saved adopting supports read_node carol (empty bob) 2 is_cold
      saved-IsSaved refl refl refl

hosting_session : lookup session hosting.sessions ≡ some old_session
unfolding lookup bytes_eqb
hosting_session = refl

handle_delete_session-forgets_example :
    let out =
      handle_delete_session memory bucket encode decode parse_url answered answered session hosting
        claimed_by_alice saved in
    (lookup session out.node.sessions ≡ none)
    × (out.released ≡ listed old_session.conversation.session.sandbox)
    × (adopt_session memory bucket encode decode parse_url session adopting
          (empty bob)
          out.store
          out.objects
        ≡ (empty bob, out.store, never_existed))
handle_delete_session-forgets_example =
    handle_delete_session-forgets memory bucket encode decode parse_url session old_session answered
      hosting (empty bob) claimed_by_alice saved adopting
      (handle_delete_session memory bucket encode decode parse_url answered answered session hosting
        claimed_by_alice saved).store
      hosting_session refl

abbrev asked : Request
asked = record { id = session; forwarded = false; may_adopt = true }

abbrev meets : Meets memory.Store
meets = record {
  in_flight = some true;
  woken = empty bob;
  answers = true;
  adopting = adopting;
  later = empty bob;
  later_store = claimed_by_alice;
  later_answers = true;
}

route_session-Fits_example : Fits memory bucket encode decode parse_url read_node asked (
    route_session memory bucket encode decode parse_url read_node asked meets
      (empty bob)
      claimed_by_alice
      saved)
route_session-Fits_example =
    route_session-Fits memory bucket encode decode parse_url read_node asked meets (empty bob)
      claimed_by_alice saved

-- The session of `hosting` was adopted by another node while the lease was lost.
abbrev adopted_by_bob : memory.Store
adopted_by_bob = memory.put (session_key (codes "t") session) (codes "b") 2 no_keys

abbrev alice_again : Registry
alice_again = node (codes "a") (codes "http://a") 9

reregister-Owned_example : Owned memory (codes "t") session (codes "a") 9 (
    reregister memory bucket encode decode parse_url
      (λ id. answered)
      alice_again
      hosting.sessions
      adopted_by_bob)
reregister-Owned_example =
    reregister-Owned memory bucket encode decode parse_url (λ id. answered) alice_again 9 refl
      session hosting.sessions old_session adopted_by_bob hosting_session refl
