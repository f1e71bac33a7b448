-- ===== src/Spec.antt =====
-- controller/spec.go: the request that creates a session, and its validation. url.Parse is the parameter
-- `parse_url`, which gives the scheme and the host of a URL that parses.
pub mod Sound
use turnhive.Base.{
  ℕ, suc, Bool, true, false, not, ◌&&◌, ◌||◌, Option, none, some, List, [], ◌∷◌, Bytes, codes, leb,
  eqb, length, ◌==◌, bytes_eq, if◌then◌else◌,
}
use turnhive.Base.Int.{ℤ, is_negative}
use turnhive.Files.{is_blank, all_pass, is_alphanumeric, seen_before}

pub record ModelSpec : Type 0 where
  pub url : Bytes
  pub protocol : Bytes
  pub name : Bytes
  pub headers : List (Bytes × Bytes)
  pub max_context : ℤ
  pub features : List Bytes

pub record SkillSpec : Type 0 where
  pub name : Bytes
  pub description : Bytes
  pub object_key : Bytes

pub record McpServerSpec : Type 0 where
  pub name : Bytes
  pub url : Bytes
  pub headers : List (Bytes × Bytes)
  pub transport : Bytes

-- `parameters` is the JSON Schema, or none where it is nil.
pub record ToolSpec : Type 0 where
  pub name : Bytes
  pub description : Bytes
  pub parameters : Option Bytes

-- CreateSessionRequest; `system` is its prompt, and `pool` its ironhive pool.
pub record SessionSpec : Type 0 where
  pub model : ModelSpec
  pub system : Bytes
  pub pool : Bytes
  pub skills : List SkillSpec
  pub mcp_servers : List McpServerSpec
  pub tools : List ToolSpec

pub data Field : Type 0 where
  model_url : Field
  server_url : ℕ → Field

pub data SpecError : Type 0 where
  model_url_required protocol_required protocol_unknown model_name_required : SpecError
  max_context_negative system_required pool_required : SpecError
  no_http_url : Field → SpecError
  unknown_feature : ℕ → SpecError
  skill_name_required skill_key_required : ℕ → SpecError
  server_name_malformed server_name_repeated server_url_required transport_unknown : ℕ → SpecError
  tool_name_required tool_parameters_required : ℕ → SpecError

-- if test { return error }, and what follows it.
abbrev pub refuse : Bool → SpecError → Option SpecError → Option SpecError
refuse test e rest = if test then some e else rest

-- if err := …; err != nil { return err }
abbrev pub then_check : Option SpecError → Option SpecError → Option SpecError
then_check none rest = rest
then_check (some e) rest = some e

abbrev pub support_image : Bytes
support_image = codes "support_image"

unfoldable pub check_features : ℕ → List Bytes → Option SpecError
check_features i [] = none
check_features i (f ∷ fs) =
    refuse (not (f == support_image)) (unknown_feature i) (check_features (suc i) fs)

unfoldable pub check_skills : ℕ → List SkillSpec → Option SpecError
check_skills i [] = none
check_skills i (s ∷ ss) =
    refuse (is_blank s.name) (skill_name_required i)
      (refuse (is_blank s.object_key) (skill_key_required i) (check_skills (suc i) ss))

unfoldable pub check_tools : ℕ → List ToolSpec → Option SpecError
check_tools i [] = none
check_tools i (t ∷ ts) = refuse (is_blank t.name) (tool_name_required i) (elim t.parameters [
  | none ↦ some (tool_parameters_required i)
  | some p ↦ check_tools (suc i) ts
])

abbrev pub is_server_char : ℕ → Bool
is_server_char c = is_alphanumeric c || eqb c b'_' || eqb c b'-'

-- mcpServerNamePattern, ^[a-zA-Z0-9_-]{1,32}$
unfoldable pub matches_server_name : Bytes → Bool
matches_server_name [] = false
matches_server_name (c ∷ s) = leb (suc (length s)) 32 && all_pass is_server_char (c ∷ s)

-- The transports of agent/tools_mcp.go, and "" for auto.
abbrev pub known_transport : Bytes → Bool
known_transport t = t == [] || t == codes "streamable" || t == codes "sse"

-- u.Scheme and u.Host
abbrev pub http_parts : Option (Bytes × Bytes) → Bool
http_parts none = false
http_parts (some (scheme, host)) =
    (scheme == codes "http" || scheme == codes "https") && not (host == [])

module _ (parse_url : Bytes → Option (Bytes × Bytes)) where
  unfoldable pub is_http_url : Bytes → Bool
  is_http_url raw = http_parts (parse_url raw)

  unfoldable pub validate_http_url : Field → Bytes → Option SpecError
  validate_http_url field raw = if is_http_url raw then none else some (no_http_url field)

  unfoldable pub check_servers : ℕ → List Bytes → List McpServerSpec → Option SpecError
  check_servers i seen [] = none
  check_servers i seen (m ∷ ms) =
      refuse (not (matches_server_name m.name)) (server_name_malformed i) (
        refuse (seen_before m.name seen) (server_name_repeated i) (
          refuse (m.url == []) (server_url_required i) (
            then_check (validate_http_url (server_url i) m.url) (
              refuse (not (known_transport m.transport)) (transport_unknown i)
                (check_servers (suc i) (m.name ∷ seen) ms)))))

  -- CreateSessionRequest.Validate
  unfoldable pub validate_spec : SessionSpec → Option SpecError
  validate_spec r = refuse (r.model.url == []) model_url_required (
      then_check (validate_http_url model_url r.model.url) (
        refuse (r.model.protocol == []) protocol_required (
          refuse (not (r.model.protocol == codes "openai_completions")) protocol_unknown (
            refuse (is_blank r.model.name) model_name_required (
              refuse (is_negative r.model.max_context) max_context_negative (
                then_check (check_features 0 r.model.features) (
                  refuse (is_blank r.system) system_required (
                    refuse (is_blank r.pool) pool_required (
                      then_check (check_skills 0 r.skills) (
                        then_check (check_servers 0 [] r.mcp_servers)
                          (check_tools 0 r.tools)))))))))))
