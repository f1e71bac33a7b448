-- ===== src/Spec/Sound.antt =====
-- What the validation of a session's request accepts.
use turnhive.Base.{
  ℕ, suc, ◌≡◌, ◌≢◌, ◌↔◌, ◌⊎◌, refl, true, false, Option, none, some, List, [], ◌∷◌, Bytes, codes,
  arith, All, ==_iff, bytes_eq,
}
use turnhive.Base.Int.{is_negative}
use turnhive.Files.{is_blank, seen_before}
use turnhive.Spec.{
  SessionSpec, SkillSpec, McpServerSpec, ToolSpec, support_image, check_features, check_skills,
  check_tools, matches_server_name, known_transport, http_parts, is_http_url, validate_http_url,
  check_servers, validate_spec,
}

abbrev pub GoodSkill : SkillSpec → Type 0
GoodSkill s = (is_blank s.name ≡ false) × (is_blank s.object_key ≡ false)

abbrev pub GoodTool : ToolSpec → Type 0
GoodTool t = (is_blank t.name ≡ false) × (t.parameters ≢ none)

abbrev pub KnownTransport : Bytes → Type 0
KnownTransport t = (t ≡ []) ⊎ ((t ≡ codes "streamable") ⊎ (t ≡ codes "sse"))

abbrev pub IsNew : Bytes → List Bytes → Type 0
IsNew name names = All (λ n. n ≢ name) names

check_features-good :
    (i : ℕ) (fs : List Bytes) → (check_features i fs ≡ none) ↔ All (λ f. f ≡ support_image) fs
unfolding check_features
check_features-good i [] = (λ e. tt, λ g. refl)
check_features-good i (f ∷ fs) =
    ground (arith, ==_iff f support_image, check_features-good (suc i) fs)

check_skills-good : (i : ℕ) (ss : List SkillSpec) → (check_skills i ss ≡ none) ↔ All GoodSkill ss
unfolding check_skills
check_skills-good i [] = (λ e. tt, λ g. refl)
check_skills-good i (s ∷ ss) = ground (arith, check_skills-good (suc i) ss)

check_tools-good : (i : ℕ) (ts : List ToolSpec) → (check_tools i ts ≡ none) ↔ All GoodTool ts
unfolding check_tools
check_tools-good i [] = (λ e. tt, λ g. refl)
check_tools-good i (t ∷ ts) = ground (arith, check_tools-good (suc i) ts)

seen_before-IsNew :
    (name : Bytes) (seen : List Bytes) → (seen_before name seen ≡ false) ↔ IsNew name seen
seen_before-IsNew name [] = (λ e. tt, λ g. refl)
seen_before-IsNew name (n ∷ seen) = ground (arith, ==_iff n name, seen_before-IsNew name seen)

known_transport-known : (t : Bytes) → (known_transport t ≡ true) ↔ KnownTransport t
known_transport-known t =
    ground (arith, ==_iff t [], ==_iff t (codes "streamable"), ==_iff t (codes "sse"))

-- A URL that parses, with an HTTP scheme and a host.
abbrev pub HttpParts : Option (Bytes × Bytes) → Type 0
HttpParts none = ⊥
HttpParts (some (scheme, host)) = ((scheme ≡ codes "http") ⊎ (scheme ≡ codes "https")) × (host ≢ [])

pub http_parts-good : (o : Option (Bytes × Bytes)) → (http_parts o ≡ true) ↔ HttpParts o
http_parts-good none = (λ e. cc, λ h. absurd h)
http_parts-good (some (scheme, host)) =
    ground (arith, ==_iff scheme (codes "http"), ==_iff scheme (codes "https"), ==_iff host [])

module _ (parse_url : Bytes → Option (Bytes × Bytes)) where
  abbrev pub IsHttpUrl : Bytes → Type 0
  IsHttpUrl raw = HttpParts (parse_url raw)

  abbrev pub GoodServer : McpServerSpec → Type 0
  GoodServer m =
      (matches_server_name m.name ≡ true)
      × (m.url ≢ [])
      × IsHttpUrl m.url
      × KnownTransport m.transport

  -- The servers are good, and their names differ from one another and from those before.
  abbrev pub GoodServers : List Bytes → List McpServerSpec → Type 0
  GoodServers seen [] = Unit
  GoodServers seen (m ∷ ms) = GoodServer m × IsNew m.name seen × GoodServers (m.name ∷ seen) ms

  -- The requests that make a session.
  pub record GoodSpec (r : SessionSpec) : Type 0 where
    pub url_given : r.model.url ≢ []
    pub url_good : IsHttpUrl r.model.url
    pub protocol : r.model.protocol ≡ codes "openai_completions"
    pub model_name : is_blank r.model.name ≡ false
    pub max_context : is_negative r.model.max_context ≡ false
    pub features : All (λ f. f ≡ support_image) r.model.features
    pub system : is_blank r.system ≡ false
    pub pool : is_blank r.pool ≡ false
    pub skills : All GoodSkill r.skills
    pub mcp_servers : GoodServers [] r.mcp_servers
    pub tools : All GoodTool r.tools

  is_http_url-good : (raw : Bytes) → (is_http_url parse_url raw ≡ true) ↔ IsHttpUrl raw
  unfolding is_http_url
  is_http_url-good raw = http_parts-good (parse_url raw)

  check_servers-good :
      (i : ℕ) (seen : List Bytes) (ms : List McpServerSpec)
      → (check_servers parse_url i seen ms ≡ none) ↔ GoodServers seen ms
  unfolding check_servers validate_http_url
  check_servers-good i seen [] = (λ e. tt, λ g. refl)
  check_servers-good i seen (m ∷ ms) = ground (
    arith,
    seen_before-IsNew m.name seen,
    ==_iff m.url [],
    is_http_url-good m.url,
    known_transport-known m.transport,
    check_servers-good (suc i) (m.name ∷ seen) ms,
  )

  -- A request passes the validation exactly when its model has the name of a known protocol, an HTTP URL, a
  -- name that is no blank text, a context that is not negative and known features; its prompt and pool are no
  -- blank texts; every skill has a name and a key; every MCP server has a name that fits the namespace of its
  -- tools and that no earlier server has, an HTTP URL and a known transport; and every tool has a name and a
  -- schema of its arguments.
  pub validate_spec-good : (r : SessionSpec) → (validate_spec parse_url r ≡ none) ↔ GoodSpec r
  unfolding validate_spec validate_http_url
  validate_spec-good r = ground (
    arith,
    ==_iff r.model.url [],
    is_http_url-good r.model.url,
    ==_iff r.model.protocol [],
    ==_iff r.model.protocol (codes "openai_completions"),
    check_features-good 0 r.model.features,
    check_skills-good 0 r.skills,
    check_servers-good 0 [] r.mcp_servers,
    check_tools-good 0 r.tools,
  )
