-- ===== src/Mcp/Mounts.antt =====
-- Which tools of a server are mounted, and under which names.
use turnhive.Base.{
  suc, ◌≤◌, ◌<◌, ◌∙◌, ◌++◌, ◌||◌, codes, eqb, length, leb, none, some, Option-cases, false≢true, ℕ,
  ◌≡◌, ◌≢◌, refl, sym, subst, inl, inr, ◌⊎◌, true, false, Bool-cases, List, [], ◌∷◌, Bytes, All,
  map, arith, Option, ==_iff, bytes_eq,
}
use turnhive.Files.{seen_before, all_pass, is_alphanumeric}
use turnhive.Mcp.{
  tool_parameters, ServerTool, McpTool, matches_tool_name, namespaced, mounted_tool, is_skipped,
  mount_from, mount_mcp_tools,
}

abbrev IsNew : List Bytes → Bytes → Type 0
IsNew seen name = All (λ n. n ≢ name) seen

-- No name stands twice.
abbrev pub Distinct : List Bytes → Type 0
Distinct [] = Unit
Distinct (n ∷ ns) = All (λ m. n ≢ m) ns × Distinct ns

abbrev pub IsAmong : Bytes → List Bytes → Type 0
IsAmong name [] = ⊥
IsAmong name (n ∷ ns) = (n ≡ name) ⊎ IsAmong name ns

pub All-map {ℓ κ μ} :
    {A : Type ℓ} {P : A → Type κ} {Q : A → Type μ}
    → ((x : A) → P x → Q x)
    → (xs : List A) → All P xs
    → All Q xs
All-map f [] h = tt
All-map f (x ∷ xs) (hx, h) = (f x hx, All-map f xs h)

seen_before-IsAmong :
    (name : Bytes) (seen : List Bytes) → seen_before name seen ≡ true → IsAmong name seen
seen_before-IsAmong name [] h = cc
seen_before-IsAmong name (n ∷ seen) h =
    ground (arith, ==_iff n name, seen_before-IsAmong name seen, h)

seen_before-IsNew :
    (name : Bytes) (seen : List Bytes) → seen_before name seen ≡ false → IsNew seen name
seen_before-IsNew name [] h = tt
seen_before-IsNew name (n ∷ seen) h = ground (arith, ==_iff n name, seen_before-IsNew name seen, h)

-- A letter, a digit, an underscore or a dash.
abbrev pub IsToolChar : ℕ → Type 0
IsToolChar c =
    ((b'a' ≤ c) × (c ≤ b'z'))
    ⊎ (((b'A' ≤ c) × (c ≤ b'Z')) ⊎ (((b'0' ≤ c) × (c ≤ b'9')) ⊎ ((c ≡ b'_') ⊎ (c ≡ b'-'))))

-- One to 64 of these.
abbrev pub IsToolName : Bytes → Type 0
IsToolName name = (0 < length name) × (length name ≤ 64) × All IsToolChar name

allowed-IsToolChar : (c : ℕ) → (is_alphanumeric c || eqb c b'_' || eqb c b'-') ≡ true → IsToolChar c
allowed-IsToolChar c h = ground (arith, h)

IsToolChar-allowed : (c : ℕ) → IsToolChar c → (is_alphanumeric c || eqb c b'_' || eqb c b'-') ≡ true
IsToolChar-allowed c h = ground (arith, h)

all_pass-All :
    (s : Bytes)
    → all_pass (λ c. is_alphanumeric c || eqb c b'_' || eqb c b'-') s ≡ true
    → All IsToolChar s
all_pass-All [] h = tt
all_pass-All (c ∷ s) h = elim (Bool-cases (is_alphanumeric c || eqb c b'_' || eqb c b'-')) [
  | inl good ↦ (allowed-IsToolChar c good, all_pass-All s (rw good at h))
  | inr bad ↦ absurd (false≢true (rw bad at h))
]

all_pass_complete :
    (s : Bytes)
    → All IsToolChar s
    → all_pass (λ c. is_alphanumeric c || eqb c b'_' || eqb c b'-') s ≡ true
all_pass_complete [] h = refl
all_pass_complete (c ∷ s) (hc, h) = rw (IsToolChar-allowed c hc) (all_pass_complete s h)

matches_tool_name-IsToolName : (name : Bytes) → matches_tool_name name ≡ true → IsToolName name
unfolding matches_tool_name
matches_tool_name-IsToolName [] h = cc
matches_tool_name-IsToolName (c ∷ s) h = elim (Bool-cases (leb (suc (length s)) 64)) [
  | inl few ↦ (omega arith, ground (arith, few), all_pass-All (c ∷ s) (rw few at h))
  | inr many ↦ absurd (false≢true (rw many at h))
]

IsToolName-matches : (name : Bytes) → IsToolName name → matches_tool_name name ≡ true
unfolding matches_tool_name
IsToolName-matches [] (some_char, few, good) = absurd (omega (arith, some_char))
IsToolName-matches (c ∷ s) (some_char, few, good) =
    rw (all_pass_complete (c ∷ s) good) (ground (arith, few))

module _ (as_object : Bytes → Option Bytes) (server : Bytes) (session : ℕ) where
  abbrev name_of : McpTool → Bytes
  name_of m = m.name

  -- A mounted tool is one of the server's, with a property that all of them have, under a name that fits: it has
  -- the description of that tool, calls it under its own name in the session, and its parameters are the schema
  -- if that is a JSON object, or else an empty one.
  pub record IsMount (P : ServerTool → Type 0) (m : McpTool) : Type 0 where
    pub behind : ServerTool
    pub has : P behind
    pub named : m.name ≡ server ++ (codes "__" ++ behind.name)
    pub calls : m.orig_name ≡ behind.name
    pub in_session : m.session ≡ session
    pub described : m.description ≡ behind.description
    pub parameters :
        ((schema : Bytes) × (object : Bytes) × (behind.input_schema ≡ some schema)
          × (as_object schema ≡ some object)
          × (m.parameters ≡ object))
        ⊎ (((behind.input_schema ≡ none)
              ⊎ ((schema : Bytes) × (behind.input_schema ≡ some schema)
                  × (as_object schema ≡ none)))
            × (m.parameters ≡ codes "{\"type\":\"object\",\"properties\":{}}"))
    pub fits : IsToolName m.name

  parameters-cases :
      (o : Option Bytes)
      → ((schema : Bytes) × (object : Bytes) × (o ≡ some schema)
          × (as_object schema ≡ some object)
          × (tool_parameters as_object o ≡ object))
        ⊎ (((o ≡ none) ⊎ ((schema : Bytes) × (o ≡ some schema) × (as_object schema ≡ none)))
            × (tool_parameters as_object o ≡ codes "{\"type\":\"object\",\"properties\":{}}"))
  parameters-cases none = inr (inl refl, refl)
  parameters-cases (some schema) = elim (Option-cases (as_object schema)) [
    | inl no_object ↦ inr (inr (schema, refl, no_object), rw no_object refl)
    | inr (object, is_object) ↦ inl (schema, object, refl, is_object, rw is_object refl)
  ]

  is_skipped-cases :
      (seen : List Bytes) (name : Bytes)
      → ((is_skipped as_object seen name ≡ true)
          × ((matches_tool_name name ≡ false) ⊎ IsAmong name seen))
        ⊎ ((is_skipped as_object seen name ≡ false)
            × (matches_tool_name name ≡ true)
            × IsNew seen name)
  is_skipped-cases seen name = elim (Bool-cases (matches_tool_name name)) [
    | inr odd ↦ inl (rw odd refl, inl odd)
    | inl fits ↦ elim (Bool-cases (seen_before name seen)) [
      | inl old ↦ inl (rw (fits, old) refl, inr (seen_before-IsAmong name seen old))
      | inr fresh ↦ inr (rw (fits, fresh) refl, fits, seen_before-IsNew name seen fresh)
    ]
  ]

  mount_from-IsMount :
      (P : ServerTool → Type 0) (seen : List Bytes) (ts : List ServerTool)
      → All P ts
      → All (IsMount P) (mount_from as_object server session seen ts)
  unfolding mount_from namespaced
  mount_from-IsMount P seen [] h = tt
  mount_from-IsMount P seen (t ∷ ts) (ht, h) =
      elim (is_skipped-cases seen (namespaced server t.name)) [
        | inl (skipped, why) ↦ rw skipped (mount_from-IsMount P seen ts h)
        | inr (kept, fits, fresh) ↦ rw kept (
          record {
            behind = t;
            has = ht;
            named = refl;
            calls = refl;
            in_session = refl;
            described = refl;
            parameters = parameters-cases t.input_schema;
            fits = matches_tool_name-IsToolName _ fits;
          },
          mount_from-IsMount P (namespaced server t.name ∷ seen) ts h,
        )
      ]

  -- The names that are mounted are new and stand once.
  tail-IsNew :
      (name : Bytes) (seen : List Bytes) (ms : List McpTool)
      → All (λ m. IsNew (name ∷ seen) (name_of m)) ms
      → All (λ n. name ≢ n) (map name_of ms) × All (λ m. IsNew seen (name_of m)) ms
  tail-IsNew name seen [] h = (tt, tt)
  tail-IsNew name seen (m ∷ ms) ((first, more), h) =
      let (a, b) = tail-IsNew name seen ms h in ((first, a), (more, b))

  mount_from-Distinct :
      (seen : List Bytes) (ts : List ServerTool)
      → let ms = mount_from as_object server session seen ts in
        All (λ m. IsNew seen (name_of m)) ms × Distinct (map name_of ms)
  unfolding mount_from
  mount_from-Distinct seen [] = (tt, tt)
  mount_from-Distinct seen (t ∷ ts) = elim (is_skipped-cases seen (namespaced server t.name)) [
    | inl (skipped, why) ↦ rw skipped (mount_from-Distinct seen ts)
    | inr (kept, fits, fresh) ↦
        let (new, distinct) = mount_from-Distinct (namespaced server t.name ∷ seen) ts in
        let (apart, older) = tail-IsNew (namespaced server t.name) seen _ new in
        rw kept ((fresh, older), (apart, distinct))
  ]

  -- A listed tool whose name fits is mounted, unless its name was seen.
  abbrev Serves : List Bytes → List McpTool → ServerTool → Type 0
  Serves seen ms t =
      matches_tool_name (namespaced server t.name) ≡ true
      → IsAmong (namespaced server t.name) seen
        ⊎ IsAmong (namespaced server t.name) (map name_of ms)

  pub mount_from-skipped :
      (seen : List Bytes) (t : ServerTool) (ts : List ServerTool)
      → is_skipped as_object seen (namespaced server t.name) ≡ true
      → mount_from as_object server session seen (t ∷ ts)
        ≡ mount_from as_object server session seen ts
  unfolding mount_from
  mount_from-skipped seen t ts h = rw h refl

  pub mount_from-kept :
      (seen : List Bytes) (t : ServerTool) (ts : List ServerTool)
      → is_skipped as_object seen (namespaced server t.name) ≡ false
      → mount_from as_object server session seen (t ∷ ts)
        ≡ mounted_tool as_object server session t
          ∷ mount_from as_object server session (namespaced server t.name ∷ seen) ts
  unfolding mount_from
  mount_from-kept seen t ts h = rw h refl

  mount_from-Serves :
      (seen : List Bytes) (ts : List ServerTool)
      → All (Serves seen (mount_from as_object server session seen ts)) ts
  mount_from-Serves seen [] = tt
  mount_from-Serves seen (t ∷ ts) = elim (is_skipped-cases seen (namespaced server t.name)) [
    | inl (skipped, inl odd) ↦
        subst (λ ms. All (Serves seen ms) (t ∷ ts)) (sym (mount_from-skipped seen t ts skipped))
          ((λ fits. cc), mount_from-Serves seen ts)
    | inl (skipped, inr old) ↦
        subst (λ ms. All (Serves seen ms) (t ∷ ts)) (sym (mount_from-skipped seen t ts skipped))
          ((λ fits. inl old), mount_from-Serves seen ts)
    | inr (kept, fits, fresh) ↦
        let name : Bytes = namespaced server t.name in
        let ms : List McpTool = mount_from as_object server session (name ∷ seen) ts in
        subst (λ out. All (Serves seen out) (t ∷ ts)) (sym (mount_from-kept seen t ts kept))
          (
            (λ ok. inr (inl refl)),
            All-map
                (λ u served ok.
                  by_case (namespaced server u.name) name seen (map name_of ms) (served ok))
                ts (mount_from-Serves (name ∷ seen) ts),
          )
  ]
    where
      by_case :
          (n name : Bytes) (seen names : List Bytes)
          → IsAmong n (name ∷ seen) ⊎ IsAmong n names
          → IsAmong n seen ⊎ IsAmong n (name ∷ names)
      by_case n name seen names (inl (inl same)) = inr (inl same)
      by_case n name seen names (inl (inr old)) = inl old
      by_case n name seen names (inr there) = inr (inr there)

  -- The tools of a server: every mounted one is a listed one; no two share a name; and every listed tool has a
  -- name that does not fit, or a mounted one of its name.
  pub record Mounts (P : ServerTool → Type 0) (ts : List ServerTool) (ms : List McpTool)
      : Type 0 where
    pub mounted : All (IsMount P) ms
    pub distinct : Distinct (map name_of ms)
    pub served :
        All
          (λ t.
            ¬ IsToolName (server ++ (codes "__" ++ t.name))
            ⊎ IsAmong (server ++ (codes "__" ++ t.name)) (map name_of ms))
          ts

  -- A listing of tools is mounted soundly: with `P` what holds of every tool that the server listed, every
  -- mounted tool has a tool with `P` behind it, whose name and description it has, which it calls under its own
  -- name in the session, and whose schema it takes if that is a JSON object, or else an empty one. Its own name is the server's and that
  -- tool's, joined by two underscores, has one to 64 letters, digits, underscores and dashes, and is no other
  -- mounted tool's; and every listed tool whose name fits is mounted, or another of the same name.
  pub mount_mcp_tools-Mounts :
      (P : ServerTool → Type 0) (ts : List ServerTool)
      → All P ts
      → Mounts P ts (mount_mcp_tools as_object server session ts)
  unfolding mount_mcp_tools namespaced
  mount_mcp_tools-Mounts P ts h = record {
    mounted = mount_from-IsMount P [] ts h;
    distinct = (mount_from-Distinct [] ts).1;
    served =
        All-map
          (λ t serves. elim (Bool-cases (matches_tool_name (namespaced server t.name))) [
            | inl fits ↦ inr (not_seen (namespaced server t.name) _ (serves fits))
            | inr odd ↦ inl (λ fits. false≢true (sym odd ∙ IsToolName-matches _ fits))
          ])
          ts (mount_from-Serves [] ts);
  }
    where
      not_seen : (n : Bytes) (names : List Bytes) → IsAmong n [] ⊎ IsAmong n names → IsAmong n names
      not_seen n names (inl none_seen) = absurd none_seen
      not_seen n names (inr there) = there
