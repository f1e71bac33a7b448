-- ===== src/Mcp/Sessions.antt =====
-- What becomes of the sessions that are opened with MCP servers.
use turnhive.Base.{
  ◌∙◌, append_assoc, append-nil, ℕ, ◌+◌, ◌<◌, ◌≡◌, refl, sym, ap, subst, inl, inr, Bool-cases,
  Option, none, some, List, [], ◌∷◌, ◌++◌, Bytes, All, All-append, arith,
}
use turnhive.Base.Split.{count, count-append}
use turnhive.Mcp.Mounts.{All-map, mount_from-skipped, mount_from-kept}
use turnhive.Mcp.{
  Transport, McpServer, ServerTool, transports, list_mcp_tools, Attempt, refused, late, opened,
  timed_out, Connection, Collected, conns_of, is_skipped, namespaced, mount_from, mount_mcp_tools,
  listed_tools, attempted, connect_from, connect_mcp_server, collect, collect_all, nothing_yet,
  connect_mcp_servers,
}

-- The sessions that a server lets be opened: the first transport that connects in time is the last that is tried.
abbrev pub opened_before : Attempt → List ℕ → List ℕ
opened_before (refused err) later = later
opened_before (late session) later = session ∷ later
opened_before (opened session answers) later = session ∷ []

unfoldable pub opened_from : (Transport → Attempt) → List Transport → List ℕ
opened_from meets [] = []
opened_from meets (tr ∷ trs) = opened_before (meets tr) (opened_from meets trs)

unfoldable pub all_opened : List (McpServer × (Transport → Attempt)) → List ℕ
all_opened [] = []
all_opened ((s, meets) ∷ rest) = opened_from meets (transports s) ++ all_opened rest

-- Those of them that are opened when the timer of their connect has fired.
abbrev pub late_before : Attempt → List ℕ → List ℕ
late_before (refused err) later = later
late_before (late session) later = session ∷ later
late_before (opened session answers) later = []

unfoldable pub late_from : (Transport → Attempt) → List Transport → List ℕ
late_from meets [] = []
late_from meets (tr ∷ trs) = late_before (meets tr) (late_from meets trs)

unfoldable pub all_late : List (McpServer × (Transport → Attempt)) → List ℕ
all_late [] = []
all_late ((s, meets) ∷ rest) = late_from meets (transports s) ++ all_late rest

module _ (as_object : Bytes → Option Bytes) where
  mount_from-session :
      (server : Bytes) (session : ℕ) (seen : List Bytes) (ts : List ServerTool)
      → All (λ m. m.session ≡ session) (mount_from as_object server session seen ts)
  unfolding mount_from
  mount_from-session server session seen [] = tt
  mount_from-session server session seen (t ∷ ts) =
      elim (Bool-cases (is_skipped as_object seen (namespaced server t.name))) [
        | inl skipped ↦
            subst (All (λ m. m.session ≡ session))
              (sym (mount_from-skipped as_object server session seen t ts skipped))
              (mount_from-session server session seen ts)
        | inr kept ↦
            subst (All (λ m. m.session ≡ session))
              (sym (mount_from-kept as_object server session seen t ts kept))
              (refl, mount_from-session server session (namespaced server t.name ∷ seen) ts)
      ]

  -- A connection keeps one session, or closes it, or never had one; what has no session has no tools.
  record IsKept (os ls : List ℕ) (c : Connection) : Type 0 where
    accounted :
        (n : ℕ) → count n os ≡ count n c.closed + count n (conns_of c.conn) + count n c.cancelled
    cancelled : c.cancelled ≡ ls
    live : All (λ m. c.conn ≡ some m.session) c.mounted

  attempted-IsKept :
      (server : Bytes) (a : Attempt) (next : Option Bytes → Connection) (later ls : List ℕ)
      → ((last : Option Bytes) → IsKept later ls (next last))
      → IsKept (opened_before a later) (late_before a ls) (attempted as_object server a next)
  unfolding mount_mcp_tools count
  attempted-IsKept server (refused err) next later ls h = h (some err)
  attempted-IsKept server (late session) next later ls h =
      let k = h (some (timed_out as_object)) in
      record {
        accounted = λ n. ground (arith, k.accounted n);
        cancelled = ap (◌∷◌ session) k.cancelled;
        live = k.live;
      }
  attempted-IsKept server (opened session answers) next later ls h =
      by_listing (list_mcp_tools answers)
    where
      by_listing :
          (o : Option (List ServerTool))
          → IsKept (session ∷ []) [] (listed_tools as_object server session o)
      by_listing none = record { accounted = λ n. omega arith; cancelled = refl; live = tt }
      by_listing (some ts) = record {
        accounted = λ n. omega arith;
        cancelled = refl;
        live = All-map (λ m same. ap some (sym same)) _ (mount_from-session server session [] ts);
      }

  connect_from-IsKept :
      (server : Bytes) (meets : Transport → Attempt) (trs : List Transport) (last : Option Bytes)
      → IsKept
          (opened_from meets trs)
          (late_from meets trs)
          (connect_from as_object server meets trs last)
  unfolding connect_from opened_from late_from count
  connect_from-IsKept server meets [] last = record {
    accounted = λ n. refl;
    cancelled = refl;
    live = tt;
  }
  connect_from-IsKept server meets (tr ∷ trs) last =
      attempted-IsKept server (meets tr) (connect_from as_object server meets trs)
        (opened_from meets trs) (late_from meets trs) (connect_from-IsKept server meets trs)

  -- The sessions opened are those closed at once, those kept for closeAll, and those that came late, of which only
  -- the context is cancelled; every tool has a session that is kept.
  pub record Accounts (total : ℕ → ℕ) (ls : List ℕ) (out : Collected) : Type 0 where
    pub accounted :
        (n : ℕ) → total n ≡ count n out.closed + count n out.conns + count n out.cancelled
    pub cancelled : out.cancelled ≡ ls
    pub live : All (λ m. 0 < count m.session out.conns) out.tools

  has_session :
      (c : Option ℕ) (session : ℕ) (conns : List ℕ)
      → c ≡ some session
      → 0 < count session (conns ++ conns_of c)
  unfolding count
  has_session none session conns h = cc
  has_session (some kept) session conns h =
      ground (arith, count-append session conns (kept ∷ []), h)

  collect-Accounts :
      (total : ℕ → ℕ) (before : List ℕ) (done : Collected) (os ls : List ℕ) (c : Connection)
      → IsKept os ls c
      → Accounts total before done
      → Accounts (λ n. count n os + total n) (before ++ ls) (collect as_object c done)
  collect-Accounts total before done os ls c k a = record {
    accounted = λ n. omega (
      arith,
      k.accounted n,
      a.accounted n,
      count-append n done.closed c.closed,
      count-append n done.conns (conns_of c.conn),
      count-append n done.cancelled c.cancelled,
    );
    cancelled = ap (λ xs. xs ++ c.cancelled) a.cancelled ∙ ap (◌++◌ before) k.cancelled;
    live =
        All-append _ done.tools c.mounted
          (All-map
            (λ m kept. omega (arith, kept, count-append m.session done.conns (conns_of c.conn)))
            done.tools a.live)
          (All-map (λ m same. has_session c.conn m.session done.conns same) c.mounted k.live);
  }

  collect_all-Accounts :
      (arrivals : List (McpServer × (Transport → Attempt))) (total : ℕ → ℕ) (before : List ℕ)
      (done : Collected)
      → Accounts total before done
      → Accounts
          (λ n. count n (all_opened arrivals) + total n)
          (before ++ all_late arrivals)
          (collect_all as_object arrivals done)
  unfolding collect_all all_opened all_late count connect_mcp_server
  collect_all-Accounts [] total before done a = record {
    accounted = λ n. omega (arith, a.accounted n);
    cancelled = a.cancelled ∙ sym (append-nil before);
    live = a.live;
  }
  collect_all-Accounts ((s, meets) ∷ rest) total before done a =
      let ls : List ℕ = late_from meets (transports s) in
      let os : List ℕ = opened_from meets (transports s) in
      let out : Accounts (λ n. count n (all_opened rest) + (count n os + total n))
          ((before ++ ls) ++ all_late rest)
          (collect_all as_object rest
            (collect as_object (connect_mcp_server as_object meets s) done)) =
        collect_all-Accounts rest (λ n. count n os + total n) (before ++ ls)
          (collect as_object (connect_mcp_server as_object meets s) done)
          (collect-Accounts total before done os ls (connect_mcp_server as_object meets s)
            (connect_from-IsKept s.name meets (transports s) none) a) in
      record {
        accounted = λ n. omega (arith, out.accounted n, count-append n os (all_opened rest));
        cancelled = out.cancelled ∙ append_assoc before ls (all_late rest);
        live = out.live;
      }

  -- What becomes of the sessions with MCP servers, whatever the servers answer and in whatever order their
  -- goroutines end: every session that is opened is, exactly once, closed at once, or kept for closeAll, or only
  -- has its context cancelled, and the last are just those whose connect was done when its timer had fired. Every
  -- tool that is mounted calls a session that is kept.
  pub connect_mcp_servers-Accounts :
      (servers arrivals : List (McpServer × (Transport → Attempt)))
      → Accounts
          (λ n. count n (all_opened arrivals))
          (all_late arrivals)
          (connect_mcp_servers as_object servers arrivals).0
  unfolding connect_mcp_servers count
  connect_mcp_servers-Accounts servers arrivals =
      let out : Accounts (λ n. count n (all_opened arrivals) + 0) (all_late arrivals)
          (collect_all as_object arrivals (nothing_yet as_object)) =
        collect_all-Accounts arrivals (λ n. 0) [] (nothing_yet as_object)
          (record { accounted = λ n. refl; cancelled = refl; live = tt }) in
      record {
        accounted = λ n. omega (arith, out.accounted n);
        cancelled = out.cancelled;
        live = out.live;
      }
