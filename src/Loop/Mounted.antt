-- ===== src/Loop/Mounted.antt =====
-- The tools of a turn: those of the MCP servers stand behind the loop's own and take no name of theirs.
use turnhive.Base.{
  ◌≡◌, refl, sym, ap, ◌∙◌, inl, inr, true, false, Bool-cases, Option, List, [], ◌∷◌, ◌++◌, ◌==◌,
  ==_iff, bytes_eq, if◌then◌else◌,
}
use turnhive.Llm.{Message, ToolCall}
use turnhive.Truncate.{Spiller}
use turnhive.Loop.Tools.{
  Executed, Tool, bound_output, dispatch_tool, has_tool, mount, tools_of_turn,
}

module _ (spiller : Option Spiller) (working : List Message) (tc : ToolCall) where
  abbrev dispatched : List Tool → Option Executed
  dispatched tools = dispatch_tool tools spiller working tc

  -- A tool that is left out bears a name of the loop's own tools, which is not the name called.
  dispatch_tool-mount :
      (own mcp : List Tool)
      → has_tool own tc.name ≡ false
      → dispatched (mount own mcp) ≡ dispatched mcp
  unfolding dispatch_tool mount
  dispatch_tool-mount own [] h = refl
  dispatch_tool-mount own (t ∷ mcp) h =
      let rest = dispatch_tool-mount own mcp h in
      elim (Bool-cases (has_tool own t.name)) [
        | inl taken ↦ elim (Bool-cases (t.name == tc.name)) [
          | inl named ↦
              let same : t.name ≡ tc.name = (==_iff t.name tc.name).0 named in
              let both : true ≡ false = sym taken ∙ ap (has_tool own) same ∙ h in cc both
          | inr other ↦ rw taken (rw other rest)
        ]
        | inr free ↦ rw free (
            ap (λ o. if t.name == tc.name then bound_output t spiller (t.execute working tc) else o)
              rest)
      ]

  dispatch_tool-append :
      (own more : List Tool)
      → dispatched (own ++ more)
        ≡ (if has_tool own tc.name then dispatched own else dispatched more)
  unfolding dispatch_tool has_tool
  dispatch_tool-append [] more = refl
  dispatch_tool-append (t ∷ own) more = elim (Bool-cases (t.name == tc.name)) [
    | inl named ↦ rw named refl
    | inr other ↦ rw other (dispatch_tool-append own more)
  ]

  -- A call goes to the loop's own tool where one bears the name, and otherwise to the first tool of the MCP
  -- servers that does: a server's tool shadows none of the loop's, and none is lost but those whose name is
  -- taken.
  pub dispatch_tool-tools_of_turn :
      (own mcp : List Tool)
      → dispatched (tools_of_turn own mcp)
        ≡ (if has_tool own tc.name then dispatched own else dispatched mcp)
  dispatch_tool-tools_of_turn own mcp = elim (Bool-cases (has_tool own tc.name)) [
    | inl owned ↦ dispatch_tool-append own (mount own mcp) ∙ rw owned refl
    | inr free ↦
        dispatch_tool-append own (mount own mcp) ∙ rw free (dispatch_tool-mount own mcp free)
  ]
