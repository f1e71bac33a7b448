-- ===== src/History/Lines.antt =====
-- A history that is saved and read again.
use turnhive.Base.{
  suc, ◌<◌, ◌≤◌, ◌≡◌, ◌≢◌, refl, ap, sym, ◌∙◌, inl, inr, ◌⊎◌, true, false, Bool-cases, Option, none,
  some, List, [], ◌∷◌, ◌++◌, append_assoc, append-nil, Bytes, arith, eqb, ltb, length, All, ◌==◌,
  bytes_eq, bytes_eqb,
}
use turnhive.Base.Split.{split}
use turnhive.Truncate.{newline}
use turnhive.Patch.Parse.{trim_space, trim_left, trim_right}
use turnhive.Llm.{Message}
use turnhive.History.{
  max_history_line_bytes, read_line, read_lines, parse_history_jsonl, history_jsonl,
}

-- One line of text.
abbrev pub IsOneLine : Bytes → Type 0
IsOneLine l = All (λ c. c ≢ newline) l

split-line :
    (l rest : Bytes) → IsOneLine l → split newline (l ++ newline ∷ rest) ≡ l ∷ split newline rest
unfolding split
split-line [] rest h = refl
split-line (c ∷ l) rest h =
    let other : eqb c newline ≡ false = ground (arith, h.0) in
    rw other (rw (split-line l rest h.1) refl)

split-Some : (s : Bytes) → (l : Bytes) × (ls : List Bytes) × (split newline s ≡ l ∷ ls)
unfolding split
split-Some [] = ([], [], refl)
split-Some (c ∷ s) =
    let (l, ls, e) = split-Some s in
    elim (Bool-cases (eqb c newline)) [
      | inl is_end ↦ ([], split newline s, rw is_end refl)
      | inr other ↦ (c ∷ l, ls, rw other (rw e refl))
    ]

module _ (encode : Message → Option Bytes) (decode : Bytes → Option Message) where
  -- A message that encodes to one line, with text at both ends and within the limit, which decodes to it.
  pub record IsStored (m : Message) : Type 0 where
    pub line : Bytes
    pub encodes : encode m ≡ some line
    pub one_line : IsOneLine line
    pub nonempty : (line == []) ≡ false
    pub untrimmed : trim_space line ≡ line
    pub within : length line < max_history_line_bytes
    pub decodes : decode line ≡ some m

  -- A line of which no message comes: blank, over the limit, or malformed.
  abbrev pub IsSpoiled : Bytes → Type 0
  IsSpoiled l =
      (trim_space l ≡ []) ⊎ ((max_history_line_bytes ≤ length l) ⊎ (decode (trim_space l) ≡ none))

  read_lines-line :
      (line rest : Bytes)
      → IsOneLine line
      → read_lines decode (split newline (line ++ newline ∷ rest))
        ≡ read_line decode (suc (length line)) line (read_lines decode (split newline rest))
  unfolding read_lines
  read_lines-line line rest h =
      let (l, ls, e) = split-Some rest in
      ap (read_lines decode) (split-line line rest h) ∙ rw e refl

  read_line-stored :
      (m : Message) (s : IsStored m) (rest : List Message)
      → read_line decode (suc (length s.line)) s.line rest ≡ m ∷ rest
  read_line-stored m s rest =
      let short : ltb max_history_line_bytes (suc (length s.line)) ≡ false =
        ground (arith, s.within) in
      rw (s.untrimmed, s.nonempty, short, s.decodes) refl

  read_line-spoiled :
      (l : Bytes) (rest : List Message)
      → IsSpoiled l
      → read_line decode (suc (length l)) l rest ≡ rest
  unfolding bytes_eqb
  read_line-spoiled l rest (inl blank) = rw blank refl
  read_line-spoiled l rest (inr (inl long)) =
      let over : ltb max_history_line_bytes (suc (length l)) ≡ true = ground (arith, long) in
      elim (Bool-cases (trim_space l == [])) [
        | inl blank ↦ rw blank refl
        | inr text ↦ rw (text, over) refl
      ]
  read_line-spoiled l rest (inr (inr malformed)) = elim (Bool-cases (trim_space l == [])) [
    | inl blank ↦ rw blank refl
    | inr text ↦ elim (Bool-cases (ltb max_history_line_bytes (suc (length l)))) [
      | inl over ↦ rw (text, over) refl
      | inr within ↦ rw (text, within, malformed) refl
    ]
  ]

  -- What was saved, and what stands behind it.
  saved-before :
      (ms : List Message)
      → All IsStored ms
      → (body : Bytes) × (history_jsonl encode ms ≡ some body)
        × ((rest : Bytes)
            → read_lines decode (split newline (body ++ rest))
              ≡ ms ++ read_lines decode (split newline rest))
  unfolding history_jsonl
  saved-before [] h = ([], refl, λ rest. refl)
  saved-before (m ∷ ms) (s, h) =
      let (body, e, reads) = saved-before ms h in
      (
        s.line ++ newline ∷ body,
        rw s.encodes (rw e refl),
        λ rest.
            ap (λ b. read_lines decode (split newline b))
              (append_assoc s.line (newline ∷ body) rest)
            ∙ read_lines-line s.line (body ++ rest) s.one_line
            ∙ ap (read_line decode (suc (length s.line)) s.line) (reads rest)
            ∙ read_line-stored m s _,
      )

  parse-spoiled :
      (bad rest : Bytes)
      → IsOneLine bad
      → IsSpoiled bad
      → parse_history_jsonl decode (bad ++ newline ∷ rest) ≡ parse_history_jsonl decode rest
  unfolding parse_history_jsonl
  parse-spoiled bad rest one_line spoiled =
      read_lines-line bad rest one_line ∙ read_line-spoiled bad _ spoiled

  read_nothing : parse_history_jsonl decode [] ≡ []
  unfolding parse_history_jsonl split read_lines bytes_eqb trim_space trim_right trim_left
  read_nothing = refl

  saved-parsed :
      (ms : List Message) (body : Bytes)
      → All IsStored ms
      → history_jsonl encode ms ≡ some body
      → (rest : Bytes)
      → parse_history_jsonl decode (body ++ rest) ≡ ms ++ parse_history_jsonl decode rest
  unfolding parse_history_jsonl
  saved-parsed ms body h e rest =
      let (b, f, reads) = saved-before ms h in
      let same : body ≡ b = cc in
      ap (λ x. read_lines decode (split newline (x ++ rest))) same ∙ reads rest

  -- A history of messages that encode to lines is saved, and comes back from storage as it was.
  pub parse_history_jsonl-history_jsonl :
      (ms : List Message)
      → All IsStored ms
      → (body : Bytes) × (history_jsonl encode ms ≡ some body)
        × (parse_history_jsonl decode body ≡ ms)
  parse_history_jsonl-history_jsonl ms h =
      let (body, e, reads) = saved-before ms h in
      (
        body,
        e,
        ap (parse_history_jsonl decode) (sym (append-nil body))
            ∙ saved-parsed ms body h e []
            ∙ ap (◌++◌ ms) read_nothing
            ∙ append-nil ms,
      )

  -- A spoiled line costs itself only: the messages saved before it and behind it are all read.
  pub parse_history_jsonl-skips :
      (ms ns : List Message) (bad b1 b2 : Bytes)
      → All IsStored ms
      → All IsStored ns
      → history_jsonl encode ms ≡ some b1
      → history_jsonl encode ns ≡ some b2
      → IsOneLine bad
      → IsSpoiled bad
      → parse_history_jsonl decode (b1 ++ (bad ++ newline ∷ b2)) ≡ ms ++ ns
  parse_history_jsonl-skips ms ns bad b1 b2 hm hn e1 e2 one_line spoiled =
      saved-parsed ms b1 hm e1 (bad ++ newline ∷ b2)
      ∙ ap (◌++◌ ms) (
          parse-spoiled bad b2 one_line spoiled
          ∙ ap (parse_history_jsonl decode) (sym (append-nil b2))
          ∙ saved-parsed ns b2 hn e2 []
          ∙ ap (◌++◌ ns) read_nothing
          ∙ append-nil ns)
