-- ===== src/History/Recovery.antt =====
-- A session whose node failed in the middle of a turn, adopted from storage by another.
use turnhive.Base.{
  ◌≡◌, refl, sym, ap, ◌∙◌, true, false, Option, some, List, [], ◌∷◌, ◌++◌, append_assoc, Bytes, All,
  ◌==◌, bytes_eq, bytes_eqb,
}
use turnhive.Llm.{Message}
use turnhive.Context.{user, assistant}
use turnhive.Loop.{
  Loop, loaded, load_history, is_dangling, interrupted_turn_marker, seal_interrupted_turn,
}
use turnhive.Loop.Tools.{plain_message}
use turnhive.History.{found, load, parse_history_jsonl, history_jsonl}
use turnhive.History.Lines.{IsStored, parse_history_jsonl-history_jsonl}

-- A loop that was just made.
abbrev pub new_loop : Loop
new_loop = record { busy = false; history = []; hist_ready = false }

abbrev pub with_history : List Message → Loop
with_history history = record { busy = false; history = history; hist_ready = true }

is_dangling-last : (ms : List Message) (m : Message) → is_dangling (ms ++ m ∷ []) ≡ (m.role == user)
unfolding is_dangling
is_dangling-last [] m = refl
is_dangling-last (n ∷ []) m = refl
is_dangling-last (n ∷ o ∷ ms) m = is_dangling-last (o ∷ ms) m

abbrev pub interrupted : List Message → Bytes → List Message
interrupted history user_text =
    history ++ plain_message user user_text ∷ plain_message assistant interrupted_turn_marker ∷ []

-- A history that ends with a message of the user gets the marker as its reply, and is saved.
seal-dangling :
    (history : List Message) (user_text : Bytes)
    → seal_interrupted_turn (loaded (history ++ plain_message user user_text ∷ [])) new_loop
      ≡ (with_history (interrupted history user_text), interrupted history user_text ∷ [])
unfolding seal_interrupted_turn load_history bytes_eqb
seal-dangling history user_text = rw (is_dangling-last history (plain_message user user_text)) (
    ap (λ (ms : List Message). (with_history ms, ms ∷ []))
      (append_assoc history (plain_message user user_text ∷ [])
        (plain_message assistant interrupted_turn_marker ∷ [])))

-- A history that ends with the marker stays as it is.
seal-sealed :
    (history : List Message) (user_text : Bytes)
    → seal_interrupted_turn (loaded (interrupted history user_text)) new_loop
      ≡ (with_history (interrupted history user_text), [])
unfolding seal_interrupted_turn load_history bytes_eqb
seal-sealed history user_text =
    let replied : Message = plain_message assistant interrupted_turn_marker in
    let settled : is_dangling (interrupted history user_text) ≡ false =
      ap is_dangling (sym (append_assoc history (plain_message user user_text ∷ []) (replied ∷ [])))
      ∙ is_dangling-last (history ++ plain_message user user_text ∷ []) replied in
    rw settled refl

module _ (encode : Message → Option Bytes) (decode : Bytes → Option Message) where
  -- The history with the user's message was saved before the turn's first request. A node that adopts the
  -- session after a failure loads it, and seals it with the marker as the reply; sealed once more, by
  -- this node or the next, it stays as it is.
  pub seal_interrupted_turn-adopts :
      (history : List Message) (user_text body : Bytes)
      → All (IsStored encode decode) (history ++ plain_message user user_text ∷ [])
      → history_jsonl encode (history ++ plain_message user user_text ∷ []) ≡ some body
      → (seal_interrupted_turn (load decode (found body)) new_loop
          ≡ (with_history (interrupted history user_text), interrupted history user_text ∷ []))
        × (seal_interrupted_turn (loaded (interrupted history user_text)) new_loop
            ≡ (with_history (interrupted history user_text), []))
  unfolding load
  seal_interrupted_turn-adopts history user_text body h e =
      let (b, f, parses) = parse_history_jsonl-history_jsonl encode decode _ h in
      let same : body ≡ b = cc in
      (
        ap (λ (x : Bytes). seal_interrupted_turn (loaded (parse_history_jsonl decode x)) new_loop)
              same
            ∙ ap (λ (ms : List Message). seal_interrupted_turn (loaded ms) new_loop) parses
            ∙ seal-dangling history user_text,
        seal-sealed history user_text,
      )
