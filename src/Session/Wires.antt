-- ===== src/Session/Wires.antt =====
-- Results of external tools: the one that reports and the one that waits meet, in either order.
use turnhive.Base.{
  ℕ, suc, ◌≤◌, ◌<◌, ◌≡◌, ◌∙◌, refl, sym, ap, inl, inr, Option-cases, Bool-cases, none, some, List,
  [], ◌∷◌, Bytes, arith, ◌==◌, bytes_eq, nat_eq,
}
use turnhive.Base.Assoc.{
  lookup, insert, remove, lookup-insert_ne, lookup-insert-some, lookup-remove-some,
  lookup-remove-none,
}
use turnhive.Session.State.{Session, ToolResult, new_session}
use turnhive.Session.Turns.{new_turn_id, touch, start_turn, finish_turn, cancel_by_user}
use turnhive.Session.Sandbox.{
  set_sandbox, take_sandbox, take_sandbox_if_idle, close_session, take_if_cold, set_loop,
}
use turnhive.Session.Records.{
  record_persisted, record_file, record_background_exit, take_background_exits,
  requeue_background_exits,
}
use turnhive.Session.Results.{buffer_result, add_tool_result, begin_wait, take_result, give_up}
use turnhive.Session.Step.{Op, starts, adds, waits, receives, gives_up, or_same, step, run}

-- The channels of the waiting calls: made before, empty, and one for each call.
pub record IsWired (s : Session) : Type 0 where
  pub fresh : (ch : ℕ) → s.next_chan ≤ ch → lookup ch s.chans ≡ none
  pub made : (k : Bytes) (ch : ℕ) → lookup k s.waiters ≡ some ch → ch < s.next_chan
  pub empty : (k : Bytes) (ch : ℕ) → lookup k s.waiters ≡ some ch → lookup ch s.chans ≡ none
  pub distinct :
      (k j : Bytes) (ch : ℕ) → lookup k s.waiters ≡ some ch → lookup j s.waiters ≡ some ch → k ≡ j

-- Nothing about channels has changed.
abbrev SameWires : Session → Session → Type 0
SameWires s t = (t.waiters ≡ s.waiters) × (t.chans ≡ s.chans) × (t.next_chan ≡ s.next_chan)

same-IsWired : (s t : Session) → SameWires s t → IsWired s → IsWired t
same-IsWired s t (w, c, n) v = record {
  fresh = λ ch h. rw c (v.fresh ch (rw n at h));
  made = λ k ch h. rw n (v.made k ch (rw w at h));
  empty = λ k ch h. rw c (v.empty k ch (rw w at h));
  distinct = λ k j ch h h'. v.distinct k j ch (rw w at h) (rw w at h');
}

deliver-IsWired :
    (s : Session) (r : ToolResult) (ch : ℕ)
    → lookup r.call_id s.waiters ≡ some ch
    → IsWired s
    → IsWired (record s { waiters = remove r.call_id s.waiters; chans = insert ch r s.chans })
deliver-IsWired s r ch e v = record {
  fresh = λ c h.
      lookup-insert_ne ch c r s.chans (λ p. absurd (omega (arith, p, v.made r.call_id ch e)))
      ∙ v.fresh c h;
  made = λ k c h. v.made k c (lookup-remove-some r.call_id k c s.waiters h).1;
  empty = λ k c h.
      let (other, found) = lookup-remove-some r.call_id k c s.waiters h in
      lookup-insert_ne ch c r s.chans (λ p. other (v.distinct r.call_id k c (e ∙ ap some p) found))
      ∙ v.empty k c found;
  distinct = λ k j c h h'.
      v.distinct k j c (lookup-remove-some r.call_id k c s.waiters h).1
        (lookup-remove-some r.call_id j c s.waiters h').1;
}

leave-IsWired :
    (s : Session) (k : Bytes) → IsWired s → IsWired (record s { waiters = remove k s.waiters })
leave-IsWired s k v = record {
  fresh = v.fresh;
  made = λ j c h. v.made j c (lookup-remove-some k j c s.waiters h).1;
  empty = λ j c h. v.empty j c (lookup-remove-some k j c s.waiters h).1;
  distinct = λ i j c h h'.
      v.distinct i j c (lookup-remove-some k i c s.waiters h).1
        (lookup-remove-some k j c s.waiters h').1;
}

read-IsWired : (s : Session) (ch : ℕ) → IsWired s → IsWired (record s { chans = remove ch s.chans })
read-IsWired s ch v = record {
  fresh = λ c h. lookup-remove-none ch c s.chans (v.fresh c h);
  made = v.made;
  empty = λ k c h. lookup-remove-none ch c s.chans (v.empty k c h);
  distinct = v.distinct;
}

more-IsWired : (s : Session) → IsWired s → IsWired (record s { next_chan = suc s.next_chan })
more-IsWired s v = record {
  fresh = λ c h. v.fresh c (omega arith);
  made = λ k c h. omega (arith, v.made k c h);
  empty = v.empty;
  distinct = v.distinct;
}

module _ (s : Session) (k : Bytes) (v : IsWired s) where
  abbrev grown : List (Bytes × ℕ)
  grown = insert k s.next_chan s.waiters

  -- The new channel is no other call's.
  new_alone : (j : Bytes) → lookup j grown ≡ some s.next_chan → k ≡ j
  new_alone j h = elim (lookup-insert-some k j s.next_chan s.next_chan s.waiters h) [
    | inl same ↦ same.0
    | inr old ↦ absurd (omega (arith, v.made j s.next_chan old))
  ]

  join-distinct : (i j : Bytes) (c : ℕ) → lookup i grown ≡ some c → lookup j grown ≡ some c → i ≡ j
  join-distinct i j c h h' = elim (lookup-insert-some k i s.next_chan c s.waiters h) [
    | inl same ↦ sym same.0 ∙ new_alone j (h' ∙ ap some (sym same.1))
    | inr old ↦ elim (lookup-insert-some k j s.next_chan c s.waiters h') [
      | inl same' ↦ absurd (omega (arith, v.made i c old, same'.1))
      | inr old' ↦ v.distinct i j c old old'
    ]
  ]

  join-IsWired : IsWired (record s { waiters = grown; next_chan = suc s.next_chan })
  join-IsWired = record {
    fresh = λ c h. v.fresh c (omega arith);
    made = λ j c h. elim (lookup-insert-some k j s.next_chan c s.waiters h) [
      | inl same ↦ omega (arith, same.1)
      | inr old ↦ omega (arith, v.made j c old)
    ];
    empty = λ j c h. elim (lookup-insert-some k j s.next_chan c s.waiters h) [
      | inl same ↦ v.fresh c (omega (arith, same.1))
      | inr old ↦ v.empty j c old
    ];
    distinct = join-distinct;
  }

add-IsWired : (s : Session) (r : ToolResult) → IsWired s → IsWired (or_same s (add_tool_result r s))
unfolding add_tool_result buffer_result
add-IsWired s r v = elim (Option-cases (lookup r.call_id s.waiters)) [
  | inl nobody ↦ same-IsWired s _ (ground (arith, nobody)) v
  | inr (ch, e) ↦ rw (e, add_tool_result) (deliver-IsWired s r ch e v)
]

wait-IsWired : (s : Session) (k : Bytes) → IsWired s → IsWired (begin_wait k s).0
unfolding begin_wait
wait-IsWired s k v = elim (Option-cases (lookup k s.pending)) [
  | inl nothing_yet ↦ rw (nothing_yet, begin_wait) (join-IsWired s k v)
  | inr (r, e) ↦ rw (e, begin_wait) (same-IsWired s _ (refl, refl, refl) v)
]

start-IsWired :
    (s : Session) (id : Bytes) (cancel : ℕ) → IsWired s → IsWired (start_turn id cancel s).0
unfolding start_turn
start-IsWired s id cancel v = elim (Bool-cases (s.turn_id == [])) [
  | inl idle ↦
      rw (idle, start_turn)
        (same-IsWired (record s { next_chan = suc s.next_chan }) _ (refl, refl, refl)
          (more-IsWired s v))
  | inr busy ↦ rw (busy, start_turn) v
]

pub step-IsWired : (s : Session) (op : Op) → IsWired s → IsWired (step s op)
unfolding step touch finish_turn cancel_by_user set_sandbox take_sandbox take_sandbox_if_idle
    close_session take_if_cold set_loop record_persisted record_file record_background_exit
    take_background_exits requeue_background_exits take_result give_up
step-IsWired s (starts ulid cancel) v = start-IsWired s (new_turn_id ulid) cancel v
step-IsWired s (adds r) v = add-IsWired s r v
step-IsWired s (waits k) v = wait-IsWired s k v
step-IsWired s (receives ch) v = read-IsWired s ch v
step-IsWired s (gives_up k) v = leave-IsWired s k v
step-IsWired s op v = same-IsWired s (step s op) (ground arith) v

pub run-IsWired : (s : Session) (ops : List Op) → IsWired s → IsWired (run s ops)
unfolding run
run-IsWired s [] v = v
run-IsWired s (op ∷ ops) v = run-IsWired (step s op) ops (step-IsWired s op v)

pub new_session-IsWired : IsWired new_session
unfolding new_session lookup
new_session-IsWired = record {
  fresh = λ ch h. refl;
  made = λ k ch h. cc;
  empty = λ k ch h. cc;
  distinct = λ k j ch h h'. cc;
}
