-- ===== src/Registry/Keys.antt =====
-- The keys of the registry do not meet: a session's key tells its id, and no node's key is a session's.
use turnhive.Base.{
  ℕ, arith, ◌≡◌, ◌≢◌, sym, ap, ◌∙◌, ◌∷◌, ◌++◌, Bytes, codes, drop, length, drop-append, bytes_eq,
}
use turnhive.Registry.{node_key, session_key}

append_cancel : (p s t : Bytes) → p ++ s ≡ p ++ t → s ≡ t
append_cancel p s t e = sym (drop-append p s) ∙ ap (drop (length p)) e ∙ drop-append p t

second : Bytes → ℕ
second (c ∷ d ∷ s) = d
second s = 0

pub session_key-injective : (p i j : Bytes) → session_key p i ≡ session_key p j → i ≡ j
unfolding session_key
session_key-injective p i j e =
    append_cancel (codes "/sessions/") i j
      (append_cancel p (codes "/sessions/" ++ i) (codes "/sessions/" ++ j) e)

pub node_key-injective : (p i j : Bytes) → node_key p i ≡ node_key p j → i ≡ j
unfolding node_key
node_key-injective p i j e =
    append_cancel (codes "/nodes/") i j
      (append_cancel p (codes "/nodes/" ++ i) (codes "/nodes/" ++ j) e)

pub node_key-ne-session_key : (p i j : Bytes) → node_key p i ≢ session_key p j
unfolding node_key session_key second
node_key-ne-session_key p i j e =
    let letters : ◌≡◌ {A = ℕ} b'n' b's' =
      ap second (append_cancel p (codes "/nodes/" ++ i) (codes "/sessions/" ++ j) e) in
    absurd (omega arith)
