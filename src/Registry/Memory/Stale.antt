-- ===== src/Registry/Memory/Stale.antt =====
-- What a removal leaves behind.
use olane.Common.{
  ℕ, ◌≡◌, refl, ap, ◌∙◌, Bool, true, false, ◌||◌, List, [], ◌∷◌, ◌++◌, none, some, Text, text_eq,
  text_eq_iff, text_eq_refl, Dict, get, set, get-set, get-delete, any, or_default, Bool-cases, inl,
  inr, arith,
}
use olane.Registry.Memory.{RegistrationParams, RegistryState, map_protocols, commit, remove}

-- The peers that the mapping has for a protocol.
abbrev pub peers_of : Text → Dict (List Text) → List Text
peers_of p m = or_default (get p m) []

any-append : (q : Text → Bool) (xs ys : List Text) → any q (xs ++ ys) ≡ (any q xs || any q ys)
any-append q [] ys = refl
any-append q (x ∷ xs) ys = ground (arith, any-append q xs ys)

or_swap : (a b c : Bool) → (a || (b || c)) ≡ (b || a || c)
or_swap a b c = ground arith

stored :
    (peer p x : Text) (m : Dict (List Text))
    → any (text_eq peer) (peers_of p (set x (peers_of x m ++ peer ∷ []) m))
      ≡ (text_eq p x || any (text_eq peer) (peers_of p m))
stored peer p x m = elim (Bool-cases (text_eq x p)) [
  | inl e ↦
      let flipped : text_eq p x ≡ true = ground (arith, text_eq_iff p x, text_eq_iff x p, e) in
      rw (get-set x p (peers_of x m ++ peer ∷ []) m, e, flipped)
        (any-append (text_eq peer) (peers_of x m) (peer ∷ [])
          ∙ last (any (text_eq peer) (peers_of x m)) (text_eq_refl peer))
  | inr e ↦
      let flipped : text_eq p x ≡ false = ground (arith, text_eq_iff p x, text_eq_iff x p, e) in
      rw (get-set x p (peers_of x m ++ peer ∷ []) m, e, flipped) refl
]
  where
    last : (a : Bool) {b : Bool} → b ≡ true → (a || (b || false)) ≡ true
    last a e = rw e (ground arith)

map_protocols_lem :
    (peer p : Text) (ps : List Text) (m : Dict (List Text))
    → any (text_eq peer) (peers_of p (map_protocols peer ps m))
      ≡ (any (text_eq p) ps || any (text_eq peer) (peers_of p m))
unfolding map_protocols
map_protocols_lem peer p [] m = refl
map_protocols_lem peer p (x ∷ ps) m =
    map_protocols_lem peer p ps (set x (peers_of x m ++ peer ∷ []) m)
    ∙ (ap (λ b. any (text_eq p) ps || b) (stored peer p x m)
        ∙ or_swap (any (text_eq p) ps) (text_eq p x) (any (text_eq peer) (peers_of p m)))

-- A node that registered with a protocol and was removed is no longer registered, but the mapping
-- still has it among the peers of that protocol.
pub remove-commit :
    (now : ℕ) (params : RegistrationParams) (ps : List Text) (p : Text) (s : RegistryState)
    → params.protocols ≡ some ps
    → any (text_eq p) ps ≡ true
    → let t = remove params.peer_id (commit now params s) in
      (get params.peer_id t.registry ≡ none)
      × (any (text_eq params.peer_id) (peers_of p t.protocol_mapping) ≡ true)
unfolding remove commit
remove-commit now params ps p s e h = (
  rw (get-delete params.peer_id params.peer_id _, text_eq_refl params.peer_id) refl,
  rw e (map_protocols_lem params.peer_id p ps s.protocol_mapping ∙ rw h refl),
)
