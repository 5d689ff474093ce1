-- ===== src/Node/Connections/Pending.antt =====
-- One dial at a time for an address.
use olane.Common.{
  ℕ, ◌+◌, ◌≤◌, ◌≡◌, refl, sym, ap, Bool, true, false, not, ◌&&◌, ◌||◌, List, [], ◌∷◌, ◌++◌, Text,
  text_eq, text_eq_iff, any, keep_if, if◌then◌else◌, Bool-cases, inl, inr, arith,
}
use olane.Core.Address.{Address}
use olane.Node.Connections.{State, Begun, reuse, awaits, begin_dial, settle_dial}

-- Calls that need a dial, and dials that settle.
pub data Event : Type 0 where
  needs : Address → Event
  settled : Text → Event

-- How many dials of an address the events start.
abbrev started : Text → Address → Begun → ℕ
started key a (reuse c) = 0
started key a (awaits b false) = 0
started key a (awaits b true) = if text_eq b.value key then 1 else 0

abbrev pub dials : Text → List Event → State → ℕ
dials key [] s = 0
dials key (needs a ∷ es) s = let (begun, t) = begin_dial a s in started key a begun + dials key es t
dials key (settled k ∷ es) s = dials key es (settle_dial k s)

-- How many dials of an address settle.
abbrev pub settlements : Text → List Event → ℕ
settlements key [] = 0
settlements key (needs a ∷ es) = settlements key es
settlements key (settled k ∷ es) = (if text_eq k key then 1 else 0) + settlements key es

abbrev flight : Text → State → ℕ
flight key s = if any (text_eq key) s.pending_dials then 1 else 0

any-snoc : (q : Text → Bool) (xs : List Text) (x : Text) → any q (xs ++ x ∷ []) ≡ (any q xs || q x)
any-snoc q [] x = ground arith
any-snoc q (y ∷ xs) x = ground (arith, any-snoc q xs x)

any-keep :
    (key k : Text) (xs : List Text)
    → any (text_eq key) (keep_if (λ j. not (text_eq k j)) xs)
      ≡ (any (text_eq key) xs && not (text_eq k key))
any-keep key k [] = refl
any-keep key k (x ∷ xs) =
    ground (arith, any-keep key k xs, text_eq_iff key x, text_eq_iff k x, text_eq_iff k key)

same_key :
    (key : Text) (a : Address) (s : State)
    → text_eq key a.value ≡ true
    → any (text_eq a.value) s.pending_dials ≡ any (text_eq key) s.pending_dials
same_key key a s e = ap (λ k. any (text_eq k) s.pending_dials) (sym ((text_eq_iff key a.value).0 e))

one_step :
    (key : Text) (a : Address) (s : State)
    → started key a (begin_dial a s).0 + flight key s ≡ flight key (begin_dial a s).1
unfolding begin_dial
one_step key a s = elim (Bool-cases (any (text_eq a.value) s.pending_dials)) [
  | inl e ↦ rw e (omega arith)
  | inr e ↦
      rw (e, any-snoc (text_eq key) s.pending_dials a.value)
        (elim (Bool-cases (text_eq key a.value)) [
          | inl q ↦
              let f = same_key key a s q in
              ground (arith, text_eq_iff key a.value, text_eq_iff a.value key)
          | inr q ↦ ground (arith, text_eq_iff key a.value, text_eq_iff a.value key)
        ])
]

settle_step :
    (key k : Text) (s : State)
    → flight key s ≤ flight key (settle_dial k s) + (if text_eq k key then 1 else 0)
unfolding settle_dial
settle_step key k s = rw (any-keep key k s.pending_dials) (ground arith)

-- Whatever calls come and dials settle, in any order, an address is dialled at most once more than its
-- dials have settled: at most one dial of it is in flight, and every other call awaits that one.
pub dials_lem :
    (key : Text) (es : List Event) (s : State)
    → dials key es s + flight key s ≤ settlements key es + 1
dials_lem key [] s = ground arith
dials_lem key (needs a ∷ es) s =
    let rest = dials_lem key es (begin_dial a s).1 in let step = one_step key a s in omega arith
dials_lem key (settled k ∷ es) s =
    let rest = dials_lem key es (settle_dial k s) in let step = settle_step key k s in omega arith
