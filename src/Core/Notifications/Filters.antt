-- ===== src/Core/Notifications/Filters.antt =====
-- packages/o-core/src/core/lib/utils/event-filters.ts, with `matchesFilter` of the notification
-- manager. A regular expression is a parameter: whether it matches a text, or `none` if the pattern
-- and the flags do not compile.
use olane.Common.{
  ℕ, ◌+◌, Bool, true, false, ◌&&◌, ◌||◌, List, [], ◌∷◌, Option, none, some, Text, codes, text_eq,
  starts_with, replace, split, any, keep_if, length, if◌then◌else◌, ltb, ◌==◌,
}
use olane.Core.Address.{Address, paths}

-- `pattern`, `flags` and the text.
abbrev pub Regex : Type 0
Regex = Text → Text → Text → Option Bool

-- The events of nodes that connect and disconnect, and of children that join and leave.
pub data Subject : Type 0 where
  of_node : Address → Subject
  of_child : Address → Address → Subject
  of_other : Subject

pub record Event : Type 0 where
  pub type : Text
  pub subject : Subject

pub record EventFilter : Type 0 where
  pub event_types : Option (List Text)
  pub address_pattern : Option Text
  pub custom_filter : Option (Event → Bool)

-- `/[\^\$\[\]\(\)\|]/`.
abbrev pub is_special : ℕ → Bool
is_special c = c == 94 || c == 36 || c == 91 || c == 93 || c == 40 || c == 41 || c == 124

-- What stands before the last slash and behind it.
unfoldable pub cut_last_slash : Text → Option (Text × Text)
cut_last_slash [] = none
cut_last_slash (c ∷ s) =
    let here : Option (Text × Text) = if c == 47 then some ([], s) else none in
    elim (cut_last_slash s) [ none ↦ here | some (a, b) ↦ some (c ∷ a, b) ]

-- The pattern and the flags of `/pattern/flags`; the last slash must not be the first unit.
unfoldable pub regex_parts : Text → Text × Text
regex_parts [] = ([], [])
regex_parts (c ∷ s) =
    if c == 47
    then (elim (cut_last_slash s) [ none ↦ (c ∷ s, []) | some (a, b) ↦ (a, b) ])
    else (c ∷ s, [])

abbrev pub is_nonempty : Text → Bool
is_nonempty [] = false
is_nonempty (c ∷ s) = true

unfoldable pub pattern_paths : Text → List Text
pattern_paths pattern = keep_if is_nonempty (split b'/' (replace (codes "o://") [] pattern))

-- The loop over the segments of the pattern. `addressPaths` is a string, so what stands at an index
-- is one code unit, and the lengths that are compared are those of the string and of the list.
unfoldable pub match_segments : Text → List Text → Bool
match_segments [] [] = true
match_segments (u ∷ us) [] = false
match_segments [] (p ∷ ps) = text_eq p (codes "**")
match_segments (u ∷ us) (p ∷ ps) =
    let rest = match_segments us ps in
    if text_eq p (codes "**")
    then true
    else if text_eq p (codes "*")
    then rest
    else if text_eq (u ∷ []) p
    then rest
    else false

unfoldable pub address_matches : Regex → Address → Text → Bool
address_matches regex a pattern =
    let (body, flags) = regex_parts pattern in
    if starts_with (codes "/") pattern || any is_special pattern
    then (elim (regex body flags a.value) [ none ↦ text_eq a.value pattern | some b ↦ b ])
    else if text_eq a.value pattern
    then true
    else match_segments (paths a) (pattern_paths pattern)

-- The string `p` is the beginning of the string `s`, unit by unit.
unfoldable pub all_match : Text → Text → Bool
all_match [] s = true
all_match (c ∷ p) [] = false
all_match (c ∷ p) (d ∷ s) = let rest = all_match p s in if c == d then rest else false

unfoldable pub children_only : Event → Address → Bool
children_only e parent = elim e.subject [
  | of_child c p ↦ text_eq p.value parent.value
  | of_node n ↦
      if length (paths n) == length (paths parent) + 1
      then all_match (paths parent) (paths n)
      else false
  | of_other ↦ false
]

unfoldable pub descendants_only : Event → Address → Bool
descendants_only e ancestor = elim e.subject [
  | of_child c p ↦
      if ltb (length (paths p)) (length (paths ancestor))
      then false
      else all_match (paths ancestor) (paths p)
  | of_node n ↦
      if ltb (length (paths ancestor)) (length (paths n))
      then all_match (paths ancestor) (paths n)
      else false
  | of_other ↦ false
]

unfoldable pub get_event_address : Event → Option Address
get_event_address e = elim e.subject [
  | of_node n ↦ some n
  | of_child c p ↦ some c
  | of_other ↦ none
]

-- `filter.addressPattern`, which an empty text is not.
abbrev pub matches_pattern : Regex → Event → Option Text → Bool
matches_pattern regex e none = true
matches_pattern regex e (some []) = true
matches_pattern regex e (some (c ∷ s)) = elim (get_event_address e) [
  | none ↦ false
  | some a ↦ address_matches regex a (c ∷ s)
]

unfoldable pub matches_filter : Regex → Event → EventFilter → Bool
matches_filter regex e f =
    let in_types : Bool = elim f.event_types [ none ↦ true | some ts ↦ any (text_eq e.type) ts ] in
    let custom : Bool = elim f.custom_filter [ none ↦ true | some test ↦ test e ] in
    in_types && matches_pattern regex e f.address_pattern && custom
