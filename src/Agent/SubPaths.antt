-- ===== src/Agent/SubPaths.antt =====
-- What the addresses below an agent's own stand for.
use olane.Common.{
  ℕ, ◌≡◌, refl, sym, ap, ◌∙◌, Bool, true, List, [], ◌∷◌, ◌++◌, Text, codes, text_eq,
  strip_prefix-append, keep_if, map, split, cons_head, trim, trim_start, not, ◌&&◌, ◌==◌, Lacks,
  All, ◌≢◌, Option-cases, inl, inr, text_eq-false, arith,
}
use olane.Core.Address.{Address}
use olane.Core.Address.Hop.{join}
use olane.Agent.{
  table, Params, no_params, key, path, id, Method, method, in_table, tail_to_params, is_given,
  segments_of, parse_segments, parse_sub_path,
}

-- A segment of an address that is read as it stands.
pub record IsSubPath (s : Text) : Type 0 where
  pub nonempty : is_given s ≡ true
  pub no_slash : Lacks b'/' s
  pub trimmed : trim s ≡ s

split-Lacks :
    (s t : Text) (ss : List Text)
    → Lacks b'/' s
    → split b'/' t ≡ [] ∷ ss
    → split b'/' (s ++ t) ≡ s ∷ ss
unfolding split cons_head
split-Lacks [] t ss l e = e
split-Lacks (c ∷ s) t ss (p, l) e = ground (arith, split-Lacks s t ss l e)

split-join : (ss : List Text) → All IsSubPath ss → split b'/' (join ss) ≡ [] ∷ ss
unfolding split join
split-join [] h = refl
split-join (s ∷ ss) (p, h) = ap (◌∷◌ []) (split-Lacks s (join ss) ss p.no_slash (split-join ss h))

kept : (ss : List Text) → All IsSubPath ss → keep_if is_given (map trim ss) ≡ ss
kept [] h = refl
kept (s ∷ ss) (p, h) = rw (p.trimmed, p.nonempty) (ap (◌∷◌ s) (kept ss h))

segments-join : (ss : List Text) → All IsSubPath ss → segments_of (join ss) ≡ ss
unfolding segments_of trim trim_start
segments-join ss h =
    ap (λ parts. keep_if is_given (map trim parts)) (split-join ss h) ∙ trimmed_nothing
  where
    trimmed_nothing : keep_if is_given (map trim ([] ∷ ss)) ≡ ss
    trimmed_nothing = kept ss h

-- The address of the sub-path `ss` of `own`.
abbrev pub under : Address → List Text → Address
under own ss = record { value = own.value ++ join ss; transports = [] }

pub parse_sub_path-join :
    (own : Address) (ss : List Text)
    → All IsSubPath ss
    → parse_sub_path (under own ss) own ≡ parse_segments ss
unfolding parse_sub_path
parse_sub_path-join own ss h =
    rw (strip_prefix-append own.value (join ss)) (ap parse_segments (segments-join ss h))

word : (s : Text) → is_given s ≡ true → Lacks b'/' s → trim s ≡ s → IsSubPath s
word s e l t = record { nonempty = e; no_slash = l; trimmed = t }

no_unit : ℕ → Text → Bool
no_unit sep [] = true
no_unit sep (c ∷ s) = not (c == sep) && no_unit sep s

plain : (s : Text) → no_unit b'/' s ≡ true → Lacks b'/' s
unfolding no_unit
plain [] e = tt
plain (c ∷ s) e = (ground arith, plain s (ground arith))

inbox_word : IsSubPath (codes "inbox")
unfolding trim trim_start no_unit
inbox_word = word (codes "inbox") refl (plain (codes "inbox") refl) refl

-- The first segment gives the method, and the others its parameters.
parse_segments_behind :
    (head name next : Text) (more : List Text)
    → head ≢ codes "inbox"
    → let m = (parse_segments (head ∷ [])).0 in
      (parse_segments (head ∷ name ∷ []) ≡ (m, key name))
      × (parse_segments (head ∷ name ∷ next ∷ more) ≡ (m, path (name ∷ next ∷ more)))
unfolding parse_segments tail_to_params
parse_segments_behind head name next more n = elim (Option-cases (in_table head table)) [
  | inl e ↦ rw e (refl, refl)
  | inr (m, e) ↦ rw (e, text_eq-false head (codes "inbox") n) (refl, refl)
]

-- The documented sub-paths: the agent's own address, its inbox, a message of the inbox, whatever comes
-- behind that, and the methods. Behind any first segment but `inbox`, one segment is the key and more
-- are the path among the parameters of the method that the first segment stands for.
pub parse_sub_path_documented :
    (own : Address) (head name next : Text) (more : List Text)
    → IsSubPath head
    → IsSubPath name
    → IsSubPath next
    → All IsSubPath more
    → head ≢ codes "inbox"
    → let reads : List Text → Method × Params = (λ ss. parse_sub_path (under own ss) own) in
      (reads [] ≡ (method (codes "route_to_self"), no_params))
      × (reads (codes "inbox" ∷ []) ≡ (method (codes "list_inbox"), no_params))
      × (reads (codes "inbox" ∷ name ∷ more) ≡ (method (codes "read_message"), id name))
      × (reads (codes "send" ∷ []) ≡ (method (codes "send"), no_params))
      × (reads (codes "receive" ∷ []) ≡ (method (codes "receive"), no_params))
      × (reads (codes "drain" ∷ []) ≡ (method (codes "drain_inbox"), no_params))
      × (reads (codes "card" ∷ []) ≡ (method (codes "get_card"), no_params))
      × (reads (codes "status" ∷ []) ≡ (method (codes "get_status"), no_params))
      × (reads (head ∷ name ∷ []) ≡ ((reads (head ∷ [])).0, key name))
      × (reads (head ∷ name ∷ next ∷ more) ≡ ((reads (head ∷ [])).0, path (name ∷ next ∷ more)))
unfolding parse_segments in_table text_eq tail_to_params trim trim_start no_unit
parse_sub_path_documented own head name next more h p q r n =
    let reads = parse_sub_path-join own in
    let method_of : (parse_segments (head ∷ [])).0
        ≡ (parse_sub_path (under own (head ∷ [])) own).0 =
      ap (λ m. m.0) (sym (reads (head ∷ []) (h, tt))) in
    let (one, several) = parse_segments_behind head name next more n in
    (
      reads [] tt,
      reads (codes "inbox" ∷ []) (inbox_word, tt),
      reads (codes "inbox" ∷ name ∷ more) (inbox_word, (p, r)),
      reads (codes "send" ∷ []) (word (codes "send") refl (plain (codes "send") refl) refl, tt),
      reads (codes "receive" ∷ [])
          (word (codes "receive") refl (plain (codes "receive") refl) refl, tt),
      reads (codes "drain" ∷ []) (word (codes "drain") refl (plain (codes "drain") refl) refl, tt),
      reads (codes "card" ∷ []) (word (codes "card") refl (plain (codes "card") refl) refl, tt),
      reads (codes "status" ∷ [])
          (word (codes "status") refl (plain (codes "status") refl) refl, tt),
      reads (head ∷ name ∷ []) (h, (p, tt)) ∙ one ∙ ap (λ m. (m, key name)) method_of,
      reads (head ∷ name ∷ next ∷ more) (h, (p, (q, r)))
          ∙ several
          ∙ ap (λ m. (m, path (name ∷ next ∷ more))) method_of,
    )
