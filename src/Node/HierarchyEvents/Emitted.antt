-- ===== src/Node/HierarchyEvents/Emitted.antt =====
-- Which address a peer stands for, and which events it leads to.
use olane.Common.{
  ◌≡◌, refl, sym, ap, ◌∙◌, ◌&&◌, inl, inr, Bool, true, false, List, [], ◌∷◌, ◌++◌, Option, some,
  Text, codes, text_eq, any, text_eq_refl, find, Bool-cases, arith,
}
use olane.Core.Address.{Address}
use olane.Core.Hierarchy.{Hierarchy}
use olane.Core.Notifications.Filters.{children_only}
use olane.Node.HierarchyEvents.{
  Emission, mentions, find_peer, or_else, peer_id_to_address, is_among, is_child,
  handle_peer_connected, handle_peer_disconnected,
}

find_peer-append :
    (peer_id : Text) (xs ys : List Address)
    → find_peer peer_id (xs ++ ys) ≡ or_else (find_peer peer_id xs) (find_peer peer_id ys)
unfolding find_peer
find_peer-append peer_id [] ys = refl
find_peer-append peer_id (x ∷ xs) ys = elim (Bool-cases (mentions peer_id x)) [
  | inl e ↦ rw e refl
  | inr e ↦ rw e (find_peer-append peer_id xs ys)
]

find_peer-find :
    (peer_id : Text) (xs : List Address) → find_peer peer_id xs ≡ find (mentions peer_id) xs
unfolding find_peer
find_peer-find peer_id [] = refl
find_peer-find peer_id (x ∷ xs) = elim (Bool-cases (mentions peer_id x)) [
  | inl e ↦ rw e refl
  | inr e ↦ rw e (find_peer-find peer_id xs)
]

-- A peer stands for the first address, the children before the parents before the leaders, one of
-- whose libp2p transports names it.
pub peer_id_to_address_lem :
    (peer_id : Text) (h : Hierarchy)
    → peer_id_to_address peer_id h
      ≡ find (mentions peer_id) (h.children ++ (h.parents ++ h.leaders))
unfolding peer_id_to_address
peer_id_to_address_lem peer_id h =
    ap (or_else (find_peer peer_id h.children)) (sym (find_peer-append peer_id h.parents h.leaders))
    ∙ sym (find_peer-append peer_id h.children (h.parents ++ h.leaders))
    ∙ find_peer-find peer_id (h.children ++ (h.parents ++ h.leaders))

find_peer-member :
    (peer_id : Text) (xs : List Address) (a : Address)
    → find_peer peer_id xs ≡ some a
    → is_among xs a ≡ true
unfolding find_peer
find_peer-member peer_id [] a e = absurd (cc)
find_peer-member peer_id (x ∷ xs) a e = elim (Bool-cases (mentions peer_id x)) [
  | inl q ↦
      let found : some x ≡ some a = found_here peer_id x xs a q e in
      let same : x ≡ a = cc in rw same (rw (text_eq_refl a.value) refl)
  | inr q ↦
      let rest = find_peer-member peer_id xs a (found_later peer_id x xs a q e) in ground arith
]
  where
    found_here :
        (peer_id : Text) (x : Address) (xs : List Address) (a : Address)
        → mentions peer_id x ≡ true
        → find_peer peer_id (x ∷ xs) ≡ some a
        → some x ≡ some a
    found_here peer_id x xs a q e = sym (rw q refl) ∙ e

    found_later :
        (peer_id : Text) (x : Address) (xs : List Address) (a : Address)
        → mentions peer_id x ≡ false
        → find_peer peer_id (x ∷ xs) ≡ some a
        → find_peer peer_id xs ≡ some a
    found_later peer_id x xs a q e = sym (rw q refl) ∙ e

-- An event of this type, about this address, that the filter for the children of `own` lets through.
abbrev pub tells : Text → Address → Address → Emission → Bool
tells type own a e =
    text_eq e.event.type type && text_eq e.about.value a.value && children_only e.event own

-- Whenever a peer that a child's transport names connects, the node tells so, in a `child:joined` event
-- that the filter for its direct children lets through; and likewise in a `child:left` event whenever the
-- peer disconnects.
pub child_lem :
    (own : Address) (h : Hierarchy) (peer_id : Text) (reason : Option Text) (a : Address)
    → find_peer peer_id h.children ≡ some a
    → (any (tells (codes "child:joined") own a) (handle_peer_connected own h peer_id) ≡ true)
      × (any (tells (codes "child:left") own a) (handle_peer_disconnected own h peer_id reason)
          ≡ true)
unfolding handle_peer_connected handle_peer_disconnected peer_id_to_address is_child children_only
    text_eq
child_lem own h peer_id reason a e =
    let child = find_peer-member peer_id h.children a e in
    rw (e, child, text_eq_refl a.value, text_eq_refl own.value) (refl, refl)
