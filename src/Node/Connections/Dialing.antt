-- ===== src/Node/Connections/Dialing.antt =====
-- Which connection a call finds, and when it dials.
use olane.Common.{
  ◌≡◌, ◌≢◌, refl, sym, ap, ◌∙◌, Bool, true, false, ◌&&◌, List, [], ◌∷◌, Option, none, some, Text,
  text_eq, text_eq_iff, text_eq_refl, any, length, &&-true, Dict, set, delete, values, All,
  Bool-cases, inl, inr, ok, ◌==◌, arith,
}
use mathlib.Core.Path.{subst}
use olane.Core.Address.{Address, Transport, libp2p_transports}
use olane.Node.Connections.{
  P2pConnection, Connection, Config, Settings, State, first_peer, peer_of, connection_closed,
  cache_connection, create_connection, is_peer, find_open, get_cached_connection_from_address,
  reuse, begin_to, begin_connect, finish_connect,
}
use olane.Node.Connections.Cache.{KeyedBy, All-delete, Reached, Reached-IsKeyed}

abbrev leads : (Text → Bool) → Option Text → Connection → Bool
leads is_open peer c = is_peer peer c.p2p_connection.remote_peer && is_open c.p2p_connection.id

find_here :
    (is_open : Text → Bool) (peer : Option Text) (d : Connection) (cs : List Connection)
    → leads is_open peer d ≡ true
    → find_open is_open peer (d ∷ cs) ≡ some d
unfolding find_open
find_here is_open peer d cs e = rw e refl

find_past :
    (is_open : Text → Bool) (peer : Option Text) (d : Connection) (cs : List Connection)
    → leads is_open peer d ≡ false
    → find_open is_open peer (d ∷ cs) ≡ find_open is_open peer cs
unfolding find_open
find_past is_open peer d cs e = rw e refl

some_value : (x y : Connection) → some x ≡ some y → x ≡ y
some_value x y q = cc

find_open-leads :
    (is_open : Text → Bool) (peer : Option Text) (cs : List Connection) (c : Connection)
    → find_open is_open peer cs ≡ some c
    → leads is_open peer c ≡ true
unfolding find_open
find_open-leads is_open peer [] c h = absurd (cc)
find_open-leads is_open peer (d ∷ cs) c h = elim (Bool-cases (leads is_open peer d)) [
  | inl e ↦
      subst (λ x. leads is_open peer x ≡ true)
        (some_value d c (sym (find_here is_open peer d cs e) ∙ h)) e
  | inr e ↦ find_open-leads is_open peer cs c (sym (find_past is_open peer d cs e) ∙ h)
]

find_open-All :
    (P : Connection → Type 0) (is_open : Text → Bool) (peer : Option Text) (m : Dict Connection)
    (c : Connection)
    → All (λ e. P e.1) m
    → find_open is_open peer (values m) ≡ some c
    → P c
unfolding find_open
find_open-All P is_open peer [] c p h = absurd (cc)
find_open-All P is_open peer ((k, d) ∷ m) c (q, p) h = elim (Bool-cases (leads is_open peer d)) [
  | inl e ↦ subst P (some_value d c (sym (find_here is_open peer d (values m) e) ∙ h)) q
  | inr e ↦ find_open-All P is_open peer m c p (sym (find_past is_open peer d (values m) e) ∙ h)
]

find_open-any :
    (is_open : Text → Bool) (peer : Option Text) (cs : List Connection)
    → any (leads is_open peer) cs ≡ true
    → (c : Connection) × (find_open is_open peer cs ≡ some c)
unfolding find_open
find_open-any is_open peer [] h = absurd (cc)
find_open-any is_open peer (d ∷ cs) h = elim (Bool-cases (leads is_open peer d)) [
  | inl e ↦ rw e (d, refl)
  | inr e ↦ rw e (find_open-any is_open peer cs (ground arith))
]

is_peer_iff : (peer : Option Text) (remote : Text) → is_peer peer remote ≡ true → peer ≡ some remote
is_peer_iff none remote h = absurd (cc)
is_peer_iff (some p) remote h = ap some (sym ((text_eq_iff remote p).0 h))

keyed_closed :
    (id : Text) (m : Dict Connection)
    → All (λ e. KeyedBy e × (e.0 ≢ id)) m
    → All (λ e. e.1.p2p_connection.id ≢ id) m
keyed_closed id [] h = tt
keyed_closed id ((k, c) ∷ m) ((p, q), h) = ((λ same. q (sym p ∙ same)), keyed_closed id m h)

module _ (settings : Settings) where
  -- In whatever order connections are answered, dialled and closed: a connection that a call finds for
  -- an address leads to the peer of the address, is open, and is not one that has just closed.
  pub get_cached_lem :
      (is_open : Text → Bool) (a : Address) (id : Text) (s : State) (c : Connection)
      → Reached settings s
      → get_cached_connection_from_address is_open a (connection_closed (some id) s) ≡ some c
      → (peer_of a ≡ some c.p2p_connection.remote_peer)
        × (is_open c.p2p_connection.id ≡ true)
        × (c.p2p_connection.id ≢ id)
  unfolding get_cached_connection_from_address connection_closed
  get_cached_lem is_open a id s c r h =
      let m = delete id s.cached_connections in
      let (peer, opened) =
        &&-true (is_peer (peer_of a) c.p2p_connection.remote_peer) (is_open c.p2p_connection.id)
          (find_open-leads is_open (peer_of a) (values m) c h) in
      (
        is_peer_iff (peer_of a) c.p2p_connection.remote_peer peer,
        opened,
        find_open-All (λ x. x.p2p_connection.id ≢ id) is_open (peer_of a) m c
            (keyed_closed id m
              (All-delete KeyedBy id s.cached_connections (Reached-IsKeyed settings s r)))
            h,
      )

any-set :
    {V : Type 0} (q : V → Bool) (k : Text) (v : V) (m : Dict V)
    → q v ≡ true
    → any q (values (set k v m)) ≡ true
unfolding set
any-set q k v [] h = rw h refl
any-set q k v ((j, w) ∷ m) h = elim (Bool-cases (text_eq j k)) [
  | inl e ↦ rw (e, h) refl
  | inr e ↦ rw e (let rest = any-set q k v m h in ground arith)
]

has_transports :
    (a : Address) (peer : Text)
    → peer_of a ≡ some peer
    → (length (libp2p_transports a) == 0) ≡ false
unfolding peer_of
has_transports a peer h = by_list (libp2p_transports a) h
  where
    by_list : (ts : List Transport) → first_peer ts ≡ some peer → (length ts == 0) ≡ false
    by_list [] e = absurd (cc)
    by_list (t ∷ ts) e = ground arith

begin_found :
    (is_open : Text → Bool) (b : Address) (t : State) (c : Connection)
    → get_cached_connection_from_address is_open b t ≡ some c
    → (length (libp2p_transports b) == 0) ≡ false
    → begin_to is_open t (some b) ≡ (ok (reuse c), t)
begin_found is_open b t c e f = rw (f, e) refl

found_peer :
    (is_open : Text → Bool) (b : Address) (t : State) (remote : Text)
    → peer_of b ≡ some remote
    → any (leads is_open (peer_of b)) (values t.cached_connections) ≡ true
    → (c : Connection) × (begin_to is_open t (some b) ≡ (ok (reuse c), t))
      × (c.p2p_connection.remote_peer ≡ remote)
      × (is_open c.p2p_connection.id ≡ true)
unfolding get_cached_connection_from_address
found_peer is_open b t remote q h =
    let (c, e) = find_open-any is_open (peer_of b) (values t.cached_connections) h in
    let (peer, opened) =
      &&-true (is_peer (peer_of b) c.p2p_connection.remote_peer) (is_open c.p2p_connection.id)
        (find_open-leads is_open (peer_of b) (values t.cached_connections) c e) in
    (
      c,
      begin_found is_open b t c e (has_transports b remote q),
      same_text (sym (is_peer_iff (peer_of b) c.p2p_connection.remote_peer peer) ∙ q),
      opened,
    )
  where
    same_text : {x y : Text} → some x ≡ some y → x ≡ y
    same_text e = cc

-- A call that has dialled a peer spares the next one the dial: as long as the connection is open, a
-- call to any address of that peer finds an open connection to it.
pub begin_connect-finish_connect :
    (settings : Settings) (is_open : Text → Bool) (config next : Config) (a b : Address)
    (p : P2pConnection) (s : State)
    → is_open p.id ≡ true
    → peer_of b ≡ some p.remote_peer
    → next.next_hop_address ≡ some b
    → (c : Connection) × (let t = (finish_connect settings config a (ok p) s).1 in
        begin_connect is_open next t ≡ (ok (reuse c), t))
      × (c.p2p_connection.remote_peer ≡ p.remote_peer)
      × (is_open c.p2p_connection.id ≡ true)
unfolding begin_connect finish_connect cache_connection create_connection
begin_connect-finish_connect settings is_open config next a b p s h q w =
    let t = (finish_connect settings config a (ok p) s).1 in
    let kept = create_connection settings config a p in
    let good : leads is_open (peer_of b) kept ≡ true = rw (q, text_eq_refl p.remote_peer, h) refl in
    let (c, e, r, o) =
      found_peer is_open b t p.remote_peer q
        (any-set (leads is_open (peer_of b)) p.id kept s.cached_connections good) in
    (c, rw w e, r, o)
