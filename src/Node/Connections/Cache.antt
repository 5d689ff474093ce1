-- ===== src/Node/Connections/Cache.antt =====
-- The connections that are kept, and which of them a call finds.
use olane.Common.{
  ◌≡◌, ◌≢◌, refl, sym, Bool, false, [], ◌∷◌, Option, none, some, Text, text_eq, text_eq_iff, any,
  length, Dict, get, set, delete, All, Bool-cases, inl, inr, Result, ok, err, ◌==◌, arith,
}
use mathlib.Core.Path.{subst}
use olane.Core.Address.{Address, libp2p_transports}
use olane.Node.Connections.{
  P2pConnection, Connection, Config, Settings, State, initial, connection_closed, cache_connection,
  create_connection, track_stream, answer_from, answer_on, answer,
  get_cached_connection_from_address, begin_dial, begin_with, begin_to, begin_connect, settle_dial,
  finish_connect,
}

-- Each connection is kept under the id of its libp2p connection.
abbrev pub KeyedBy : Text × Connection → Type 0
KeyedBy e = e.1.p2p_connection.id ≡ e.0

abbrev pub IsKeyed : State → Type 0
IsKeyed s = All KeyedBy s.cached_connections

pair_eq : {V : Type 0} {j k : Text} {v w : V} → j ≡ k → v ≡ w → Path (Text × V) (j, v) (k, w)
pair_eq p q = λ i. (p i, q i)

module _ {V : Type 0} (P : Text × V → Type 0) where
  pub All-set : (k : Text) (v : V) (m : Dict V) → P (k, v) → All P m → All P (set k v m)
  unfolding set
  All-set k v [] p h = (p, tt)
  All-set k v ((j, w) ∷ m) p (q, h) = elim (Bool-cases (text_eq j k)) [
    | inl e ↦ rw e (subst (λ i. P (i, v)) (sym ((text_eq_iff j k).0 e)) p, h)
    | inr e ↦ rw e (q, All-set k v m p h)
  ]

  pub All-delete : (k : Text) (m : Dict V) → All P m → All (λ e. P e × (e.0 ≢ k)) (delete k m)
  unfolding delete
  All-delete k [] h = tt
  All-delete k ((j, w) ∷ m) (q, h) = elim (Bool-cases (text_eq j k)) [
    | inl e ↦ rw e (All-delete k m h)
    | inr e ↦ rw e ((q, λ same. differ j k e same), All-delete k m h)
  ]
    where
      differ : (j k : Text) → text_eq j k ≡ false → j ≢ k
      differ j k e same = absurd (let t = (text_eq_iff j k).1 same in cc)

  pub All-get : (k : Text) (v : V) (m : Dict V) → get k m ≡ some v → All P m → P (k, v)
  unfolding get
  All-get k v [] e h = absurd (cc)
  All-get k v ((j, w) ∷ m) e (p, h) = elim (Bool-cases (text_eq j k)) [
    | inl q ↦ subst P (pair_eq ((text_eq_iff j k).0 q) (ground arith)) p
    | inr q ↦ All-get k v m (ground arith) h
  ]

track_stream_id :
    (stream : Text) (a : Address) (c : Connection)
    → (track_stream stream a c).p2p_connection.id ≡ c.p2p_connection.id
unfolding track_stream
track_stream_id stream a c = refl

answer_from_id :
    (settings : Settings) (config : Config) (a : Address) (stream : Text) (p : P2pConnection)
    (o : Option Connection)
    → ((c : Connection) → o ≡ some c → c.p2p_connection.id ≡ p.id)
    → (answer_from settings config a stream p o).p2p_connection.id ≡ p.id
unfolding create_connection track_stream
answer_from_id settings config a stream p none h = refl
answer_from_id settings config a stream p (some c) h = h c refl

pub cache_connection-IsKeyed :
    (c : Connection) (s : State) → IsKeyed s → IsKeyed (cache_connection c s)
unfolding cache_connection
cache_connection-IsKeyed c s h = All-set KeyedBy c.p2p_connection.id c s.cached_connections refl h

answer_some :
    (settings : Settings) (config : Config) (a : Address) (stream : Text) (p : P2pConnection)
    (s : State)
    → IsKeyed s
    → All KeyedBy (
        set p.id
          (answer_from settings config a stream p (get p.id s.cached_connections))
          s.cached_connections)
answer_some settings config a stream p s h =
    All-set KeyedBy p.id (answer_from settings config a stream p (get p.id s.cached_connections))
      s.cached_connections
      (answer_from_id settings config a stream p (get p.id s.cached_connections)
        (λ c e. All-get KeyedBy p.id c s.cached_connections e h))
      h

answer_on-IsKeyed :
    (settings : Settings) (config : Config) (a : Address) (stream : Text) (s : State)
    (o : Option P2pConnection)
    → IsKeyed s
    → IsKeyed (answer_on settings config a stream s o).1
answer_on-IsKeyed settings config a stream s none h = h
answer_on-IsKeyed settings config a stream s (some p) h = answer_some settings config a stream p s h

begin_with-cached :
    (a : Address) (s : State) (o : Option Connection)
    → (begin_with a s o).1.cached_connections ≡ s.cached_connections
unfolding begin_dial
begin_with-cached a s (some c) = refl
begin_with-cached a s none = elim (Bool-cases (any (text_eq a.value) s.pending_dials)) [
  | inl e ↦ rw e refl
  | inr e ↦ rw e refl
]

begin_to-cached :
    (is_open : Text → Bool) (s : State) (o : Option Address)
    → (begin_to is_open s o).1.cached_connections ≡ s.cached_connections
begin_to-cached is_open s none = refl
begin_to-cached is_open s (some a) =
    let found = get_cached_connection_from_address is_open a s in
    elim (Bool-cases (length (libp2p_transports a) == 0)) [
      | inl e ↦ rw e refl
      | inr e ↦ rw e (begin_with-cached a s found)
    ]

-- What happens to a manager, in any order: connections are answered, calls begin, dials settle, calls
-- end, and libp2p connections close.
pub data Reached (settings : Settings) : State → Type 0 where
  reached_initial : Reached settings initial
  reached_answer :
      {s : State} (config : Config) (a : Address) (stream : Text)
      → Reached settings s
      → Reached settings (answer settings config a stream s).1
  reached_begin :
      {s : State} (is_open : Text → Bool) (config : Config)
      → Reached settings s
      → Reached settings (begin_connect is_open config s).1
  reached_settle :
      {s : State} (key : Text) → Reached settings s → Reached settings (settle_dial key s)
  reached_finish :
      {s : State} (config : Config) (a : Address) (r : Result Text P2pConnection)
      → Reached settings s
      → Reached settings (finish_connect settings config a r s).1
  reached_closed :
      {s : State} (id : Option Text)
      → Reached settings s
      → Reached settings (connection_closed id s)

All-first :
    (Q : Text × Connection → Type 0) (m : Dict Connection)
    → All (λ e. KeyedBy e × Q e) m
    → All KeyedBy m
All-first Q [] h = tt
All-first Q (e ∷ m) ((p, q), h) = (p, All-first Q m h)

finish_connect-IsKeyed :
    (settings : Settings) (config : Config) (a : Address) (r : Result Text P2pConnection)
    (s : State)
    → IsKeyed s
    → IsKeyed (finish_connect settings config a r s).1
unfolding finish_connect
finish_connect-IsKeyed settings config a (err e) s h = h
finish_connect-IsKeyed settings config a (ok p) s h =
    cache_connection-IsKeyed (create_connection settings config a p) s h

connection_closed-IsKeyed :
    (id : Option Text) (s : State) → IsKeyed s → IsKeyed (connection_closed id s)
unfolding connection_closed
connection_closed-IsKeyed none s h = h
connection_closed-IsKeyed (some id) s h =
    All-first (λ e. e.0 ≢ id) (delete id s.cached_connections)
      (All-delete KeyedBy id s.cached_connections h)

module _ (settings : Settings) where
  pub Reached-IsKeyed : (s : State) → Reached settings s → IsKeyed s
  unfolding answer begin_connect settle_dial
  Reached-IsKeyed _ reached_initial = tt
  Reached-IsKeyed _ (reached_answer {s} config a stream r) =
      answer_on-IsKeyed settings config a stream s config.p2p_connection (Reached-IsKeyed s r)
  Reached-IsKeyed _ (reached_begin {s} is_open config r) =
      subst (All KeyedBy) (sym (begin_to-cached is_open s config.next_hop_address))
        (Reached-IsKeyed s r)
  Reached-IsKeyed _ (reached_settle {s} key r) = Reached-IsKeyed s r
  Reached-IsKeyed _ (reached_finish {s} config a result r) =
      finish_connect-IsKeyed settings config a result s (Reached-IsKeyed s r)
  Reached-IsKeyed _ (reached_closed {s} id r) = connection_closed-IsKeyed id s (Reached-IsKeyed s r)
