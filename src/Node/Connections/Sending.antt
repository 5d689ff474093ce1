-- ===== src/Node/Connections/Sending.antt =====
-- `doSend` and `transmit` of packages/o-node/src/connection/o-node-connection.ts. What libp2p makes of
-- a new stream and of a send is a parameter; an error is the name and the code that it shows.
use olane.Common.{ℕ, ◌≡◌, Option, some, Text, codes, text_eq, if◌then◌else◌, Result, ok, err}
use olane.Node.Connections.{Connection, track_stream}

pub record Failure : Type 0 where
  pub name : Text
  pub code : Option ℕ

-- packages/o-core/src/error/enums/codes.error.ts.
abbrev pub not_found : ℕ
not_found = 4002

abbrev pub send_failed : ℕ
send_failed = 4019

-- An `oError`: its class sets no name of its own.
abbrev pub o_error : ℕ → Failure
o_error code = record { name = codes "Error"; code = some code }

-- The stream that is sent on, and the connection that tracks it from then on.
unfoldable pub do_send :
    Result Failure Text → Result Failure Unit → Connection → Result Failure Text × Connection
do_send (err e) sent c = (err (o_error send_failed), c)
do_send (ok stream) (err e) c =
    (err (o_error send_failed), track_stream stream c.next_hop_address c)
do_send (ok stream) (ok u) c = (ok stream, track_stream stream c.next_hop_address c)

abbrev pub catch : Result Failure Text × Connection → Result Failure Text × Connection
catch (ok stream, c) = (ok stream, c)
catch (err e, c) =
    (err (if text_eq e.name (codes "UnsupportedProtocolError") then o_error not_found else e), c)

unfoldable pub transmit :
    Result Failure Text → Result Failure Unit → Connection → Result Failure Text × Connection
transmit opened sent c = catch (do_send opened sent c)

-- Whatever libp2p throws, that the protocol is not supported included, `transmit` throws the error of a
-- failed send, and never that the address was not found.
pub transmit_lem :
    (opened : Result Failure Text) (sent : Result Failure Unit) (c : Connection) (e : Failure)
    → (transmit opened sent c).0 ≡ err e
    → e ≡ o_error send_failed
unfolding transmit do_send text_eq
transmit_lem (err d) sent c e h = cc
transmit_lem (ok stream) (err d) c e h = cc
transmit_lem (ok stream) (ok u) c e h = absurd (cc)
