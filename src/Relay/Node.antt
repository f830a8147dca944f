-- ===== src/Relay/Node.antt =====
-- crates/veil-relay/src/node.rs and metrics.rs: what a relay does with the frames of a connection, and
-- the limit on connections. The frames that a peer sends before it closes are a list; tasks, locks and
-- logging are not modelled, and the receiver of the deliveries stays alive.
pub mod Reading
pub mod Counts
pub mod Pool
pub mod Limiter
pub mod Hop
use orf_veil.Prelude.{ℕ, ◌+◌, ◌%◌, List, [], ◌∷◌, ◌++◌, Option, none, some}
use orf_veil.Prelude.Bytes.{Bytes}
use orf_veil.Prelude.Map.{Map, lookup, insert, remove}
use orf_veil.Prelude.Result.{Result, ok, err, and_then}
use orf_veil.External.Random.{Rng}
use orf_veil.External.Crypto.{Crypto}
use orf_veil.Core.Crypto.Keys.{KeyPair}
use orf_veil.Relay.Forwarding.{OnionPayload, peel_onion_layer}

pub record Metrics : Type 0 where
  pub cells_forwarded : ℕ
  pub cells_delivered : ℕ
  pub decrypt_failures : ℕ
  pub connections_rejected : ℕ

pub record MetricsSnapshot : Type 0 where
  pub cells_forwarded : ℕ
  pub cells_delivered : ℕ
  pub decrypt_failures : ℕ
  pub connections_rejected : ℕ

-- `Metrics::snapshot`
abbrev pub snapshot : Metrics → MetricsSnapshot
snapshot m = record {
  cells_forwarded = m.cells_forwarded;
  cells_delivered = m.cells_delivered;
  decrypt_failures = m.decrypt_failures;
  connections_rejected = m.connections_rejected;
}

-- `fetch_add(1)` on a counter of 64 bits.
abbrev pub fetch_add_one : ℕ → ℕ
fetch_add_one n = (n + 1) % 18446744073709551616

-- The outgoing network: `TcpStream::connect`, and `write_frame` on a connection.
pub record Dialer : Type 1 where
  pub State : Type 0
  pub Connection : Type 0
  pub IoError : Type 0
  pub connect : Bytes → State → Result IoError Connection × State
  pub send_frame : Connection → Bytes → State → Result IoError (Unit {0}) × State

-- The pool of outgoing connections, and the network.
pub record Outbound (d : Dialer) : Type 0 where
  pub pool : Map d.Connection
  pub network : d.State

pub record RelayNode (d : Dialer) : Type 0 where
  pub metrics : Metrics
  pub outbound : Outbound d
  pub delivered : List Bytes

module _ (d : Dialer) where
  abbrev pub Io : Type 0 → Type 0
  Io A = Result d.IoError A × Outbound d

  -- What follows the dial in `get_or_connect`.
  unfoldable pub keep_connection :
      Bytes → Map d.Connection → Result d.IoError d.Connection × d.State → Io d.Connection
  keep_connection addr pool (ok conn, n) =
      (ok conn, record { pool = insert addr conn pool; network = n })
  keep_connection addr pool (err e, n) = (err e, record { pool = pool; network = n })

  unfoldable pub get_or_connect : Bytes → Outbound d → Io d.Connection
  unfolding keep_connection
  get_or_connect addr o = elim (lookup addr o.pool) [
    | some conn ↦ (ok conn, o)
    | none ↦ keep_connection addr o.pool (d.connect addr o.network)
  ]

  unfoldable pub send_on : d.Connection → Bytes → Outbound d → Io (Unit {0})
  send_on conn body o =
      let (out, n) = d.send_frame conn body o.network in (out, record o { network = n })

  -- The retry of `forward`: after a failed write the connection is dropped and dialled again.
  unfoldable pub retry : Bytes → Bytes → Io (Unit {0}) → Io (Unit {0})
  unfolding get_or_connect send_on
  retry next_hop body (ok _, o) = (ok tt, o)
  retry next_hop body (err _, o) =
      and_then (get_or_connect next_hop (record o { pool = remove next_hop o.pool }))
        (λ conn o'. send_on conn body o')

  -- `RelayNode::forward`
  unfoldable pub forward_frame : Bytes → Bytes → Outbound d → Io (Unit {0})
  unfolding get_or_connect send_on retry
  forward_frame next_hop body o =
      and_then (get_or_connect next_hop o) (λ conn o'. retry next_hop body (send_on conn body o'))

  -- The result of `forward`: its error ends the connection, and then nothing is counted.
  unfoldable pub count_forwarded :
      RelayNode d → Io (Unit {0}) → Result d.IoError (Unit {0}) × RelayNode d
  count_forwarded node (ok _, o) = (
    ok tt,
    record node {
      outbound = o;
      metrics = record node.metrics {
        cells_forwarded = fetch_add_one node.metrics.cells_forwarded;
      };
    },
  )
  count_forwarded node (err e, o) = (err e, record node { outbound = o })

  -- The match on the payload in `handle_connection`.
  unfoldable pub handle_payload :
      OnionPayload → RelayNode d → Result d.IoError (Unit {0}) × RelayNode d
  unfolding count_forwarded forward_frame
  handle_payload (OnionPayload.forward next_hop body) node =
      count_forwarded node (forward_frame next_hop body node.outbound)
  handle_payload (OnionPayload.deliver body) node = (
    ok tt,
    record node {
      delivered = node.delivered ++ (body ∷ []);
      metrics = record node.metrics {
        cells_delivered = fetch_add_one node.metrics.cells_delivered;
      };
    },
  )

  module _ (r : Rng) (c : Crypto r) where
    -- One round of the loop of `handle_connection`: a frame that does not peel is dropped.
    unfoldable pub handle_frame :
        KeyPair r c → Bytes → RelayNode d → Result d.IoError (Unit {0}) × RelayNode d
    unfolding handle_payload
    handle_frame keypair frame node = elim (peel_onion_layer r c keypair frame) [
      | ok payload ↦ handle_payload payload node
      | err e ↦ (
        ok tt,
        record node {
          metrics = record node.metrics {
            decrypt_failures = fetch_add_one node.metrics.decrypt_failures;
          };
        },
      )
    ]

    -- `RelayNode::handle_connection` on the frames of the peer.
    unfoldable pub handle_connection :
        KeyPair r c → List Bytes → RelayNode d → Result d.IoError (Unit {0}) × RelayNode d
    unfolding handle_frame
    handle_connection keypair [] node = (ok tt, node)
    handle_connection keypair (frame ∷ frames) node =
        and_then (handle_frame keypair frame node)
          (λ _ node'. handle_connection keypair frames node')
