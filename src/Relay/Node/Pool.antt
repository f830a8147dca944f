-- ===== src/Relay/Node/Pool.antt =====
-- Forwarding over pooled connections.
use orf_veil.Prelude.{◌≡◌, refl, none, some}
use orf_veil.Prelude.Bytes.{Bytes, bytes_eq_refl}
use orf_veil.Prelude.Map.{lookup, insert, remove, HasUniqueKeys, lookup-remove}
use orf_veil.Prelude.Result.{ok, err}
use orf_veil.Relay.Node.{
  Dialer, Outbound, keep_connection, get_or_connect, send_on, retry, forward_frame,
}

module _ (d : Dialer) (addr body : Bytes) (o : Outbound d) where
  -- Over a pooled connection that works the frame is sent, nothing is dialled and the pool stays.
  pub forward_frame_pooled :
      (conn : d.Connection) (n : d.State)
      → lookup addr o.pool ≡ some conn
      → d.send_frame conn body o.network ≡ (ok tt, n)
      → forward_frame d addr body o ≡ (ok tt, record { pool = o.pool; network = n })
  unfolding forward_frame get_or_connect send_on retry
  forward_frame_pooled conn n h sent = rw (h, sent, get_or_connect, send_on, retry) refl

  -- When the write on a pooled connection fails, the relay dials again, once: the new connection
  -- replaces the old one, and the result is that of the second write.
  pub forward_frame_stale :
      (stale fresh : d.Connection) (e : d.IoError) (n1 n2 : d.State)
      → HasUniqueKeys o.pool
      → lookup addr o.pool ≡ some stale
      → d.send_frame stale body o.network ≡ (err e, n1)
      → d.connect addr n1 ≡ (ok fresh, n2)
      → forward_frame d addr body o
        ≡ send_on d fresh body
            (record { pool = insert addr fresh (remove addr o.pool); network = n2 })
  unfolding forward_frame get_or_connect keep_connection send_on retry
  forward_frame_stale stale fresh e n1 n2 u h failed dialled =
      let gone : lookup addr (remove addr o.pool) ≡ none =
        rw (lookup-remove addr addr o.pool u, bytes_eq_refl addr) refl in
      rw (h, failed, gone, dialled, get_or_connect, send_on, retry, keep_connection) refl
