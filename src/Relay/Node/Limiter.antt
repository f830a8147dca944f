-- ===== src/Relay/Node/Limiter.antt =====
-- The accept loop of `RelayNode::run` with its semaphore: steps on the connections that are open, and
-- on the counter of those that were refused.
use orf_veil.Prelude.{ℕ, ◌+◌, ◌-◌, ◌≤◌, ◌<◌, ◌≡◌, arith}
use orf_veil.Relay.Node.{fetch_add_one}

-- Each open connection holds a permit.
pub record Limiter : Type 0 where
  pub open_connections : ℕ
  pub connections_rejected : ℕ

module _ (max_connections : ℕ) where
  -- A connection is accepted with a permit, refused without one, or its task ends.
  pub data Step : Limiter → Limiter → Type 0 where
    accept :
        (l : Limiter)
        → l.open_connections < max_connections
        → Step l (record l { open_connections = l.open_connections + 1 })
    reject :
        (l : Limiter)
        → l.open_connections ≡ max_connections
        → Step l (record l { connections_rejected = fetch_add_one l.connections_rejected })
    close :
        (l : Limiter)
        → 0 < l.open_connections
        → Step l (record l { open_connections = l.open_connections - 1 })

  pub data Steps : Limiter → Limiter → Type 0 where
    done : (l : Limiter) → Steps l l
    then_step : {a b e : Limiter} → Steps a b → Step b e → Steps a e

  -- Whatever the order of arrivals and ends, never more than `max_connections` are open.
  pub Steps-bounded :
      {a b : Limiter}
      → Steps a b
      → a.open_connections ≤ max_connections
      → b.open_connections ≤ max_connections
  Steps-bounded (done l) h = h
  Steps-bounded (then_step p (accept l free)) h = omega arith
  Steps-bounded (then_step p (reject l full)) h = Steps-bounded p h
  Steps-bounded (then_step p (close l some_open)) h = let before = Steps-bounded p h in omega arith
