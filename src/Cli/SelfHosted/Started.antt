-- ===== src/Cli/SelfHosted/Started.antt =====
-- The relays of the self-hosted mode are all started, under different ids, and their mailboxes are where
-- the client looks for them.
use orf_veil.Prelude.{ℕ, ◌+◌, ◌<◌, ◌≡◌, List, [], ◌∷◌, Bool, Option, some, All}
use orf_veil.Prelude.Bytes.{Bytes}
use orf_veil.Prelude.Map.{Map}
use orf_veil.Prelude.Result.{Result}
use orf_veil.External.Random.{Rng}
use orf_veil.External.Crypto.{Crypto}
use orf_veil.Core.Crypto.Keys
use orf_veil.Relay.Address.{SocketAddr}
use orf_veil.Routing.Topology
use orf_veil.Routing.Topology.{Topology}
use orf_veil.Cli.Modes.{mailbox_addrs}
use orf_veil.Cli.SelfHosted.{local_relay_id}
use mathlib.Core.Option

-- The key is that of a local relay before the index.
abbrev IsLocal : ℕ → Bytes → Type 0
IsLocal i k = (j : ℕ) × (j < i) × (k ≡ local_relay_id j)

module _ (r : Rng) (c : Crypto r) (overflow_checks : Bool) where
  -- The relays of a topology are local ones before the index, and the addresses those of their
  -- mailboxes.
  record IsStarted (i : ℕ) (t : Topology r c) (addrs : List Bytes) : Type 0 where
    ids : All (λ e. IsLocal i e.0) t.relays
    polled : mailbox_addrs r c overflow_checks (Topology.all r c t) ≡ some addrs

  abbrev local_socket : ℕ → SocketAddr
  local_socket i = record { ip = 49 ∷ 50 ∷ 55 ∷ 46 ∷ 48 ∷ 46 ∷ 48 ∷ 46 ∷ 49 ∷ []; port = 20000 + i }

  module _ (i : ℕ) (fits : 21000 + i < 65536) where
    abbrev local_mailbox : SocketAddr
    local_mailbox = record (local_socket i) { port = 20000 + i + 1000 }

  abbrev Starts : ℕ → ℕ → Topology r c → Option ((Topology r c × List Bytes) × r.State) → Type 0
  Starts n i t o =
      (t' : Topology r c) × (addrs' : List Bytes) × (s' : r.State) × (o ≡ some ((t', addrs'), s'))
      × (Topology.len r c t' ≡ Topology.len r c t + n)
      × IsStarted (i + n) t' addrs'
