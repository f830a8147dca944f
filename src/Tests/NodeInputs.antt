-- ===== src/Tests/NodeInputs.antt =====
-- The theorems on the relay node at concrete inputs.
use orf_veil.Prelude.{ℕ, ◌+◌, ◌≡◌, refl, arith, Bool, true, [], ◌∷◌, ◌==◌, if◌then◌else◌}
use orf_veil.Prelude.Result.{ok, err}
use orf_veil.Core.Crypto.Keys.{KeyPair}
use orf_veil.Relay.Forwarding.{peel_onion_layer}
use orf_veil.Relay.Node.{Dialer, Outbound, RelayNode, handle_frame, handle_connection}
use orf_veil.Relay.Node.Counts.{handled, handle_connection-handled}
use orf_veil.Prelude.{List, false, ◌++◌}
use orf_veil.Prelude.Bytes.{Bytes}
use orf_veil.Relay.Config.{empty_node}
use orf_veil.Relay.Node.Hop.{Works, IsPooled, Hops, handle_frame-Hops}
use orf_veil.Routing.Circuit.{build_circuit}
use orf_veil.Routing.Circuit.Peeling.{Carries, infos, build_circuit-Reaches}
use orf_veil.Tests.RelayInputs.{host, hosts, hosts-IsHost, address_a, address_b, address_c}
use orf_veil.Tests.World.{rng, rng_laws, crypto, crypto_laws}

-- Every dial gives connection 5; connection 0 is broken.
abbrev dialer : Dialer
dialer = record {
  State = ℕ;
  Connection = ℕ;
  IoError = Bool;
  connect = λ addr n. (ok 5, n + 1);
  send_frame = λ conn body n. if conn == 0 then (err true, n + 10) else (ok tt, n + 10);
}

abbrev working : Outbound dialer
working = record { pool = (97 ∷ [], 3) ∷ []; network = 0 }

abbrev keypair : KeyPair rng crypto
keypair = record { secret = true; public = true }

abbrev node_with : ℕ → RelayNode dialer
node_with failures = record {
  metrics = record {
    cells_forwarded = 0;
    cells_delivered = 0;
    decrypt_failures = failures;
    connections_rejected = 0;
  };
  outbound = working;
  delivered = [];
}

-- Two frames that are too short.
short_frames :
    handle_connection dialer rng crypto keypair ([] ∷ (1 ∷ []) ∷ []) (node_with 4)
    ≡ (ok tt, node_with 6)
unfolding handle_connection handle_frame peel_onion_layer
short_frames = refl

handle_connection-handled_example :
    handled (node_with 6).metrics ≡ handled (node_with 4).metrics + 2
handle_connection-handled_example =
    handle_connection-handled dialer rng crypto keypair ([] ∷ (1 ∷ []) ∷ []) (node_with 4)
      (node_with 6) (omega arith) short_frames

-- A network on which a connection is the address that it leads to, and which keeps every frame.
abbrev pub log_dialer : Dialer
log_dialer = record {
  State = List (Bytes × Bytes);
  Connection = Bytes;
  IoError = Bool;
  connect = λ addr n. (ok addr, n);
  send_frame = λ conn frame n. (ok tt, n ++ ((conn, frame) ∷ []));
}

abbrev body : Bytes
body = 104 ∷ 105 ∷ []

circuit :
    Carries rng crypto body hosts 196802 (build_circuit rng crypto (infos rng crypto hosts) body 1)
circuit =
    build_circuit-Reaches rng crypto rng_laws crypto_laws body hosts 1 (omega arith) hosts-IsHost
      (omega arith, (omega arith, tt)) (omega arith)

abbrev pub fresh_node : RelayNode log_dialer
fresh_node = empty_node log_dialer []

abbrev pub log_works : Works log_dialer
log_works = record {
  address_of = λ conn. conn;
  sent = λ n. n;
  connects = λ addr n. (addr, n, refl, refl, refl);
  writes = λ conn frame n. (n ++ ((conn, frame) ∷ []), refl, refl);
}

handle_frame-Hops_example :
    (node' : RelayNode log_dialer) × (handle_frame log_dialer rng crypto keypair circuit.0
        fresh_node
      ≡ (ok tt, node'))
    × Hops log_dialer log_works rng crypto body hosts fresh_node node'
    × IsPooled log_dialer log_works node'.outbound.pool
handle_frame-Hops_example =
    handle_frame-Hops log_dialer log_works rng crypto (host 1 address_a true)
      (host 2 address_b false ∷ host 3 address_c true ∷ []) body circuit.0 fresh_node circuit.2 tt
