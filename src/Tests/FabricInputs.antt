-- ===== src/Tests/FabricInputs.antt =====
-- Three relays that take turns until a message is delivered, at concrete inputs.
use orf_veil.Prelude.{
  ℕ, ◌+◌, ◌*◌, ◌≡◌, refl, arith, Bool, true, false, List, [], ◌∷◌, ◌++◌, some, length, drop, sym,
  if◌then◌else◌,
}
use orf_veil.Prelude.Bytes.{Bytes, bytes_eq}
use orf_veil.Prelude.Map.{lookup, values}
use orf_veil.Prelude.Result.{Result, ok}
use orf_veil.Core.Cell.{Cell}
use orf_veil.Core.Fragmentation.Laws.{IsFragmentation}
use orf_veil.Core.Crypto.Keys.{KeyPair}
use orf_veil.Routing.Topology
use orf_veil.Sdk.Client.{ClientError, SentCircuit, send}
use orf_veil.Sdk.Receiver.{Network}
use orf_veil.Sdk.Delivery.Fleet.{AreHosts}
use orf_veil.Sdk.Delivery.Sending.{AllCarried, send_carries}
use orf_veil.Sdk.Delivery.Travelling.{Handed, IsReady}
use orf_veil.Sdk.Delivery.EndToEnd.{Pulled, pulled, pulled_all}
use orf_veil.Sdk.Delivery.Fabric.{Fabric, FabricRun, stay, joined, kept, served}
use orf_veil.Sdk.Delivery.Fabric.Owed.{serves, keypair_of}
use orf_veil.Sdk.Delivery.Fabric.Runs.{IsFlowing}
use orf_veil.Sdk.Delivery.Fabric.Progress.{FabricRun-ends}
use orf_veil.Sdk.Delivery.Concurrent.{
  AllServed, AllCarried-Owed, PollGives, joined-IsFlowing, poll-FabricRun-send,
}
use orf_veil.Tests.World.{rng, rng_laws, crypto, crypto_laws}
use orf_veil.Tests.RelayInputs.{keys, topology, hosts-IsHost, address_a, address_b, address_c}
use orf_veil.Tests.NodeInputs.{log_dialer, log_works, fresh_node}
use orf_veil.Tests.DeliveryInputs.{shared_session, client, send_to, message, receiver, new-IsValid}
use mathlib.Core.List.{Permᴰ, append-nil}
use mathlib.Core.List.Permᴰ
use mathlib.Core.Path.{subst}

abbrev keypair_at : Bytes → KeyPair rng crypto
keypair_at addr = if bytes_eq addr address_b then keys false else keys true

abbrev addrs : List Bytes
addrs = address_a ∷ address_b ∷ address_c ∷ []

topology-AreHosts :
    AreHosts rng crypto (keypair_of rng crypto keypair_at) (Topology.all rng crypto topology)
unfolding values bytes_eq
topology-AreHosts = hosts-IsHost

three_relays : length (Topology.all rng crypto topology) ≡ 3
unfolding values
three_relays = refl

ready : IsReady rng crypto (keypair_of rng crypto keypair_at) client
ready = record {
  positive = omega arith;
  enough = omega (arith, three_relays);
  hosted = topology-AreHosts;
  fits = omega arith;
}

all_served : AllServed rng crypto keypair_at addrs client
unfolding values serves bytes_eq
all_served = (refl, (refl, (refl, tt)))

abbrev idle : Fabric log_dialer
idle = record {
  network = [];
  in_flight = [];
  relays = (address_a, fresh_node) ∷ (address_b, fresh_node) ∷ (address_c, fresh_node) ∷ [];
}

idle-IsFlowing : IsFlowing log_dialer log_works rng crypto keypair_at addrs idle [] 0
unfolding served
idle-IsFlowing = record { owed = refl; pooled = (tt, (tt, (tt, tt))); running = refl }

-- What `send` does with the message.
handed_over :
    (cells : List Cell) × (frames : List Handed) × (envelopes : List Bytes) × IsFragmentation
      (rng.fill_bytes 16 3).0
      message
      cells
    × AllCarried rng crypto
        (keypair_of rng crypto keypair_at)
        receiver.identity
        client
        cells
        frames
        envelopes
    × (circuits : List SentCircuit) × (s' : ℕ) × (n' : List Handed) × (send rng crypto
          (List Handed)
          Bool
          send_to
          client
          shared_session.0
          message
          3
          []
        ≡ some (ok circuits, (s', n')))
    × (n' ≡ [] ++ frames)
handed_over =
    send_carries rng crypto (keypair_of rng crypto keypair_at) receiver.identity (List Handed) Bool
      send_to (λ n. n) (λ addr frame n. (refl, refl)) rng_laws crypto_laws client ready
      shared_session.0 shared_session.1 message 3 [] (omega arith, (omega arith, tt)) (omega arith)
      (omega arith)

abbrev log : List Handed
log = handed_over.7

abbrev hops : ℕ
hops = 0 + client.hop_count * length handed_over.1

busy-IsFlowing :
    IsFlowing log_dialer log_works rng crypto keypair_at addrs
      (joined log_dialer idle log)
      handed_over.2
      hops
busy-IsFlowing =
    subst
      (λ l.
        IsFlowing log_dialer log_works rng crypto keypair_at addrs (joined log_dialer idle l)
          handed_over.2 hops)
      (sym handed_over.9)
      (joined-IsFlowing rng crypto rng_laws crypto_laws log_dialer log_works keypair_at addrs idle
        [] 0 handed_over.1 handed_over.2 (client.hop_count * length handed_over.1) idle-IsFlowing
        (AllCarried-Owed rng crypto keypair_at addrs client all_served receiver.identity
          handed_over.4))

abbrev Settled : Type 0
Settled =
    (left : ℕ) × (h : Fabric log_dialer) × (0 + left ≡ hops)
    × FabricRun log_dialer log_works rng crypto keypair_at left (joined log_dialer idle log) h
    × (h.in_flight ≡ [])

settled : Settled
settled =
    FabricRun-ends log_dialer log_works rng crypto keypair_at addrs handed_over.2 hops stay
      busy-IsFlowing

FabricRun-ends_example : Settled
FabricRun-ends_example =
    FabricRun-ends log_dialer log_works rng crypto keypair_at addrs handed_over.2 hops stay
      busy-IsFlowing

abbrev arrived : List Bytes
arrived = kept log_dialer settled.1.relays

-- One mailbox, which gives what the relays kept.
abbrev network : Network
network = record { State = Bool; IoError = Bool; pull = λ addr full. (ok arrived, full) }

abbrev boxes : List Bytes
boxes = (49 ∷ []) ∷ []

boxes_pulled : Pulled network boxes true arrived
boxes_pulled =
    subst (Pulled network boxes true) (append-nil arrived)
      (pulled {raws = arrived} {more = []} refl pulled_all)

fresh_log : drop (length {A = Handed} []) log ≡ log
unfolding drop
fresh_log = refl

full_run :
    FabricRun log_dialer log_works rng crypto keypair_at settled.0
      (joined log_dialer idle (drop (length {A = Handed} []) log))
      settled.1
full_run =
    subst
      (λ l.
        FabricRun log_dialer log_works rng crypto keypair_at settled.0 (joined log_dialer idle l)
          settled.1)
      (sym fresh_log) settled.3

poll-FabricRun-send_example :
    (circuits : List SentCircuit) × (◌≡◌ {A = Result (ClientError Bool) (List SentCircuit)}
      (ok handed_over.5)
      (ok circuits))
    × (settled.0 ≡ 0 + client.hop_count * length (drop (length {A = Handed} []) log))
    × PollGives rng crypto receiver network boxes true (rng.fill_bytes 16 3).0 message
unfolding kept lookup
poll-FabricRun-send_example =
    poll-FabricRun-send rng crypto rng_laws crypto_laws log_dialer log_works keypair_at addrs client
      ready all_served receiver shared_session.0 shared_session.1 (List Handed) Bool send_to
      (λ n. n) (λ addr frame n. (refl, refl)) message 3 handed_over.6 [] log (ok handed_over.5) idle
      [] 0 network boxes arrived true (omega arith, (omega arith, tt)) (omega arith) (omega arith)
      handed_over.8 idle-IsFlowing full_run settled.4 boxes_pulled (Permᴰ.refl arrived) tt
      new-IsValid refl

-- A mailbox with the envelopes.
abbrev full : Network
full = record { State = Bool; IoError = Bool; pull = λ addr n. (ok handed_over.2, n) }
