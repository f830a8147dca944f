-- ===== src/Tests/DeliveryInputs.antt =====
-- A message from `send` to `poll` over three relays, at concrete inputs.
use orf_veil.Prelude.{All}
use orf_veil.Prelude.{ℕ, ◌≡◌, refl, arith, Bool, true, List, [], ◌∷◌, ◌++◌, some, length}
use orf_veil.Prelude.Bytes.{Bytes}
use orf_veil.Prelude.Map.{values}
use orf_veil.Prelude.Result.{Result, ok}
use orf_veil.Core.Cell.{Cell}
use orf_veil.Core.Crypto.Keys.{KeyPair}
use orf_veil.Core.Fragmentation.Laws.{IsFragmentation}
use orf_veil.Core.Reassembly.{new}
use orf_veil.Core.Reassembly.Invariant
use orf_veil.Routing.Topology
use orf_veil.Routing.Topology.{RelayInfo}
use orf_veil.Sdk.Session.{Session, IsSharedWith, establish-IsSharedWith}
use orf_veil.Sdk.Client.{VeilClient, SentCircuit, send}
use orf_veil.Sdk.Receiver.{Receiver, new_receiver}
use orf_veil.Sdk.Delivery.Fleet.{AreHosts}
use orf_veil.Sdk.Delivery.Sending.{AllCarried, send_carries}
use orf_veil.Sdk.Delivery.Travelling.{Handed, Travels, IsReady}
use orf_veil.Sdk.CoverTraffic.{spawn}
use orf_veil.Sdk.CoverTraffic.Rounds.{spawn-AllTravel}
use orf_veil.Tests.World.{rng, rng_laws, crypto, crypto_laws}
use orf_veil.Tests.RelayInputs.{keys, topology, hosts-IsHost}

abbrev pub keypair_of : RelayInfo rng crypto → KeyPair rng crypto
keypair_of x = keys x.public_key

pub shared_session : (session : Session rng crypto) × IsSharedWith rng crypto (keys true) session
shared_session =
    let (session, _, _, shared) =
      establish-IsSharedWith rng crypto crypto_laws (keys true) 4 refl in
    (session, shared)

abbrev pub client : VeilClient rng crypto
client = record { topology = topology; hop_count = 2 }

topology-AreHosts : AreHosts rng crypto keypair_of (Topology.all rng crypto topology)
unfolding values
topology-AreHosts = hosts-IsHost

three_relays : length (Topology.all rng crypto topology) ≡ 3
unfolding values
three_relays = refl

client-IsReady : IsReady rng crypto keypair_of client
client-IsReady = record {
  positive = omega arith;
  enough = omega (arith, three_relays);
  hosted = topology-AreHosts;
  fits = omega arith;
}

-- A network that keeps every frame with its address.
abbrev pub send_to : Bytes → Bytes → List Handed → Result Bool (Unit {0}) × List Handed
send_to addr frame log = (ok tt, log ++ ((addr, frame) ∷ []))

abbrev pub message : Bytes
message = 104 ∷ 105 ∷ []

send_carries_example :
    (cells : List Cell) × (frames : List Handed) × (envelopes : List Bytes) × IsFragmentation
      (rng.fill_bytes 16 3).0
      message
      cells
    × AllCarried rng crypto keypair_of (keys true) client cells frames envelopes
    × (circuits : List SentCircuit) × (s' : ℕ) × (n' : List Handed) × (send rng crypto
          (List Handed)
          Bool
          send_to
          client
          shared_session.0
          message
          3
          []
        ≡ some (ok circuits, (s', n')))
    × (n' ≡ [] ++ frames)
send_carries_example =
    send_carries rng crypto keypair_of (keys true) (List Handed) Bool send_to (λ n. n)
      (λ addr frame n. (refl, refl)) rng_laws crypto_laws client client-IsReady shared_session.0
      shared_session.1 message 3 [] (omega arith, (omega arith, tt)) (omega arith) (omega arith)

abbrev pub receiver : Receiver rng crypto
receiver = new_receiver rng crypto (keys true)

pub new-IsValid : Invariant.IsValid new
new-IsValid = record { unique = tt; pending = tt }

spawn-AllTravel_example :
    (frames : List Handed) × (s' : ℕ) × (n' : List Handed) × (spawn rng crypto
        (List Handed)
        Bool
        send_to
        2
        client.topology
        client.hop_count
        10000000
        20000000
        7
        []
      ≡ some (s', n'))
    × (n' ≡ [] ++ frames)
    × (length frames ≡ 2)
    × All (λ h. (envelope : Bytes) × Travels rng crypto keypair_of client h envelope) frames
spawn-AllTravel_example =
    spawn-AllTravel rng crypto rng_laws crypto_laws keypair_of (List Handed) Bool send_to (λ n. n)
      (λ addr frame n. refl) client client-IsReady 10000000 20000000 (omega arith) 2 7 []
