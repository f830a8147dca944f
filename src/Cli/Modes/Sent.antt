-- ===== src/Cli/Modes/Sent.antt =====
-- In external mode the message is sent whole before the mailboxes are polled.
use orf_veil.Prelude.{
  ◌≤◌, ◌<◌, ◌≡◌, refl, ap, arith, List, [], ◌∷◌, ◌++◌, Bool, Option, some, length, length-map, All,
}
use orf_veil.Prelude.Bytes.{Bytes, IsByte}
use orf_veil.Prelude.Result.{Result, ok}
use orf_veil.Prelude.Map.{Map, values}
use orf_veil.External.Random.{Rng, RngLaws}
use orf_veil.External.Crypto.{Crypto, CryptoLaws}
use orf_veil.External.Text.{Hex, Json}
use orf_veil.External.Files.{Files}
use orf_veil.Core.Cell.{Cell}
use orf_veil.Core.Crypto.Keys
use orf_veil.Core.Crypto.Keys.{KeyPair, generate-IsPair}
use orf_veil.Core.Fragmentation.{max_message_size}
use orf_veil.Core.Fragmentation.Laws.{IsFragmentation}
use orf_veil.Routing.Topology
use orf_veil.Routing.Topology.{RelayInfo, Topology}
use orf_veil.Routing.TopologyFile.{TopologyFile, load_from_file}
use orf_veil.Sdk.Session.{establish, establish-IsSharedWith}
use orf_veil.Sdk.Client.{VeilClient}
use orf_veil.Sdk.Receiver.{Network}
use orf_veil.Sdk.Delivery.Fleet.{AreHosts}
use orf_veil.Sdk.Delivery.Travelling.{Handed, IsReady}
use orf_veil.Sdk.Delivery.Sending.{AllCarried, send_carries}
use orf_veil.Cli.Modes.{
  Outcome, external_hop_count, mailbox_addrs, receive_back, send_and_report, send_and_receive,
  run_external,
}
use mathlib.Core.Option

length-values {ℓ} : {V : Type ℓ} (m : Map V) → length (values m) ≡ length m
unfolding values
length-values m = length-map (λ e. e.1) m

module _ (r : Rng) (c : Crypto r) (keypair_of : RelayInfo r c → KeyPair r c) where
  -- A topology with a relay, and only relays that run, is ready with the hops of external mode.
  external_hop_count-IsReady :
      (t : Topology r c)
      → 0 < Topology.len r c t
      → AreHosts r c keypair_of (Topology.all r c t)
      → IsReady r c keypair_of (record { topology = t; hop_count = external_hop_count r c t })
  external_hop_count-IsReady t some_relay hosted = record {
    positive = omega arith;
    enough = omega (arith, length-values t.relays);
    hosted = hosted;
    fits = omega arith;
  }

  module _ (rng : RngLaws r) (laws : CryptoLaws r c) (net : Network)
      (send_to : Bytes → Bytes → net.State → Result net.IoError (Unit {0}) × net.State)
      (sent : net.State → List Handed)
      (takes : (addr frame : Bytes) (n : net.State)
        → ((send_to addr frame n).0 ≡ ok tt)
          × (sent (send_to addr frame n).1 ≡ sent n ++ ((addr, frame) ∷ []))) where
    -- The message is on its way to the mailboxes, as the cells of a fragmentation, when the recipient
    -- polls them.
    abbrev pub Polls :
        VeilClient r c
        → KeyPair r c
        → Bytes
        → List Bytes
        → net.State
        → Option (Outcome × net.State)
        → Type 0
    Polls client identity message addrs n o =
        (id : Bytes) × (cells : List Cell) × (frames : List Handed) × (envelopes : List Bytes)
        × IsFragmentation id message cells
        × AllCarried r c keypair_of identity client cells frames envelopes
        × (n' : net.State) × (sent n' ≡ sent n ++ frames)
        × (o ≡ receive_back r c net send_to identity addrs n')

    module _ (message : Bytes) (b : All IsByte message) (nonempty : 0 < length message)
        (short : length message ≤ max_message_size) where
      send_and_receive-Polls :
          (client : VeilClient r c) (addrs : List Bytes) (s : r.State) (n : net.State)
          → IsReady r c keypair_of client
          → Polls client
              (Keys.generate r c s).0
              message
              addrs
              n
              (send_and_receive r c net send_to client.topology client.hop_count message addrs s n)
      unfolding send_and_receive send_and_report Option.bind
      send_and_receive-Polls client addrs s n ready =
          let identity = (Keys.generate r c s).0 in
          let s1 = (Keys.generate r c s).1 in
          let (session, e, _, shared) =
            establish-IsSharedWith r c laws identity s1 (generate-IsPair r c s) in
          let run0 = establish r c (Keys.public_key r c identity) s1 in
          let s2 = run0.1 in
          let established : run0.0 ≡ ok session = ap (λ x. x.0) e in
          let (cells, frames, envelopes, f, all, circuits, s3, n', run, log) =
            send_carries r c keypair_of identity net.State net.IoError send_to sent takes rng laws
              client ready session shared message s2 n b nonempty short in
          (
            (r.fill_bytes 16 s2).0,
            cells,
            frames,
            envelopes,
            f,
            all,
            n',
            log,
            rw (established, run, send_and_receive, send_and_report) refl,
          )

      -- In external mode, when the topology is loaded and has a relay, every relay is right, every
      -- relay address gives a mailbox address, the message has 1 to `max_message_size` bytes and the
      -- network takes every frame: the run does not panic before it polls, all the cells of the
      -- message are on their way to a freshly generated recipient, over paths of `external_hop_count`
      -- relays, and the outcome is that of the poll.
      pub run_external-Polls :
          (hex : Hex) (json : Json TopologyFile) (files : Files) (overflow_checks : Bool)
          (path : Bytes) (disk : files.State) (t : Topology r c) (addrs : List Bytes) (s : r.State)
          (n : net.State)
          → load_from_file r c hex json files path disk ≡ ok t
          → 0 < Topology.len r c t
          → AreHosts r c keypair_of (Topology.all r c t)
          → mailbox_addrs r c overflow_checks (Topology.all r c t) ≡ some addrs
          → Polls
              (record { topology = t; hop_count = external_hop_count r c t })
              (Keys.generate r c s).0
              message
              addrs
              n
              (run_external r c net send_to hex json files overflow_checks path message disk s n)
      unfolding run_external Option.bind
      run_external-Polls hex json files overflow_checks path disk t addrs s n loaded some_relay
            hosted derived =
          let client : VeilClient r c = record {
            topology = t;
            hop_count = external_hop_count r c t;
          } in
          let (id, cells, frames, envelopes, f, all, n', log, run) =
            send_and_receive-Polls client addrs s n
              (external_hop_count-IsReady t some_relay hosted) in
          (id, cells, frames, envelopes, f, all, n', log, rw (loaded, derived, run_external) run)
