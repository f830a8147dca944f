-- ===== src/Sdk/Delivery/Concurrent.antt =====
-- From `send` to `poll` over relays that take turns in any order, next to the traffic of others.
use orf_veil.Prelude.{
  ℕ, ◌+◌, ◌*◌, ◌≤◌, ◌<◌, ◌≡◌, refl, ap, sym, ◌∙◌, arith, true, List, [], ◌∷◌, ◌++◌, none, some, map,
  length, drop, drop-append_length, All, All-front,
}
use orf_veil.Prelude.Bytes.{Bytes, IsByte}
use orf_veil.Prelude.Map.{lookup}
use orf_veil.Prelude.Perms.{All-perm}
use orf_veil.Prelude.Result.{Result, ok}
use orf_veil.External.Random.{Rng, RngLaws}
use orf_veil.External.Crypto.{Crypto, CryptoLaws}
use orf_veil.Core.Cell.{Cell, MessageId}
use orf_veil.Core.Crypto.Keys.{KeyPair}
use orf_veil.Core.Fragmentation.{max_message_size}
use orf_veil.Core.Fragmentation.Laws.{IsFragmentation}
use orf_veil.Core.Reassembly.Invariant
use orf_veil.Relay.Node.{Dialer}
use orf_veil.Relay.Node.Hop.{Works}
use orf_veil.Routing.Circuit.Peeling.{Reaches}
use orf_veil.Routing.Topology
use orf_veil.Routing.Topology.{RelayInfo}
use orf_veil.Sdk.Session.{Session, IsSharedWith}
use orf_veil.Sdk.Client.{VeilClient, ClientError, SentCircuit, send}
use orf_veil.Sdk.Receiver.{Network, Receiver, receive, poll}
use orf_veil.Sdk.Receiver.Polling.{Includes}
use orf_veil.Sdk.Delivery.Fleet.{host}
use orf_veil.Sdk.Delivery.Travelling.{Handed, StartsAt, IsReady}
use orf_veil.Sdk.Delivery.Sending.{Carried, AllCarried, carry, send_carries}
use orf_veil.Sdk.Delivery.Sending
use orf_veil.Sdk.Delivery.Arrival.{IsForeign}
use orf_veil.Sdk.Delivery.EndToEnd.{Pulled, poll-send}
use orf_veil.Sdk.Delivery.Fabric.{Fabric, kept, joined, FabricRun}
use orf_veil.Sdk.Delivery.Fabric.Owed.{serves, keypair_of, OnItsWay, Owed, Owed-append}
use orf_veil.Sdk.Delivery.Fabric.Runs.{IsFlowing, FabricRun-delivers}
use mathlib.Core.Bool.{Bool-set}
use mathlib.Core.List.{Perm, Permᴰ, append_assoc}
use mathlib.Core.List.Perm
use mathlib.Core.List.Permᴰ
use mathlib.Core.Path.{subst}

module _ (r : Rng) (c : Crypto r) (keypair_at : Bytes → KeyPair r c) (addrs : List Bytes)
    (client : VeilClient r c) where
  -- A relay runs at the address of every entry of the topology.
  abbrev pub AllServed : Type 0
  AllServed = All (λ x. serves addrs x.address ≡ true) (Topology.all r c client.topology)

  module _ (all_served : AllServed) where
    path-OnItsWay :
        (handed : Handed) (envelope : Bytes) (path rest : List (RelayInfo r c))
        → Perm (path ++ rest) (Topology.all r c client.topology)
        → length path ≡ client.hop_count
        → StartsAt r c (keypair_of r c keypair_at) handed.0 path
        → Reaches r c envelope (map (host r c (keypair_of r c keypair_at)) path) handed.1
        → OnItsWay r c keypair_at addrs envelope handed client.hop_count
    path-OnItsWay handed envelope [] rest p l first reaches = elim first [ ]
    path-OnItsWay handed envelope (x ∷ xs) rest p l first reaches = record {
      first = x;
      others = xs;
      goes_to = first;
      hops_left = sym l;
      running =
          All-front (λ y. serves addrs y.address ≡ true) (x ∷ xs) rest
            (All-perm (λ y. Bool-set (serves addrs y.address) true) (Perm.symm p) all_served);
      reaches = reaches;
    }

    module _ (identity : KeyPair r c) where
      -- The frames that carry cells are on their way as the envelopes.
      pub AllCarried-Owed :
          {cells : List Cell} {frames : List Handed} {envelopes : List Bytes}
          → AllCarried r c (keypair_of r c keypair_at) identity client cells frames envelopes
          → Owed r c keypair_at addrs frames envelopes (client.hop_count * length frames)
      AllCarried-Owed Sending.done = omega arith
      AllCarried-Owed (carry {h = h} {e = e} {frames = frames} carried rest) = (
        client.hop_count,
        client.hop_count * length frames,
        omega arith,
        let t = carried.travels in
            path-OnItsWay h e t.path t.rest t.chosen t.hops t.first t.reaches,
        AllCarried-Owed rest,
      )

module _ (r : Rng) (c : Crypto r) (receiver : Receiver r c) where
  -- The poll returns the message, and the receiver stays valid and has no entry for the id.
  abbrev pub PollGives : (net : Network) → List Bytes → net.State → MessageId → Bytes → Type 0
  PollGives net boxes m id message =
      (completed : List Bytes) × (receiver' : Receiver r c) × (poll r c net receiver boxes m
        ≡ some ((ok completed, receiver'), (receive r c net receiver.identity boxes m).1))
      × Includes r c completed message
      × Invariant.IsValid receiver'.reassembler
      × (lookup id receiver'.reassembler.in_flight ≡ none)

module _ (r : Rng) (c : Crypto r) (rng : RngLaws r) (laws : CryptoLaws r c) (d : Dialer)
    (w : Works d) (keypair_at : Bytes → KeyPair r c) (addrs : List Bytes) where
  pub joined-IsFlowing :
      (f : Fabric d) (theirs : List Bytes) (hops : ℕ) (frames : List Handed)
      (envelopes : List Bytes) (more : ℕ)
      → IsFlowing d w r c keypair_at addrs f theirs hops
      → Owed r c keypair_at addrs frames envelopes more
      → IsFlowing d w r c keypair_at addrs (joined d f frames) (theirs ++ envelopes) (hops + more)
  joined-IsFlowing f theirs hops frames envelopes more flow owed = record {
    owed =
        Owed-append r c keypair_at addrs f.in_flight frames theirs envelopes hops more flow.owed
          owed;
    pooled = flow.pooled;
    running = flow.running;
  }

  arrived_behind :
      (arrived all old theirs envelopes : List Bytes)
      → Permᴰ arrived all
      → Permᴰ all (old ++ (theirs ++ envelopes))
      → Permᴰ arrived (envelopes ++ (old ++ theirs))
  arrived_behind arrived all old theirs envelopes p q = Permᴰ.trans p (
      Permᴰ.trans q (
        subst (λ l. Permᴰ l (envelopes ++ (old ++ theirs))) (append_assoc old theirs envelopes)
          (Permᴰ.append_comm (old ++ theirs) envelopes)))

  module _ (client : VeilClient r c) (ready : IsReady r c (keypair_of r c keypair_at) client)
      (all_served : AllServed r c keypair_at addrs client) (receiver : Receiver r c)
      (session : Session r c) (shared : IsSharedWith r c receiver.identity session) where
    module _ (f : Fabric d) (theirs : List Bytes) (hops : ℕ)
        (flow : IsFlowing d w r c keypair_at addrs f theirs hops) (net : Network)
        (boxes arrived : List Bytes) (m : net.State) (id : MessageId) (message : Bytes)
        (pulls : Pulled net boxes m arrived)
        (foreign : All (IsForeign r c receiver.identity id) (kept d f.relays ++ theirs))
        (valid : Invariant.IsValid receiver.reassembler)
        (absent : lookup id receiver.reassembler.in_flight ≡ none) where
      poll-FabricRun :
          {k : ℕ} {g : Fabric d} (cells : List Cell) (frames : List Handed) (envelopes : List Bytes)
          → IsFragmentation id message cells
          → AllCarried r c
              (keypair_of r c keypair_at)
              receiver.identity
              client
              cells
              frames
              envelopes
          → FabricRun d w r c keypair_at k (joined d f frames) g
          → g.in_flight ≡ []
          → Permᴰ arrived (kept d g.relays)
          → (k ≡ hops + client.hop_count * length frames)
            × PollGives r c receiver net boxes m id message
      poll-FabricRun {g = g} cells frames envelopes fragmented all run quiet held =
          let (steps, p) =
            FabricRun-delivers d w r c keypair_at addrs (theirs ++ envelopes)
              (hops + client.hop_count * length frames) run
              (joined-IsFlowing f theirs hops frames envelopes _ flow
                (AllCarried-Owed r c keypair_at addrs client all_served receiver.identity all))
              quiet in
          (
            steps,
            poll-send r c (keypair_of r c keypair_at) client receiver rng laws net boxes m id
                message cells frames envelopes (kept d f.relays ++ theirs) arrived fragmented all
                pulls
                (arrived_behind arrived (kept d g.relays) (kept d f.relays) theirs envelopes held p)
                foreign valid absent,
          )

    module _ (N IoError : Type 0) (send_to : Bytes → Bytes → N → Result IoError (Unit {0}) × N)
        (sent : N → List Handed)
        (takes : (addr frame : Bytes) (n : N)
          → ((send_to addr frame n).0 ≡ ok tt)
            × (sent (send_to addr frame n).1 ≡ sent n ++ ((addr, frame) ∷ []))) where
      -- A message of 1 to `max_message_size` bytes is sent by a client that is ready, in a session that
      -- is shared with the recipient, while the frames of others are on their way. Relays run with the
      -- keys of their entries at all addresses of the topology, over a network that works, and handle
      -- the frames in any order, until none is in flight. When the mailboxes that are polled then hold
      -- what the relays kept, in any order, and all that the relays had or owed to others is foreign to
      -- the id that was drawn, then `send` had ended well, every hop was taken exactly once, and `poll`
      -- returns the message.
      pub poll-FabricRun-send :
          {k : ℕ} {g : Fabric d} (message : Bytes) (s s' : r.State) (n n' : N)
          (out : Result (ClientError IoError) (List SentCircuit)) (f : Fabric d)
          (theirs : List Bytes) (hops : ℕ) (net : Network) (boxes arrived : List Bytes)
          (m : net.State)
          → All IsByte message
          → 0 < length message
          → length message ≤ max_message_size
          → send r c N IoError send_to client session message s n ≡ some (out, (s', n'))
          → IsFlowing d w r c keypair_at addrs f theirs hops
          → FabricRun d w r c keypair_at k (joined d f (drop (length (sent n)) (sent n'))) g
          → g.in_flight ≡ []
          → Pulled net boxes m arrived
          → Permᴰ arrived (kept d g.relays)
          → All (IsForeign r c receiver.identity (r.fill_bytes 16 s).0) (kept d f.relays ++ theirs)
          → Invariant.IsValid receiver.reassembler
          → lookup (r.fill_bytes 16 s).0 receiver.reassembler.in_flight ≡ none
          → (circuits : List SentCircuit) × (out ≡ ok circuits)
            × (k ≡ hops + client.hop_count * length (drop (length (sent n)) (sent n')))
            × PollGives r c receiver net boxes m (r.fill_bytes 16 s).0 message
      poll-FabricRun-send {k} {g} message s s' n n' out f theirs hops net boxes arrived m b nonempty
            short ran flow run quiet pulls held foreign valid absent =
          let (cells, frames, envelopes, fragmented, all, circuits, s1, n1, e, log) =
            send_carries r c (keypair_of r c keypair_at) receiver.identity N IoError send_to sent
              takes rng laws client ready session shared message s n b nonempty short in
          let well : out ≡ ok circuits = cc in
          let same : n' ≡ n1 = cc in
          let fresh : drop (length (sent n)) (sent n') ≡ frames =
            ap (λ x. drop (length (sent n)) (sent x)) same
            ∙ ap (drop (length (sent n))) log
            ∙ drop-append_length (length (sent n)) (sent n) frames refl in
          let (steps, gives) =
            poll-FabricRun f theirs hops flow net boxes arrived m (r.fill_bytes 16 s).0 message
              pulls foreign valid absent cells frames envelopes fragmented all
              (subst (λ l. FabricRun d w r c keypair_at k (joined d f l) g) fresh run) quiet held in
          (circuits, well, steps ∙ ap (λ l. hops + client.hop_count * length l) (sym fresh), gives)
