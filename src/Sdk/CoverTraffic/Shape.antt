-- ===== src/Sdk/CoverTraffic/Shape.antt =====
-- Cover traffic has the shape of real traffic.
use orf_veil.Prelude.{
  ℕ, ◌-◌, ◌/◌, ◌<◌, ◌≡◌, refl, List, [], ◌∷◌, ◌++◌, some, length, All, All-append,
}
use orf_veil.Prelude.Bytes.{Bytes, IsByte}
use orf_veil.Prelude.Result.{Result}
use orf_veil.External.Random.{Rng, RngLaws}
use orf_veil.External.Crypto.{Crypto, CryptoLaws}
use orf_veil.Core.Cell.{Cell}
use orf_veil.Core.Cell.Valid.{IsValid}
use orf_veil.Core.Crypto.Encryption.{encrypt_cell, decrypt_cell-encrypt_cell}
use orf_veil.Core.Crypto.Keys.{KeyPair}
use orf_veil.Routing.Circuit.{build_circuit}
use orf_veil.Routing.DummyTraffic.{DummyTrafficGenerator, next_dummy_ok}
use orf_veil.Routing.PathSelection.{select_diverse_path}
use orf_veil.Routing.Topology.{RelayInfo}
use orf_veil.Sdk.Client.{VeilClient}
use orf_veil.Sdk.Envelope.{wrap, envelope_size, unwrap-wrap}
use orf_veil.Sdk.Delivery.Travelling.{Handed, Travels, IsReady, envelope-Builds}
use orf_veil.Sdk.CoverTraffic.{
  seal_dummy, send_first, route_dummy, send_dummy, cover_round, client_cover_round,
}
use mathlib.Core.Option

module _ (r : Rng) (c : Crypto r) (rng : RngLaws r) (laws : CryptoLaws r c) where
  -- The envelope of a dummy has the size of every envelope.
  pub seal_dummy_envelope :
      (cell : Cell) (s : r.State)
      → IsValid cell
      → (envelope : Bytes) × ((seal_dummy r c cell s).0 ≡ some (some envelope))
        × (length envelope ≡ envelope_size)
        × All IsByte envelope
  unfolding seal_dummy wrap
  seal_dummy_envelope cell s v =
      let (sealed, e, n, bytes, _) =
        decrypt_cell-encrypt_cell r c rng laws (r.fill_bytes 32 s).0 cell (r.fill_bytes 32 s).1 v in
      let s2 = (encrypt_cell r c (r.fill_bytes 32 s).0 cell (r.fill_bytes 32 s).1).1 in
      let fake = c.public_from_bytes (r.fill_bytes 32 s2).0 in
      (
        wrap r c fake sealed,
        rw (e, seal_dummy) refl,
        (unwrap-wrap r c laws fake sealed n).0,
        All-append IsByte (c.public_as_bytes fake) sealed (laws.public_as_bytes-IsByte fake) bytes,
      )

  module _ (keypair_of : RelayInfo r c → KeyPair r c) (N IoError : Type 0)
      (send_to : Bytes → Bytes → N → Result IoError (Unit {0}) × N) (sent : N → List Handed)
      (takes : (addr frame : Bytes) (n : N)
        → sent (send_to addr frame n).1 ≡ sent n ++ ((addr, frame) ∷ [])) where
    send_dummy-Travels :
        (client : VeilClient r c) (cell : Cell) (s : r.State) (n : N)
        → IsReady r c keypair_of client
        → IsValid cell
        → (handed : Handed) × (envelope : Bytes) × (s' : r.State) × (n' : N) × (send_dummy r c N
              IoError send_to client.topology client.hop_count cell s n
            ≡ some (s', n'))
          × (sent n' ≡ sent n ++ (handed ∷ []))
          × Travels r c keypair_of client handed envelope
    unfolding send_dummy route_dummy send_first
    send_dummy-Travels client cell s n ready v =
        let (envelope, sealed, size, b) = seal_dummy_envelope cell s v in
        let s1 = (seal_dummy r c cell s).1 in
        let (x, xs, frame, selected, built, travels) =
          envelope-Builds r c keypair_of rng laws client ready envelope s1 size b in
        let s2 = (select_diverse_path r c client.topology client.hop_count s1).1 in
        (
          (x.address, frame),
          envelope,
          (build_circuit r c (x ∷ xs) envelope s2).1,
          (send_to x.address frame n).1,
          rw (sealed, selected, built, send_dummy, route_dummy) refl,
          takes x.address frame n,
          travels,
        )

    -- A round of the cover traffic of a client that is ready, with the span of the intervals below
    -- 2 ^ 64 milliseconds, does not panic, and hands over exactly one frame. Like a frame of `send` it
    -- goes to the first of `hop_count` relays of the topology, which peel it to an envelope of
    -- `envelope_size` bytes.
    pub cover_round-Travels :
        (client : VeilClient r c) (min_interval max_interval : ℕ) (s : r.State) (n : N)
        → IsReady r c keypair_of client
        → (max_interval - min_interval) / 1000000 < 18446744073709551616
        → (handed : Handed) × (envelope : Bytes) × (s' : r.State) × (n' : N) × (client_cover_round r
              c N IoError send_to client min_interval max_interval s n
            ≡ some (s', n'))
          × (sent n' ≡ sent n ++ (handed ∷ []))
          × Travels r c keypair_of client handed envelope
    unfolding cover_round Option.bind
    cover_round-Travels client min_interval max_interval s n ready span =
        let g : DummyTrafficGenerator = record {
          min_interval = min_interval;
          max_interval = max_interval;
        } in
        let (delay, cell, s1, e, _, _, v) = next_dummy_ok r rng g s span in
        let (handed, envelope, s', n', run, log, travels) =
          send_dummy-Travels client cell s1 n ready v in
        (handed, envelope, s', n', rw (e, cover_round) run, log, travels)
