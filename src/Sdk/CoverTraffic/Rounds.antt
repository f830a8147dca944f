-- ===== src/Sdk/CoverTraffic/Rounds.antt =====
-- The task of cover traffic over all its rounds.
use orf_veil.Prelude.{
  ℕ, zero, suc, ◌-◌, ◌/◌, ◌<◌, ◌≡◌, refl, ap, sym, ◌∙◌, List, [], ◌∷◌, ◌++◌, some, length, All,
}
use orf_veil.Prelude.Bytes.{Bytes}
use orf_veil.Prelude.Result.{Result}
use orf_veil.External.Random.{Rng, RngLaws}
use orf_veil.External.Crypto.{Crypto, CryptoLaws}
use orf_veil.Core.Crypto.Keys.{KeyPair}
use orf_veil.Routing.Topology.{RelayInfo}
use orf_veil.Sdk.Client.{VeilClient}
use orf_veil.Sdk.Delivery.Travelling.{Handed, Travels, IsReady}
use orf_veil.Sdk.CoverTraffic.{cover_rounds, spawn}
use orf_veil.Sdk.CoverTraffic.Shape.{cover_round-Travels}
use mathlib.Core.List.{append_assoc, append-nil}
use mathlib.Core.Option

module _ (r : Rng) (c : Crypto r) (rng : RngLaws r) (laws : CryptoLaws r c)
    (keypair_of : RelayInfo r c → KeyPair r c) (N IoError : Type 0)
    (send_to : Bytes → Bytes → N → Result IoError (Unit {0}) × N) (sent : N → List Handed)
    (takes : (addr frame : Bytes) (n : N)
      → sent (send_to addr frame n).1 ≡ sent n ++ ((addr, frame) ∷ []))
    (client : VeilClient r c) (ready : IsReady r c keypair_of client)
    (min_interval max_interval : ℕ)
    (span : (max_interval - min_interval) / 1000000 < 18446744073709551616) where
  -- Every frame travels like one of `send`.
  abbrev pub AllTravel : List Handed → Type 0
  AllTravel = All (λ h. (envelope : Bytes) × Travels r c keypair_of client h envelope)

  -- The task of a client that is ready, with the span of the intervals below 2 ^ 64 milliseconds, does
  -- not panic in any number of rounds. Over a network that keeps every frame that it is handed it has
  -- then handed over exactly as many frames as it ran rounds; like the frames of `send` each goes to the
  -- first of `hop_count` relays of the topology, which peel it to an envelope of `envelope_size` bytes.
  pub spawn-AllTravel :
      (rounds : ℕ) (s : r.State) (n : N)
      → (frames : List Handed) × (s' : r.State) × (n' : N) × (spawn r c N IoError send_to rounds
            client.topology client.hop_count min_interval max_interval s n
          ≡ some (s', n'))
        × (sent n' ≡ sent n ++ frames)
        × (length frames ≡ rounds)
        × AllTravel frames
  unfolding spawn cover_rounds Option.bind
  spawn-AllTravel zero s n = ([], s, n, refl, sym (append-nil (sent n)), refl, tt)
  spawn-AllTravel (suc rounds) s n =
      let (handed, envelope, s1, n1, run, log, travels) =
        cover_round-Travels r c rng laws keypair_of N IoError send_to sent takes client min_interval
          max_interval s n ready span in
      let (frames, s2, n2, more, logs, count, all) = spawn-AllTravel rounds s1 n1 in
      (
        handed ∷ frames,
        s2,
        n2,
        rw (run, cover_rounds) more,
        logs ∙ ap (λ l. l ++ frames) log ∙ append_assoc (sent n) (handed ∷ []) frames,
        ap suc count,
        ((envelope, travels), all),
      )
