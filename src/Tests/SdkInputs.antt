-- ===== src/Tests/SdkInputs.antt =====
-- The theorems on envelopes, sessions and polling at concrete inputs.
use orf_veil.Prelude.{All}
use orf_veil.Prelude.{
  ℕ, suc, ◌≡◌, refl, arith, Bool, true, List, [], ◌∷◌, some, length, length-replicate,
  All-replicate, replicate,
}
use orf_veil.Prelude.Bytes.{Bytes, IsByte}
use orf_veil.Prelude.Result.{Result, ok, err}
use orf_veil.Core.Cell.{Cell, MessageId}
use orf_veil.Core.Cell.Valid
use orf_veil.Core.Cell.Valid.{built_cell, built_cell-IsValid, real_payload-built_cell}
use orf_veil.Core.Reassembly.{new}
use orf_veil.Core.Reassembly.Invariant
use orf_veil.Core.Crypto.Keys
use orf_veil.Core.Crypto.Keys.{KeyPair}
use orf_veil.Sdk.Envelope.{wrong_length, envelope_size, unwrap, unwrap_err}
use orf_veil.Sdk.Session.{Session, establish, IsSharedWith, establish-IsSharedWith}
use orf_veil.Sdk.Client.{seal_cell, VeilClient, ClientError, SentCircuit, send}
use orf_veil.Sdk.Client.Total.{send_total}
use orf_veil.Sdk.Receiver.{
  Network, ReceiveError, Receiver, new_receiver, open_envelope, receive, poll,
}
use orf_veil.Sdk.Receiver.Opening.{open_envelope-seal_cell}
use orf_veil.Sdk.Receiver.Polling.{poll-IsValid}
use orf_veil.Tests.World.{rng, rng_laws, crypto, crypto_laws}

abbrev identity : KeyPair rng crypto
identity = record { secret = true; public = true }

unwrap_err_example : unwrap rng crypto (1 ∷ []) ≡ some (err (wrong_length 572 1))
unwrap_err_example = unwrap_err rng crypto (1 ∷ []) (λ e. omega arith)

establish-IsSharedWith_example :
    (session : Session rng crypto) × (establish rng crypto true 4
      ≡ (ok session, (Keys.generate rng crypto 4).1))
    × (session.keypair ≡ (Keys.generate rng crypto 4).0)
    × IsSharedWith rng crypto identity session
establish-IsSharedWith_example = establish-IsSharedWith rng crypto crypto_laws identity 4 refl

abbrev session : Session rng crypto
session = establish-IsSharedWith_example.0

abbrev id : MessageId
id = replicate 16 1

abbrev cell : Cell
cell = built_cell id 0 1 (9 ∷ [])

cell-IsValid : Valid.IsValid cell
cell-IsValid =
    built_cell-IsValid id 0 1 (9 ∷ [])
      (record {
        id_length = length-replicate 16 1;
        id_bytes = All-replicate IsByte 16 1 (omega arith);
        total_fits = omega arith;
        bytes_fit = (omega arith, tt);
      })
      (omega arith) (omega arith)

sealed_cell :
    (raw : Bytes) × ((seal_cell rng crypto session cell 2).0 ≡ some (ok raw))
    × (length raw ≡ envelope_size)
    × (open_envelope rng crypto identity raw ≡ some (some cell))
    × All IsByte raw
sealed_cell =
    open_envelope-seal_cell rng crypto rng_laws crypto_laws identity session cell 2
      establish-IsSharedWith_example.3 cell-IsValid

abbrev raw_envelope : Bytes
raw_envelope = sealed_cell.0

-- Every mailbox holds the envelope; the state counts the calls.
abbrev network : Network
network = record { State = ℕ; IoError = Bool; pull = λ addr n. (ok (raw_envelope ∷ []), suc n) }

abbrev receiver : Receiver rng crypto
receiver = new_receiver rng crypto identity

new-IsValid : Invariant.IsValid new
new-IsValid = record { unique = tt; pending = tt }

poll-IsValid_example :
    (out : Result (ReceiveError network) (List Bytes)) × (receiver' : Receiver rng crypto) × (poll
        rng crypto network receiver
        ((49 ∷ []) ∷ [])
        0
      ≡ some ((out, receiver'), (receive rng crypto network identity ((49 ∷ []) ∷ []) 0).1))
    × Invariant.IsValid receiver'.reassembler
    × (receiver'.identity ≡ identity)
poll-IsValid_example =
    poll-IsValid rng crypto rng_laws crypto_laws network receiver ((49 ∷ []) ∷ []) 0 new-IsValid

-- One relay and one hop, and a network that takes everything.
abbrev client : VeilClient rng crypto
client = record {
  topology = record {
    relays = (97 ∷ [], record { id = 97 ∷ []; address = 98 ∷ []; public_key = true }) ∷ [];
  };
  hop_count = 1;
}

abbrev send_to : Bytes → Bytes → ℕ → Result Bool (Unit {0}) × ℕ
send_to addr onion n = (ok tt, suc n)

send_total_example :
    (out : Result (ClientError Bool) (List SentCircuit) × (ℕ × ℕ)) × (send rng crypto ℕ Bool send_to
        client session
        (104 ∷ 105 ∷ [])
        3
        0
      ≡ some out)
send_total_example =
    send_total rng crypto ℕ Bool send_to rng_laws crypto_laws client session (104 ∷ 105 ∷ []) 3 0
      (omega arith, (omega arith, tt))
