-- ===== src/Tests/RelayInputs.antt =====
-- The theorems on onion layers, circuits and path selection at concrete inputs.
use orf_veil.Prelude.{
  ℕ, ◌+◌, ◌≡◌, refl, arith, Bool, true, false, List, [], ◌∷◌, ◌++◌, some, length, All, take, drop,
}
use orf_veil.Prelude.Bytes.{Bytes, IsByte}
use orf_veil.Prelude.Map.{values}
use orf_veil.Prelude.Utf8.{is_utf8}
use orf_veil.Prelude.Result.{ok}
use orf_veil.Core.Crypto.Keys.{KeyPair}
use orf_veil.Relay.Forwarding.{
  OnionPayload, forward, encode_payload, decode_payload, decode_forward, build_onion_layer,
  peel_onion_layer,
}
use orf_veil.Relay.Forwarding.Payload.{
  IsEncodable, decode_payload-encode_payload, encode_payload-decode_payload,
}
use orf_veil.Relay.Forwarding.Layer.{peel_onion_layer-build_onion_layer}
use orf_veil.Routing.Topology
use orf_veil.Routing.Topology.{RelayInfo, Topology, get-add_relay}
use orf_veil.Routing.Circuit.{build_circuit}
use orf_veil.Routing.Circuit.Peeling.{Host, IsHost, Carries, infos, build_circuit-Reaches}
use orf_veil.Routing.PathSelection.{select_diverse_path}
use orf_veil.Routing.PathSelection.Diverse.{subnets, AllNew, IsCovered, select_diverse_path_ok}
use orf_veil.Tests.World.{rng, rng_laws, crypto, crypto_laws}
use orf_veil.Routing.DummyTraffic.{DummyTrafficGenerator, next_dummy, next_dummy_ok}
use orf_veil.Core.Cell.{Cell}
use orf_veil.Core.Cell.Valid.{IsValid}
use orf_veil.Prelude.{◌≤◌, ◌<◌, max}
use mathlib.Core.List.{Perm}

-- `10.0.0.1:9000`, `10.0.0.2:9000` and `10.0.1.1:9000`: the first two share a subnet.
abbrev pub address_a : Bytes
address_a = 49 ∷ 48 ∷ 46 ∷ 48 ∷ 46 ∷ 48 ∷ 46 ∷ 49 ∷ 58 ∷ 57 ∷ 48 ∷ 48 ∷ 48 ∷ []

abbrev pub address_b : Bytes
address_b = 49 ∷ 48 ∷ 46 ∷ 48 ∷ 46 ∷ 48 ∷ 46 ∷ 50 ∷ 58 ∷ 57 ∷ 48 ∷ 48 ∷ 48 ∷ []

abbrev pub address_c : Bytes
address_c = 49 ∷ 48 ∷ 46 ∷ 48 ∷ 46 ∷ 49 ∷ 46 ∷ 49 ∷ 58 ∷ 57 ∷ 48 ∷ 48 ∷ 48 ∷ []

abbrev pub keys : Bool → KeyPair rng crypto
keys b = record { secret = b; public = b }

abbrev pub relay : ℕ → Bytes → Bool → RelayInfo rng crypto
relay n address key = record { id = n ∷ []; address = address; public_key = key }

abbrev body : Bytes
body = 104 ∷ 105 ∷ []

abbrev to_b : OnionPayload
to_b = forward address_b body

address-IsByte :
    (d e : ℕ)
    → IsByte d
    → IsByte e
    → All IsByte (49 ∷ 48 ∷ 46 ∷ 48 ∷ 46 ∷ d ∷ 46 ∷ e ∷ 58 ∷ 57 ∷ 48 ∷ 48 ∷ 48 ∷ [])
address-IsByte d e hd he = (
  omega arith,
  (
    omega arith,
    (
      omega arith,
      (
        omega arith,
        (
          omega arith,
          (
            hd,
            (
              omega arith,
              (he, (omega arith, (omega arith, (omega arith, (omega arith, (omega arith, tt)))))),
            ),
          ),
        ),
      ),
    ),
  ),
)

body-IsByte : All IsByte body
body-IsByte = (omega arith, (omega arith, tt))

is_utf8-address_a : is_utf8 address_a ≡ true
unfolding is_utf8
is_utf8-address_a = refl

is_utf8-address_b : is_utf8 address_b ≡ true
unfolding is_utf8
is_utf8-address_b = refl

is_utf8-address_c : is_utf8 address_c ≡ true
unfolding is_utf8
is_utf8-address_c = refl

to_b-IsEncodable : IsEncodable to_b
to_b-IsEncodable =
    (is_utf8-address_b, omega arith, address-IsByte 48 50 (omega arith) (omega arith), body-IsByte)

decode_payload-encode_payload_example : decode_payload (encode_payload to_b) ≡ ok to_b
decode_payload-encode_payload_example = decode_payload-encode_payload to_b to_b-IsEncodable

-- A `Forward` to the host `a` with an empty body.
abbrev received : Bytes
received = 0 ∷ 0 ∷ 1 ∷ 97 ∷ []

decode-received : decode_payload received ≡ ok (forward (97 ∷ []) [])
unfolding decode_payload is_utf8 decode_forward take drop
decode-received = refl

encode_payload-decode_payload_example :
    (encode_payload (forward (97 ∷ []) []) ≡ received) × IsEncodable (forward (97 ∷ []) [])
encode_payload-decode_payload_example =
    encode_payload-decode_payload received (forward (97 ∷ []) [])
      (omega arith, (omega arith, (omega arith, (omega arith, tt)))) decode-received

length-encode-to_b : length (encode_payload to_b) ≡ 18
unfolding encode_payload
length-encode-to_b = refl

peel_onion_layer-build_onion_layer_example :
    (frame : Bytes) × ((build_onion_layer rng crypto true to_b 8).0 ≡ ok frame)
    × (peel_onion_layer rng crypto (keys true) frame ≡ ok to_b)
    × (length frame ≡ length (encode_payload to_b) + 60)
    × All IsByte frame
peel_onion_layer-build_onion_layer_example =
    peel_onion_layer-build_onion_layer rng crypto rng_laws crypto_laws (keys true) refl to_b 8
      to_b-IsEncodable (omega (arith, length-encode-to_b))

abbrev pub host : ℕ → Bytes → Bool → Host rng crypto
host n address key = record { info = relay n address key; keypair = keys key }

abbrev pub hosts : List (Host rng crypto)
hosts = host 1 address_a true ∷ host 2 address_b false ∷ host 3 address_c true ∷ []

pub hosts-IsHost : All (IsHost rng crypto) hosts
hosts-IsHost = (
  record {
    pair = refl;
    published = refl;
    text = is_utf8-address_a;
    fits = omega arith;
    bytes = address-IsByte 48 49 (omega arith) (omega arith);
  },
  (
    record {
      pair = refl;
      published = refl;
      text = is_utf8-address_b;
      fits = omega arith;
      bytes = address-IsByte 48 50 (omega arith) (omega arith);
    },
    (
      record {
        pair = refl;
        published = refl;
        text = is_utf8-address_c;
        fits = omega arith;
        bytes = address-IsByte 49 49 (omega arith) (omega arith);
      },
      tt,
    ),
  ),
)

build_circuit-Reaches_example :
    Carries rng crypto body hosts 196802 (build_circuit rng crypto (infos rng crypto hosts) body 1)
build_circuit-Reaches_example =
    build_circuit-Reaches rng crypto rng_laws crypto_laws body hosts 1 (omega arith) hosts-IsHost
      body-IsByte (omega arith)

abbrev pub topology : Topology rng crypto
topology = record {
  relays =
      (1 ∷ [], relay 1 address_a true)
      ∷ (2 ∷ [], relay 2 address_b false)
      ∷ (3 ∷ [], relay 3 address_c true)
      ∷ [];
}

select_diverse_path_ok_example :
    (diverse leftover : List (RelayInfo rng crypto)) × ((select_diverse_path rng crypto topology 3
        5).0
      ≡ ok (take 3 (diverse ++ leftover)))
    × (length (take 3 (diverse ++ leftover)) ≡ 3)
    × Perm (diverse ++ leftover) (Topology.all rng crypto topology)
    × AllNew rng crypto [] (subnets rng crypto diverse)
    × All (IsCovered rng crypto (subnets rng crypto diverse)) leftover
unfolding values
select_diverse_path_ok_example =
    select_diverse_path_ok rng crypto rng_laws topology 3 5 (omega arith)

-- Between 10 and 20 milliseconds.
abbrev generator : DummyTrafficGenerator
generator = record { min_interval = 10000000; max_interval = 20000000 }

next_dummy_ok_example :
    (delay : ℕ) × (cell : Cell) × (s' : ℕ) × (next_dummy rng generator 7 ≡ some ((delay, cell), s'))
    × (10000000 ≤ delay)
    × (delay < max 20000000 10000001)
    × IsValid cell
next_dummy_ok_example = next_dummy_ok rng rng_laws generator 7 (omega arith)
