-- ===== src/Tests/CliInputs.antt =====
-- The theorems on the command line at concrete inputs.
use orf_veil.Prelude.{
  ℕ, ◌≡◌, refl, arith, Bool, true, List, [], ◌∷◌, none, some, replicate, get_elem?,
}
use orf_veil.Prelude.Bytes.{Bytes, bytes_eq}
use orf_veil.Prelude.Map.{values, insert}
use orf_veil.Prelude.Decimal.{digits, below, parse_uint, decimal, decimal_from}
use orf_veil.Prelude.Result.{ok, err}
use orf_veil.External.Text.{Hex, Json}
use orf_veil.External.Files.{Files}
use orf_veil.Core.Crypto.Keys
use orf_veil.Routing.Topology
use orf_veil.Routing.Topology.{Topology}
use orf_veil.Routing.TopologyFile.{TopologyFile, load_from_file, from_json, load_entries, entry_key}
use orf_veil.Relay.Address.{SocketAddr, addr_text, add_u16, mailbox_addr}
use orf_veil.Sdk.Receiver.{Network}
use orf_veil.Sdk.Delivery.Fleet.{AreHosts}
use orf_veil.Sdk.Delivery.Travelling.{Handed}
use orf_veil.Cli.{topology_flag}
use orf_veil.Cli.Main.{veil_main, veil_main-run_external}
use orf_veil.Cli.Mailboxes.{
  rsplit_once, with_mailbox_port, mailbox_address_from, mailbox_address_from-addr_text,
}
use orf_veil.Cli.Modes.{mailbox_addrs, run_external, external_hop_count}
use orf_veil.Cli.Modes.Sent.{Polls, run_external-Polls}
use orf_veil.Tests.World.{rng, rng_laws, crypto, crypto_laws, key_of_bytes}
use orf_veil.Tests.RelayInputs.{relay, address_a, hosts-IsHost}
use orf_veil.Tests.DeliveryInputs.{keypair_of, send_to, message}
use mathlib.Core.Option

-- `10.0.0.1:65000`, whose mailbox port overflows.
abbrev high : SocketAddr
high = record { ip = 49 ∷ 48 ∷ 46 ∷ 48 ∷ 46 ∷ 48 ∷ 46 ∷ 49 ∷ []; port = 65000 }

mailbox_address_from-addr_text_example :
    mailbox_address_from true (addr_text high) ≡ Option.map addr_text (mailbox_addr true high)
mailbox_address_from-addr_text_example = mailbox_address_from-addr_text true high (omega arith)

-- In a debug build the overflow is a panic.
overflow_panics : mailbox_addr true high ≡ none
unfolding mailbox_addr add_u16
overflow_panics = refl

relay2_mailbox :
    mailbox_address_from true (114 ∷ 58 ∷ 57 ∷ 48 ∷ 48 ∷ 49 ∷ [])
    ≡ some (114 ∷ 58 ∷ 49 ∷ 48 ∷ 48 ∷ 48 ∷ 49 ∷ [])
unfolding mailbox_address_from rsplit_once with_mailbox_port add_u16 parse_uint below digits decimal
    decimal_from Option.bind
relay2_mailbox = refl

missing_port_panics : mailbox_address_from true (114 ∷ []) ≡ none
unfolding mailbox_address_from rsplit_once Option.bind
missing_port_panics = refl

-- A file with one relay, whatever is read, and codes that say the same.
abbrev hex : Hex
hex = record { encode = λ b. b; decode = λ text. some (replicate 32 1) }

abbrev json : Json TopologyFile
json = record {
  Error = Bool;
  from_str = λ text. ok (record {
    version = 1;
    relays = record { id = 1 ∷ []; address = address_a; public_key = [] } ∷ [];
  });
  to_string_pretty = λ file. [];
}

abbrev files : Files
files = record {
  State = ℕ;
  IoError = Bool;
  read_to_string = λ path s. ok [];
  write = λ path text s. (err true, s);
}

abbrev loaded : Topology rng crypto
loaded = record { relays = (1 ∷ [], relay 1 address_a true) ∷ [] }

file_loaded : load_from_file rng crypto hex json files [] 0 ≡ ok loaded
unfolding load_from_file from_json load_entries entry_key Topology.add_relay insert key_of_bytes
    replicate
file_loaded = refl

loaded-AreHosts : AreHosts rng crypto keypair_of (Topology.all rng crypto loaded)
unfolding values
loaded-AreHosts = (hosts-IsHost.0, tt)

abbrev network : Network
network = record { State = List Handed; IoError = Bool; pull = λ addr n. (ok [], n) }

-- `10.0.0.1:10000`
abbrev mailboxes : List Bytes
mailboxes = (49 ∷ 48 ∷ 46 ∷ 48 ∷ 46 ∷ 48 ∷ 46 ∷ 49 ∷ 58 ∷ 49 ∷ 48 ∷ 48 ∷ 48 ∷ 48 ∷ []) ∷ []

mailboxes_derived : mailbox_addrs rng crypto true (Topology.all rng crypto loaded) ≡ some mailboxes
unfolding values mailbox_addrs mailbox_address_from rsplit_once with_mailbox_port add_u16 parse_uint
    below digits decimal decimal_from Option.bind
mailboxes_derived = refl

run_external-Polls_example :
    Polls rng crypto keypair_of rng_laws crypto_laws network send_to
      (λ n. n)
      (λ addr frame n. (refl, refl))
      (record { topology = loaded; hop_count = external_hop_count rng crypto loaded })
      (Keys.generate rng crypto 3).0
      message
      mailboxes
      []
      (run_external rng crypto network send_to hex json files true [] message 0 3 [])
run_external-Polls_example =
    run_external-Polls rng crypto keypair_of rng_laws crypto_laws network send_to (λ n. n)
      (λ addr frame n. (refl, refl)) message (omega arith, (omega arith, tt)) (omega arith)
      (omega arith) hex json files true [] 0 loaded mailboxes 3 [] file_loaded (omega arith)
      loaded-AreHosts mailboxes_derived

-- The message `a` before the flag, and another argument behind the path `t`.
veil_main-run_external_example :
    veil_main rng crypto network send_to hex json files true
      ((97 ∷ []) ∷ topology_flag ∷ (116 ∷ []) ∷ (98 ∷ []) ∷ [])
      0
      3
      []
    ≡ run_external rng crypto network send_to hex json files true (116 ∷ []) (97 ∷ []) 0 3 []
unfolding get_elem? bytes_eq
veil_main-run_external_example =
    veil_main-run_external rng crypto network send_to hex json files true ((97 ∷ []) ∷ [])
      ((98 ∷ []) ∷ []) (116 ∷ []) 0 3 [] (refl, tt)
