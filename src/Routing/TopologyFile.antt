-- ===== src/Routing/TopologyFile.antt =====
-- crates/veil-routing/src/topology_file.rs: topologies as JSON documents.
pub mod RoundTrip
use orf_veil.Prelude.{ℕ, ◌==◌, List, [], ◌∷◌, map, if◌then◌else◌, length}
use orf_veil.Prelude.Bytes.{Bytes}
use orf_veil.Prelude.Result.{Result, ok, err, ◌>>=◌, map_err, ok_or}
use orf_veil.External.Random.{Rng}
use orf_veil.External.Crypto.{Crypto}
use orf_veil.External.Text.{Hex, Json}
use orf_veil.External.Files.{Files}
use orf_veil.Routing.Topology
use orf_veil.Routing.Topology.{RelayInfo, Topology}
use Prim.Native.String.{String}

abbrev pub current_version : ℕ
current_version = 1

pub record RelayEntry : Type 0 where
  pub id : Bytes
  pub address : Bytes
  pub public_key : Bytes

pub record TopologyFile : Type 0 where
  pub version : ℕ
  pub relays : List RelayEntry

-- The errors of the file system carry the path.
pub data TopologyFileError (IoError JsonError : Type 0) : Type 0 where
  read_error : Bytes → IoError → TopologyFileError IoError JsonError
  write_error : Bytes → IoError → TopologyFileError IoError JsonError
  parse : JsonError → TopologyFileError IoError JsonError
  invalid_public_key : Bytes → String → TopologyFileError IoError JsonError
  unsupported_version : ℕ → ℕ → TopologyFileError IoError JsonError

module _ (r : Rng) (c : Crypto r) (hex : Hex) (json : Json TopologyFile) (files : Files) where
  -- The public key of an entry.
  unfoldable pub entry_key :
      RelayEntry → Result (TopologyFileError files.IoError json.Error) c.PublicKey
  entry_key entry = do
    bytes ← ok_or (invalid_public_key entry.id "not valid hex") (hex.decode entry.public_key)
    if length bytes == 32
        then ok (c.public_from_bytes bytes)
        else err (invalid_public_key entry.id "must decode to exactly 32 bytes")

  -- The loop of `from_json` over the entries.
  unfoldable pub load_entries :
      List RelayEntry
      → Topology r c
      → Result (TopologyFileError files.IoError json.Error) (Topology r c)
  unfolding entry_key
  load_entries [] topology = ok topology
  load_entries (entry ∷ entries) topology = entry_key entry >>= λ key. load_entries entries (
      Topology.add_relay r c (record { id = entry.id; address = entry.address; public_key = key })
        topology)

  -- `Topology::from_json`
  unfoldable pub from_json :
      Bytes → Result (TopologyFileError files.IoError json.Error) (Topology r c)
  unfolding load_entries
  from_json raw = do
    file ← map_err (λ e. parse e) (json.from_str raw)
    if file.version == current_version
        then load_entries file.relays (Topology.new r c)
        else err (unsupported_version file.version current_version)

  -- `Topology::to_json`
  unfoldable pub to_json : Topology r c → Bytes
  to_json topology = json.to_string_pretty (record {
    version = current_version;
    relays =
        map
          (λ x. record {
            id = x.id;
            address = x.address;
            public_key = hex.encode (c.public_as_bytes x.public_key);
          })
          (Topology.all r c topology);
  })

  -- `Topology::load_from_file`
  unfoldable pub load_from_file :
      Bytes → files.State → Result (TopologyFileError files.IoError json.Error) (Topology r c)
  unfolding from_json
  load_from_file path s = do
    raw ← map_err (λ e. read_error path e) (files.read_to_string path s)
    from_json raw

  -- `Topology::save_to_file`
  unfoldable pub save_to_file :
      Bytes
      → Topology r c
      → files.State
      → Result (TopologyFileError files.IoError json.Error) (Unit {0}) × files.State
  unfolding to_json
  save_to_file path topology s =
      let (out, s') = files.write path (to_json topology) s in
      (map_err (λ e. write_error path e) out, s')
