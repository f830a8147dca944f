-- ===== src/Tests/TextInputs.antt =====
-- The theorems on keys and topologies as text at concrete inputs: a hexadecimal code with the digits
-- `a` to `p`, documents as length-prefixed texts, and files as a dictionary.
use orf_veil.Prelude.{
  ℕ, zero, suc, ◌+◌, ◌*◌, ◌-◌, ◌/◌, ◌%◌, ◌≡◌, refl, ap, arith, true, List, [], ◌∷◌, ◌++◌, Option,
  some, none, length, All, take, drop, take-append_length, drop-append_length,
}
use orf_veil.Prelude.Bytes.{Bytes, IsByte, bytes_eq, bytes_eq_refl}
use orf_veil.Prelude.Map.{Map, lookup, insert, lookup-insert}
use orf_veil.Prelude.Trim.{IsPlain}
use orf_veil.Prelude.Result.{Result, ok, err, ok_or}
use orf_veil.External.Text.{Hex, HexLaws, Json, JsonLaws}
use orf_veil.External.Files.{Files, FilesLaws}
use orf_veil.Core.Crypto.Keys.Text.{to_hex}
use orf_veil.Relay.Config.{RelayConfig}
use orf_veil.Routing.Topology
use orf_veil.Routing.Topology.{RelayInfo, Topology}
use orf_veil.Routing.TopologyFile.{RelayEntry, TopologyFile, load_from_file, save_to_file}
use orf_veil.Routing.TopologyFile.RoundTrip.{IsKeyed, load_from_file-save_to_file}
use orf_veil.Tests.World.{rng, crypto, crypto_laws}
use orf_veil.Tests.RelayInputs.{topology, keys}
use mathlib.Core.Option

unfoldable pub encode : Bytes → Bytes
encode [] = []
encode (b ∷ bs) = (97 + (b / 16) % 16) ∷ (97 + b % 16) ∷ encode bs

unfoldable pub decode : Bytes → Option Bytes
decode [] = some []
decode (d ∷ []) = none
decode (d ∷ e ∷ ds) = Option.map (λ bs. ((d - 97) * 16 + (e - 97)) ∷ bs) (decode ds)

encode-IsPlain : (b : Bytes) → All IsByte b → All IsPlain (encode b)
unfolding encode
encode-IsPlain [] h = tt
encode-IsPlain (b ∷ bs) h =
    ((omega arith, omega arith), ((omega arith, omega arith), encode-IsPlain bs h.1))

decode-encode : (b : Bytes) → All IsByte b → decode (encode b) ≡ some b
unfolding encode decode
decode-encode [] h = refl
decode-encode (b ∷ bs) h =
    let e : (97 + (b / 16) % 16 - 97) * 16 + (97 + b % 16 - 97) ≡ b = omega (arith, h.0) in
    rw (decode-encode bs h.1, e) refl

abbrev pub hex : Hex
hex = record { encode = encode; decode = decode }

pub hex_laws : HexLaws hex
hex_laws = record { encode-IsPlain = encode-IsPlain; decode-encode = decode-encode }

abbrev pub config : RelayConfig
config = record {
  listen_addr = record { ip = 49 ∷ []; port = 9000 };
  relay_id = 97 ∷ [];
  static_secret_hex = some (to_hex rng crypto hex (keys true));
  max_connections = 256;
}

-- A text behind its length.
abbrev pub put : Bytes → Bytes → Bytes
put x rest = length x ∷ (x ++ rest)

unfoldable pub cut : Bytes → Bytes × Bytes
cut [] = ([], [])
cut (n ∷ rest) = (take n rest, drop n rest)

cut-put : (x rest : Bytes) → cut (put x rest) ≡ (x, rest)
unfolding cut
cut-put x rest =
    rw (take-append_length (length x) x rest refl, drop-append_length (length x) x rest refl) refl

unfoldable pub print_entries : List RelayEntry → Bytes
print_entries [] = []
print_entries (e ∷ es) = put e.id (put e.address (put e.public_key (print_entries es)))

unfoldable pub parse_entries : ℕ → Bytes → List RelayEntry
parse_entries zero text = []
parse_entries (suc n) text =
    let (id, text1) = cut text in
    let (address, text2) = cut text1 in
    let (key, text3) = cut text2 in
    record { id = id; address = address; public_key = key } ∷ parse_entries n text3

parse_entries-print_entries :
    (es : List RelayEntry) → parse_entries (length es) (print_entries es) ≡ es
unfolding parse_entries print_entries
parse_entries-print_entries [] = refl
parse_entries-print_entries (e ∷ es) =
    rw
      (
        cut-put e.id (put e.address (put e.public_key (print_entries es))),
        cut-put e.address (put e.public_key (print_entries es)),
        cut-put e.public_key (print_entries es),
      )
      (ap (◌∷◌ e) (parse_entries-print_entries es))

unfoldable pub parse_file : Bytes → Result (Unit {0}) TopologyFile
parse_file [] = err tt
parse_file (v ∷ []) = err tt
parse_file (v ∷ n ∷ text) = ok (record { version = v; relays = parse_entries n text })

unfoldable pub print_file : TopologyFile → Bytes
print_file f = f.version ∷ length f.relays ∷ print_entries f.relays

parse_file-print_file : (f : TopologyFile) → parse_file (print_file f) ≡ ok f
unfolding parse_file print_file
parse_file-print_file f =
    ap (λ es. ok (record { version = f.version; relays = es }))
      (parse_entries-print_entries f.relays)

abbrev pub json : Json TopologyFile
json = record { Error = Unit {0}; from_str = parse_file; to_string_pretty = print_file }

json_laws : JsonLaws TopologyFile json
json_laws = record { from_str-to_string_pretty = parse_file-print_file }

abbrev pub files : Files
files = record {
  State = Map Bytes;
  IoError = Unit {0};
  read_to_string = λ path s. ok_or tt (lookup path s);
  write = λ path text s. (ok tt, insert path text s);
}

written :
    (path text : Bytes) (s s' : Map Bytes)
    → files.write path text s ≡ (ok tt, s')
    → files.read_to_string path s' ≡ ok text
written path text s s' h =
    let e : insert path text s ≡ s' = ap (λ x. x.1) h in
    rw (← e, lookup-insert path path text s, bytes_eq_refl path) refl

files_laws : FilesLaws files
files_laws = record { read_to_string-write = written }

topology-IsKeyed : IsKeyed rng crypto topology
unfolding bytes_eq
topology-IsKeyed = record {
  unique = ((refl, (refl, tt)), ((refl, tt), (tt, tt)));
  by_id = (refl, (refl, (refl, tt)));
}

abbrev pub path : Bytes
path = 116 ∷ []

load_from_file-save_to_file_example :
    (t' : Topology rng crypto) × (load_from_file rng crypto hex json files path
        (save_to_file rng crypto hex json files path topology []).1
      ≡ ok t')
    × (◌≡◌ {A = Bytes → Option (RelayInfo rng crypto)}
        (λ id. Topology.get rng crypto id t')
        (λ id. Topology.get rng crypto id topology))
    × (length t'.relays ≡ 3)
unfolding save_to_file
load_from_file-save_to_file_example =
    load_from_file-save_to_file rng crypto crypto_laws hex hex_laws json json_laws files files_laws
      path topology [] (save_to_file rng crypto hex json files path topology []).1 topology-IsKeyed
      refl
