-- ===== src/Routing/PathSelection.antt =====
-- crates/veil-routing/src/path_selection.rs: random circuit paths.
pub mod Diverse
use orf_veil.Prelude.{
  ℕ, zero, suc, ◌+◌, ◌-◌, ◌*◌, List, [], ◌∷◌, ◌++◌, Bool, true, false, ◌&&◌, ◌||◌, Option, none,
  some, ltb, leb, ◌==◌, if◌then◌else◌, length, take,
}
use orf_veil.Prelude.Bytes.{Bytes, bytes_eq}
use orf_veil.Prelude.Result.{Result, ok, err}
use orf_veil.External.Random.{Rng}
use orf_veil.External.Crypto.{Crypto}
use orf_veil.Routing.Topology
use orf_veil.Routing.Topology.{RelayInfo, Topology}
use mathlib.Core.Option

pub data PathSelectionError : Type 0 where
  insufficient_relays : ℕ → ℕ → PathSelectionError

-- `str::rsplit_once` on a one-byte separator: the parts before and behind the last one.
unfoldable pub rsplit_once : ℕ → Bytes → Option (Bytes × Bytes)
rsplit_once sep [] = none
rsplit_once sep (b ∷ bs) = elim (rsplit_once sep bs) [
  | some (front, back) ↦ some (b ∷ front, back)
  | none ↦ if b == sep then some ([], bs) else none
]

-- `str::split` on a one-byte separator; the part that is being read comes first.
unfoldable pub split : ℕ → Bytes → Bytes × List Bytes
split sep [] = ([], [])
split sep (b ∷ bs) =
    let (part, parts) = split sep bs in if b == sep then ([], part ∷ parts) else (b ∷ part, parts)

is_digit : ℕ → Bool
is_digit b = leb 48 b && leb b 57

digits_value : ℕ → Bytes → Option ℕ
unfolding is_digit
digits_value acc [] = some acc
digits_value acc (b ∷ bs) =
    let rest = digits_value (acc * 10 + (b - 48)) bs in if is_digit b then rest else none

-- An octet of an address: one to three digits, no leading zero, at most 255.
parse_octet : Bytes → Option ℕ
unfolding digits_value
parse_octet [] = none
parse_octet (d ∷ []) = digits_value 0 (d ∷ [])
parse_octet (d ∷ e ∷ ds) =
    if d == 48 || ltb 3 (length (d ∷ e ∷ ds))
    then none
    else Option.bind (digits_value 0 (d ∷ e ∷ ds)) (λ n. if leb n 255 then some n else none)

octets : Bytes × List Bytes → Option (List ℕ)
unfolding parse_octet
octets (a, b ∷ c ∷ d ∷ []) = Option.bind (parse_octet a) (λ w.
    Option.bind (parse_octet b) (λ x.
      Option.bind (parse_octet c) (λ y. Option.map (λ z. w ∷ x ∷ y ∷ z ∷ []) (parse_octet d))))
octets _ = none

-- `str::parse::<Ipv4Addr>` of the standard library: four decimal octets between dots.
unfoldable pub parse_ipv4 : Bytes → Option (List ℕ)
unfolding octets split
parse_ipv4 host = octets (split b'.' host)

-- `subnet_key`: the first three octets of the host of a `host:port` address.
unfoldable pub subnet_key : Bytes → Option Bytes
unfolding parse_ipv4 rsplit_once
subnet_key address =
    Option.bind (rsplit_once b':' address)
      (λ (host, _). Option.map (λ ip. take 3 ip) (parse_ipv4 host))

-- `Vec::contains`
unfoldable pub contains : List Bytes → Bytes → Bool
contains [] key = false
contains (k ∷ keys) key = bytes_eq k key || contains keys key

module _ (r : Rng) (c : Crypto r) where
  unfoldable pub select_path :
      Topology r c → ℕ → r.State → Result PathSelectionError (List (RelayInfo r c)) × r.State
  select_path topology hop_count s =
      let candidates = Topology.all r c topology in
      if ltb (length candidates) hop_count
      then (err (insufficient_relays hop_count (length candidates)), s)
      else let (shuffled, s') = r.shuffle (RelayInfo r c) candidates s in
        (ok (take hop_count shuffled), s')

  -- The first loop of `select_diverse_path`; it returns the path and the leftover.
  unfoldable pub diverse_loop :
      List (RelayInfo r c)
      → List (RelayInfo r c)
      → List Bytes
      → List (RelayInfo r c)
      → List (RelayInfo r c) × List (RelayInfo r c)
  diverse_loop [] path used_subnets leftover = (path, leftover)
  diverse_loop (relay ∷ rest) path used_subnets leftover = elim (subnet_key relay.address) [
    | none ↦ diverse_loop rest (path ++ (relay ∷ [])) used_subnets leftover
    | some key ↦ elim (contains used_subnets key) [
      | true ↦ diverse_loop rest path used_subnets (leftover ++ (relay ∷ []))
      | false ↦ diverse_loop rest (path ++ (relay ∷ [])) (used_subnets ++ (key ∷ [])) leftover
    ]
  ]

  -- The second loop: the path is filled up from the leftover.
  unfoldable pub fill_loop : ℕ → List (RelayInfo r c) → List (RelayInfo r c) → List (RelayInfo r c)
  fill_loop hop_count path [] = path
  fill_loop hop_count path (relay ∷ rest) = elim (length path == hop_count) [
    | true ↦ path
    | false ↦ fill_loop hop_count (path ++ (relay ∷ [])) rest
  ]

  unfoldable pub select_diverse_path :
      Topology r c → ℕ → r.State → Result PathSelectionError (List (RelayInfo r c)) × r.State
  select_diverse_path topology hop_count s =
      let candidates = Topology.all r c topology in
      if ltb (length candidates) hop_count
      then (err (insufficient_relays hop_count (length candidates)), s)
      else let (shuffled, s') = r.shuffle (RelayInfo r c) candidates s in
        let (path, leftover) = diverse_loop shuffled [] [] [] in
        (ok (take hop_count (fill_loop hop_count path leftover)), s')
