-- ===== src/Routing/TopologyFile/RoundTrip.antt =====
-- A topology that is written as JSON is read back.
use orf_veil.Prelude.{
  ==_iff, ◌≡◌, refl, ap, sym, ◌∙◌, arith, inl, inr, List, [], ◌∷◌, ◌++◌, map, length, All, false,
  Bool-cases, Option,
}
use orf_veil.Prelude.Bytes.{Bytes, bytes_eq, bytes_eq_iff}
use orf_veil.Prelude.Map.{
  Map, insert, values, IsFresh, HasUniqueKeys, insert-HasUniqueKeys, insert_fresh,
}
use orf_veil.Prelude.Result.{Result, ok, err, map_err}
use orf_veil.External.Random.{Rng}
use orf_veil.External.Crypto.{Crypto, CryptoLaws}
use orf_veil.External.Text.{Hex, HexLaws, Json, JsonLaws}
use orf_veil.External.Files.{Files, FilesLaws}
use orf_veil.Routing.Topology
use orf_veil.Routing.Topology.{RelayInfo, Topology}
use orf_veil.Routing.TopologyFile.{
  TopologyFile, RelayEntry, TopologyFileError, entry_key, load_entries, from_json, to_json,
  load_from_file, save_to_file, write_error,
}
use mathlib.Core.List.{append_assoc, append-nil}

bytes_eq_sym : (a b : Bytes) → bytes_eq a b ≡ false → bytes_eq b a ≡ false
bytes_eq_sym a b h = ground (arith, bytes_eq_iff a b, bytes_eq_iff b a)

IsFresh-middle {ℓ} :
    {V : Type ℓ} (j k : Bytes) (v : V) (m n : Map V)
    → IsFresh j (m ++ ((k, v) ∷ n))
    → bytes_eq k j ≡ false
IsFresh-middle j k v [] n h = h.0
IsFresh-middle j k v (x ∷ m) n h = IsFresh-middle j k v m n h.1

IsFresh-before {ℓ} :
    {V : Type ℓ} (k : Bytes) (v : V) (m n : Map V) → HasUniqueKeys (m ++ ((k, v) ∷ n)) → IsFresh k m
IsFresh-before k v [] n h = tt
IsFresh-before k v ((j, w) ∷ m) n h =
    (bytes_eq_sym k j (IsFresh-middle j k v m n h.0), IsFresh-before k v m n h.1)

module _ (r : Rng) (c : Crypto r) where
  -- Every relay is stored under its id, and every id once.
  pub record IsKeyed (t : Topology r c) : Type 0 where
    pub unique : HasUniqueKeys t.relays
    pub by_id : All (λ e. e.1.id ≡ e.0) t.relays

  insert-by_id :
      (x : RelayInfo r c) (m : Map (RelayInfo r c))
      → All (λ e. e.1.id ≡ e.0) m
      → All (λ e. e.1.id ≡ e.0) (insert x.id x m)
  unfolding insert
  insert-by_id x [] h = (refl, tt)
  insert-by_id x ((j, w) ∷ m) h = elim (Bool-cases (bytes_eq j x.id)) [
    | inl same ↦ rw same (refl, h.1)
    | inr other ↦ rw other (h.0, insert-by_id x m h.1)
  ]

  pub new-IsKeyed : IsKeyed (Topology.new r c)
  new-IsKeyed = record { unique = tt; by_id = tt }

  pub add_relay-IsKeyed :
      (x : RelayInfo r c) (t : Topology r c) → IsKeyed t → IsKeyed (Topology.add_relay r c x t)
  unfolding Topology.add_relay
  add_relay-IsKeyed x t h = record {
    unique = insert-HasUniqueKeys x.id x t.relays h.unique;
    by_id = insert-by_id x t.relays h.by_id;
  }

  module _ (laws : CryptoLaws r c) (hex : Hex) (hex_laws : HexLaws hex) (json : Json TopologyFile)
      (json_laws : JsonLaws TopologyFile json) (files : Files) (files_laws : FilesLaws files) where
    abbrev entry_of : RelayInfo r c → RelayEntry
    entry_of x = record {
      id = x.id;
      address = x.address;
      public_key = hex.encode (c.public_as_bytes x.public_key);
    }

    entry_key-entry_of :
        (x : RelayInfo r c) → entry_key r c hex json files (entry_of x) ≡ ok x.public_key
    unfolding entry_key
    entry_key-entry_of x =
        let bytes = c.public_as_bytes x.public_key in
        rw
          (
            hex_laws.decode-encode bytes (laws.public_as_bytes-IsByte x.public_key),
            (==_iff (length bytes) 32).1 (laws.length-public_as_bytes x.public_key),
            laws.public_from_bytes-as_bytes x.public_key,
          )
          refl

    load_step :
        (x : RelayInfo r c) (entries : List RelayEntry) (t : Topology r c)
        → load_entries r c hex json files (entry_of x ∷ entries) t
          ≡ load_entries r c hex json files entries (Topology.add_relay r c x t)
    unfolding load_entries
    load_step x entries t = rw (entry_key-entry_of x) refl

    load_entries-values :
        (before after : Map (RelayInfo r c))
        → HasUniqueKeys (before ++ after)
        → All (λ e. e.1.id ≡ e.0) after
        → load_entries r c hex json files (map entry_of (values after)) (record { relays = before })
          ≡ ok (record { relays = before ++ after })
    unfolding values Topology.add_relay
    load_entries-values before [] u h =
        unfold load_entries in ap (λ m. ok (record { relays = m })) (sym (append-nil before))
    load_entries-values before ((k, x) ∷ after) u h =
        let joined = append_assoc before ((k, x) ∷ []) after in
        let here : insert x.id x before ≡ before ++ ((k, x) ∷ []) =
          ap (λ i. insert i x before) h.0
          ∙ insert_fresh k x before (IsFresh-before k x before after u) in
        load_step x (map entry_of (values after)) (record { relays = before })
        ∙ ap
            (λ m.
              load_entries r c hex json files (map entry_of (values after)) (record { relays = m }))
            here
        ∙ load_entries-values (before ++ ((k, x) ∷ [])) after (rw joined u) h.1
        ∙ ap (λ m. ok (record { relays = m })) joined

    -- A topology with every relay under its id is written as JSON, and what is read from that finds
    -- the same relay, or none, at every id.
    pub from_json-to_json :
        (t : Topology r c)
        → IsKeyed t
        → (t' : Topology r c) × (from_json r c hex json files (to_json r c hex json files t)
            ≡ ok t')
          × (◌≡◌ {A = Bytes → Option (RelayInfo r c)}
              (λ id. Topology.get r c id t')
              (λ id. Topology.get r c id t))
          × (length t'.relays ≡ length t.relays)
    unfolding from_json to_json
    from_json-to_json t h = (
      t,
      rw (json_laws.from_str-to_string_pretty) (load_entries-values [] t.relays h.unique h.by_id),
      refl,
      refl,
    )

    saved :
        (path : Bytes) (t : Topology r c) (out : Result files.IoError (Unit {0}) × files.State)
        (s' : files.State)
        → ◌≡◌ {A = Result (TopologyFileError files.IoError json.Error) (Unit {0}) × files.State}
            (map_err (λ e. write_error path e) out.0, out.1)
            (ok tt, s')
        → out ≡ (ok tt, s')
    saved path t (ok u, s1) s' h = ap (λ x. (ok tt, x.1)) h
    saved path t (err e, s1) s' h = cc

    -- A topology with every relay under its id that is saved to a file without an error is loaded from
    -- that file again: the loaded one finds the same relay, or none, at every id, and has as many.
    pub load_from_file-save_to_file :
        (path : Bytes) (t : Topology r c) (s s' : files.State)
        → IsKeyed t
        → save_to_file r c hex json files path t s ≡ (ok tt, s')
        → (t' : Topology r c) × (load_from_file r c hex json files path s' ≡ ok t')
          × (◌≡◌ {A = Bytes → Option (RelayInfo r c)}
              (λ id. Topology.get r c id t')
              (λ id. Topology.get r c id t))
          × (length t'.relays ≡ length t.relays)
    unfolding load_from_file save_to_file
    load_from_file-save_to_file path t s s' h e =
        let text = to_json r c hex json files t in
        let (t', back, same, count) = from_json-to_json t h in
        let stored =
          files_laws.read_to_string-write path text s s'
            (saved path t (files.write path text s) s' e) in
        (t', rw stored back, same, count)
