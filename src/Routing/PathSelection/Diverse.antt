-- ===== src/Routing/PathSelection/Diverse.antt =====
-- What the path selections return, for every shuffle.
use orf_veil.Prelude.{
  ℕ, ◌≤◌, ◌<◌, ◌≡◌, refl, ap, sym, ◌∙◌, arith, inl, inr, List, [], ◌∷◌, ◌++◌, true, false, none,
  some, Bool-cases, Option-cases, ◌==◌, le→ltb, lt→ltb, drop, take-append-drop, length, length-take,
  All, take, take-append_length, take_whole,
}
use orf_veil.Prelude.Bytes.{Bytes}
use orf_veil.Prelude.Perms.{length-perm}
use orf_veil.Prelude.Result.{ok, err}
use orf_veil.External.Random.{Rng, RngLaws}
use orf_veil.External.Crypto.{Crypto}
use orf_veil.Routing.Topology
use orf_veil.Routing.Topology.{RelayInfo, Topology}
use orf_veil.Routing.PathSelection.{
  subnet_key, contains, diverse_loop, fill_loop, select_path, select_diverse_path,
  insufficient_relays,
}
use mathlib.Core.List.{Perm, perm_middle, append_assoc, append-nil}
use mathlib.Core.List.Perm

module _ (r : Rng) (c : Crypto r) where
  -- The relays that the first loop takes, and those that it sets aside, given the used subnets.
  unfoldable pub kept : List Bytes → List (RelayInfo r c) → List (RelayInfo r c)
  kept used [] = []
  kept used (x ∷ rest) = elim (subnet_key x.address) [
    | none ↦ x ∷ kept used rest
    | some key ↦ elim (contains used key) [
      | true ↦ kept used rest
      | false ↦ x ∷ kept (used ++ (key ∷ [])) rest
    ]
  ]

  unfoldable pub repeated : List Bytes → List (RelayInfo r c) → List (RelayInfo r c)
  repeated used [] = []
  repeated used (x ∷ rest) = elim (subnet_key x.address) [
    | none ↦ repeated used rest
    | some key ↦ elim (contains used key) [
      | true ↦ x ∷ repeated used rest
      | false ↦ repeated (used ++ (key ∷ [])) rest
    ]
  ]

  -- The subnets of the relays whose subnet is known.
  unfoldable pub subnets : List (RelayInfo r c) → List Bytes
  subnets [] = []
  subnets (x ∷ rest) = elim (subnet_key x.address) [
    | none ↦ subnets rest
    | some key ↦ key ∷ subnets rest
  ]

  -- How the first loop treats a relay.
  data Fate (used : List Bytes) (x : RelayInfo r c) : Type 0 where
    unknown : subnet_key x.address ≡ none → Fate used x
    known_used :
        (key : Bytes) → subnet_key x.address ≡ some key → contains used key ≡ true → Fate used x
    known_new :
        (key : Bytes) → subnet_key x.address ≡ some key → contains used key ≡ false → Fate used x

  fate : (used : List Bytes) (x : RelayInfo r c) → Fate used x
  fate used x = elim (Option-cases (subnet_key x.address)) [
    | inl e ↦ unknown e
    | inr (key, e) ↦ elim (Bool-cases (contains used key)) [
      | inl u ↦ known_used key e u
      | inr n ↦ known_new key e n
    ]
  ]

  snoc_append :
      {A : Type 0} (xs : List A) (a : A) (ys : List A) → (xs ++ (a ∷ [])) ++ ys ≡ xs ++ (a ∷ ys)
  snoc_append xs a ys = append_assoc xs (a ∷ []) ys

  diverse_loop_lem :
      (rest path : List (RelayInfo r c)) (used : List Bytes) (leftover : List (RelayInfo r c))
      → diverse_loop r c rest path used leftover
        ≡ (path ++ kept used rest, leftover ++ repeated used rest)
  unfolding diverse_loop kept repeated
  diverse_loop_lem [] path used leftover = rw (append-nil, append-nil)
  diverse_loop_lem (x ∷ rest) path used leftover = elim (fate used x) [
    | unknown e ↦
        rw (e, diverse_loop, kept, repeated)
          (diverse_loop_lem rest (path ++ (x ∷ [])) used leftover
            ∙ ap (λ p. (p, leftover ++ repeated used rest)) (snoc_append path x (kept used rest)))
    | known_used key e u ↦
        rw (e, u, diverse_loop, kept, repeated)
          (diverse_loop_lem rest path used (leftover ++ (x ∷ []))
            ∙ ap (λ l. (path ++ kept used rest, l)) (snoc_append leftover x (repeated used rest)))
    | known_new key e n ↦
        let used' = used ++ (key ∷ []) in
        rw (e, n, diverse_loop, kept, repeated)
          (diverse_loop_lem rest (path ++ (x ∷ [])) used' leftover
            ∙ ap (λ p. (p, leftover ++ repeated used' rest)) (snoc_append path x (kept used' rest)))
  ]

  -- Together they are the relays that were there.
  kept-repeated-perm :
      (used : List Bytes) (rest : List (RelayInfo r c))
      → Perm (kept used rest ++ repeated used rest) rest
  unfolding kept repeated
  kept-repeated-perm used [] = Perm.refl []
  kept-repeated-perm used (x ∷ rest) = elim (fate used x) [
    | unknown e ↦ rw (e, kept, repeated) (Perm.cons x (kept-repeated-perm used rest))
    | known_used key e u ↦
        rw (e, u, kept, repeated)
          (Perm.trans (perm_middle (kept used rest) (repeated used rest))
            (Perm.cons x (kept-repeated-perm used rest)))
    | known_new key e n ↦
        rw (e, n, kept, repeated) (Perm.cons x (kept-repeated-perm (used ++ (key ∷ [])) rest))
  ]

  -- Each key is new: it is not among the used ones nor among those before it.
  abbrev pub AllNew : List Bytes → List Bytes → Type 0
  AllNew used [] = Unit {0}
  AllNew used (k ∷ keys) = (contains used k ≡ false) × AllNew (used ++ (k ∷ [])) keys

  subnets-none :
      (x : RelayInfo r c) (xs : List (RelayInfo r c))
      → subnet_key x.address ≡ none
      → subnets (x ∷ xs) ≡ subnets xs
  unfolding subnets
  subnets-none x xs e = rw (e, subnets)

  subnets-some :
      (x : RelayInfo r c) (xs : List (RelayInfo r c)) (key : Bytes)
      → subnet_key x.address ≡ some key
      → subnets (x ∷ xs) ≡ key ∷ subnets xs
  unfolding subnets
  subnets-some x xs key e = rw (e, subnets)

  kept-AllNew :
      (used : List Bytes) (rest : List (RelayInfo r c)) → AllNew used (subnets (kept used rest))
  unfolding kept
  kept-AllNew used [] = unfold subnets in tt
  kept-AllNew used (x ∷ rest) = elim (fate used x) [
    | unknown e ↦ rw (e, kept) (rw (subnets-none x (kept used rest) e) (kept-AllNew used rest))
    | known_used key e u ↦ rw (e, u, kept) (kept-AllNew used rest)
    | known_new key e n ↦
        let used' = used ++ (key ∷ []) in
        rw (e, n, kept) (rw (subnets-some x (kept used' rest) key e) (n, kept-AllNew used' rest))
  ]

  -- A relay whose subnet is known and among the keys.
  abbrev pub IsCovered : List Bytes → RelayInfo r c → Type 0
  IsCovered keys x = (key : Bytes) × (subnet_key x.address ≡ some key) × (contains keys key ≡ true)

  contains-append :
      (keys more : List Bytes) (key : Bytes)
      → contains keys key ≡ true
      → contains (keys ++ more) key ≡ true
  unfolding contains
  contains-append [] more key h = cc
  contains-append (k ∷ keys) more key h = ground (arith, contains-append keys more key)

  repeated-IsCovered :
      (used : List Bytes) (rest : List (RelayInfo r c))
      → All (IsCovered (used ++ subnets (kept used rest))) (repeated used rest)
  unfolding kept repeated
  repeated-IsCovered used [] = tt
  repeated-IsCovered used (x ∷ rest) = elim (fate used x) [
    | unknown e ↦
        rw (e, kept, repeated)
          (rw (subnets-none x (kept used rest) e) (repeated-IsCovered used rest))
    | known_used key e u ↦
        rw (e, u, kept, repeated)
          (
            (key, e, contains-append used (subnets (kept used rest)) key u),
            repeated-IsCovered used rest,
          )
    | known_new key e n ↦
        let used' = used ++ (key ∷ []) in
        rw (e, n, kept, repeated)
          (rw
            (
              subnets-some x (kept used' rest) key e,
              ← snoc_append used key (subnets (kept used' rest)),
            )
            (repeated-IsCovered used' rest))
  ]

  -- Filling up and cutting off is cutting off from both lists.
  take-fill_loop :
      (n : ℕ) (path leftover : List (RelayInfo r c))
      → take n (fill_loop r c n path leftover) ≡ take n (path ++ leftover)
  unfolding fill_loop
  take-fill_loop n path [] = rw append-nil
  take-fill_loop n path (x ∷ rest) = elim (Bool-cases (length path == n)) [
    | inl done ↦
        let e : length path ≡ n = ground arith in
        rw (done, fill_loop)
          (take_whole path n (omega arith) ∙ sym (take-append_length n path (x ∷ rest) e))
    | inr more ↦
        rw (more, fill_loop)
          (take-fill_loop n (path ++ (x ∷ [])) rest ∙ ap (take n) (snoc_append path x rest))
  ]

  module _ (laws : RngLaws r) (t : Topology r c) (hop_count : ℕ) (s : r.State) where
    abbrev candidates : List (RelayInfo r c)
    candidates = Topology.all r c t

    abbrev pub shuffled : List (RelayInfo r c)
    shuffled = (r.shuffle (RelayInfo r c) candidates s).0

    -- The path, when the relays suffice.
    select_diverse_path-run :
        hop_count ≤ length candidates
        → select_diverse_path r c t hop_count s ≡ (
          ok (take hop_count (kept [] shuffled ++ repeated [] shuffled)),
          (r.shuffle (RelayInfo r c) candidates s).1,
        )
    unfolding select_diverse_path
    select_diverse_path-run h = rw (
      le→ltb (length candidates) hop_count h,
      diverse_loop_lem shuffled [] [] [],
      take-fill_loop hop_count (kept [] shuffled) (repeated [] shuffled),
    )

    -- With enough relays, and whatever the shuffle, the path has `hop_count` hops. It is cut from the
    -- relays of the topology, each once: first relays that share no known subnet, and behind them only
    -- relays whose subnet is already there.
    pub select_diverse_path_ok :
        hop_count ≤ length candidates
        → (diverse leftover : List (RelayInfo r c)) × ((select_diverse_path r c t hop_count s).0
            ≡ ok (take hop_count (diverse ++ leftover)))
          × (length (take hop_count (diverse ++ leftover)) ≡ hop_count)
          × Perm (diverse ++ leftover) candidates
          × AllNew [] (subnets diverse)
          × All (IsCovered (subnets diverse)) leftover
    select_diverse_path_ok h =
        let p =
          Perm.trans (kept-repeated-perm [] shuffled)
            (laws.shuffle-perm (RelayInfo r c) candidates s) in
        (
          kept [] shuffled,
          repeated [] shuffled,
          ap (λ x. x.0) (select_diverse_path-run h),
          omega (
            arith,
            length-take hop_count (kept [] shuffled ++ repeated [] shuffled),
            length-perm p,
          ),
          p,
          kept-AllNew [] shuffled,
          repeated-IsCovered [] shuffled,
        )

    -- With too few relays both selections fail in the same way, and draw nothing.
    pub select_paths_err :
        length candidates < hop_count
        → (select_path r c t hop_count s
            ≡ (err (insufficient_relays hop_count (length candidates)), s))
          × (select_diverse_path r c t hop_count s
              ≡ (err (insufficient_relays hop_count (length candidates)), s))
    unfolding select_path select_diverse_path
    select_paths_err h = rw (lt→ltb (length candidates) hop_count h) (refl, refl)

    -- With enough relays `select_path` returns `hop_count` of them, each at most once: with the rest
    -- they are a permutation of the relays of the topology.
    pub select_path_ok :
        hop_count ≤ length candidates
        → (rest path : List (RelayInfo r c)) × ((select_path r c t hop_count s).0 ≡ ok path)
          × (length path ≡ hop_count)
          × Perm (path ++ rest) candidates
    unfolding select_path
    select_path_ok h =
        let p = laws.shuffle-perm (RelayInfo r c) candidates s in
        (
          drop hop_count shuffled,
          take hop_count shuffled,
          rw (le→ltb (length candidates) hop_count h),
          omega (arith, length-take hop_count shuffled, length-perm p),
          rw (take-append-drop hop_count shuffled) p,
        )
