-- ===== src/Cli/Main.antt =====
-- `main` of crates/veil-cli/src/main.rs: the arguments decide between the two modes.
use orf_veil.Prelude.{
  ℕ, suc, ◌+◌, ◌<◌, ◌==◌, ◌≡◌, refl, ap, arith, Bool, true, false, List, [], ◌∷◌, ◌++◌, Option,
  none, some, length, get_elem?, All,
}
use orf_veil.Prelude.Bytes.{Bytes, bytes_eq, bytes_eq_refl}
use orf_veil.Prelude.Result.{Result}
use orf_veil.External.Random.{Rng}
use orf_veil.External.Crypto.{Crypto}
use orf_veil.External.Text.{Hex, Json}
use orf_veil.External.Files.{Files}
use orf_veil.Routing.TopologyFile.{TopologyFile}
use orf_veil.Sdk.Receiver.{Network}
use orf_veil.Cli.{
  Mode, self_hosted, external, topology_flag, default_message, flag_position, first_other,
  parse_args,
}
use orf_veil.Cli.Modes.{Outcome, run_external}
use orf_veil.Cli.SelfHosted.{run_self_hosted}
use mathlib.Core.Option

module _ (r : Rng) (c : Crypto r) (net : Network)
    (send_to : Bytes → Bytes → net.State → Result net.IoError (Unit {0}) × net.State) (hex : Hex)
    (json : Json TopologyFile) (files : Files) where
  abbrev pub Run : Type 0
  Run = files.State → r.State → net.State → Option (Outcome × net.State)

  unfoldable pub run_mode : Bool → Mode → Run
  run_mode overflow_checks (self_hosted message hop_count) disk s n =
      run_self_hosted r c net send_to overflow_checks message hop_count s n
  run_mode overflow_checks (external topology_path message) disk s n =
      run_external r c net send_to hex json files overflow_checks topology_path message disk s n

  -- `main`, on the arguments behind the name of the program.
  unfoldable pub veil_main : Bool → List Bytes → Run
  unfolding run_mode
  veil_main overflow_checks args disk s n =
      Option.bind (parse_args args) (λ mode. run_mode overflow_checks mode disk s n)

-- Another argument than the flag.
abbrev pub IsPlainArg : Bytes → Type 0
IsPlainArg arg = bytes_eq arg topology_flag ≡ false

flag_position-append :
    (before rest : List Bytes)
    → All IsPlainArg before
    → flag_position (before ++ (topology_flag ∷ rest)) ≡ some (length before)
unfolding flag_position
flag_position-append [] rest plain = rw (bytes_eq_refl topology_flag) refl
flag_position-append (arg ∷ before) rest plain =
    let e : length before + 1 ≡ suc (length before) = omega arith in
    rw (plain.0, flag_position-append before rest plain.1) (ap (λ k. some k) e)

flag_position_plain : (args : List Bytes) → All IsPlainArg args → flag_position args ≡ none
unfolding flag_position
flag_position_plain [] plain = refl
flag_position_plain (arg ∷ args) plain = rw (plain.0, flag_position_plain args plain.1) refl

get_elem?-append :
    (before rest : List Bytes) (path : Bytes)
    → get_elem? (before ++ (topology_flag ∷ path ∷ rest)) (length before + 1) ≡ some path
unfolding get_elem?
get_elem?-append [] rest path = refl
get_elem?-append (arg ∷ before) rest path =
    let e : suc (length before) + 1 ≡ suc (length before + 1) = omega arith in
    rw e (get_elem?-append before rest path)

first_other_behind :
    (p i : ℕ) (args : List Bytes) → p + 1 < i → first_other p i args ≡ get_elem? args 0
unfolding first_other get_elem?
first_other_behind p i [] behind = refl
first_other_behind p i (arg ∷ args) behind =
    let a : (i == p) ≡ false = ground arith in
    let b : (i == p + 1) ≡ false = ground arith in rw (a, b) refl

first_other-append :
    (p i : ℕ) (before rest : List Bytes) (flag path : Bytes)
    → i + length before ≡ p
    → first_other p i (before ++ (flag ∷ path ∷ rest)) ≡ get_elem? (before ++ rest) 0
unfolding first_other get_elem?
first_other-append p i [] rest flag path at =
    let a : (i == p) ≡ true = ground arith in
    let b : (i + 1 == p) ≡ false = ground arith in
    let d : (i + 1 == p + 1) ≡ true = ground arith in
    rw (a, b, d) (first_other_behind p (i + 1 + 1) rest (omega (arith, at)))
first_other-append p i (arg ∷ before) rest flag path at =
    let a : (i == p) ≡ false = ground arith in
    let b : (i == p + 1) ≡ false = ground arith in rw (a, b) refl

parse_args_flag :
    (before rest : List Bytes) (path : Bytes)
    → All IsPlainArg before
    → parse_args (before ++ (topology_flag ∷ path ∷ rest))
      ≡ some (external path (Option.get_or (get_elem? (before ++ rest) 0) default_message))
unfolding parse_args
parse_args_flag before rest path plain =
    rw
      (
        flag_position-append before (path ∷ rest) plain,
        get_elem?-append before rest path,
        first_other-append (length before) 0 before rest topology_flag path (omega arith),
        parse_args,
      )
      refl

module _ (r : Rng) (c : Crypto r) (net : Network)
    (send_to : Bytes → Bytes → net.State → Result net.IoError (Unit {0}) × net.State) (hex : Hex)
    (json : Json TopologyFile) (files : Files) where
  -- Wherever the first `--topology` stands among the arguments, with a path behind it, the program runs
  -- in external mode with that path, and its message is the first of the other arguments, before the
  -- flag or behind the path, or the default when there is none.
  pub veil_main-run_external :
      (overflow_checks : Bool) (before rest : List Bytes) (path : Bytes) (disk : files.State)
      (s : r.State) (n : net.State)
      → All IsPlainArg before
      → veil_main r c net send_to hex json files overflow_checks
          (before ++ (topology_flag ∷ path ∷ rest))
          disk
          s
          n
        ≡ run_external r c net send_to hex json files overflow_checks path
            (Option.get_or (get_elem? (before ++ rest) 0) default_message)
            disk
            s
            n
  unfolding veil_main run_mode Option.bind
  veil_main-run_external overflow_checks before rest path disk s n plain =
      rw (parse_args_flag before rest path plain, veil_main) refl
