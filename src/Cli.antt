-- ===== src/Cli.antt =====
-- crates/veil-cli/src/main.rs: the arguments of the command line. `none` is the panic of a `--topology`
-- without a path. What the two modes do is below.
pub mod Mailboxes
pub mod Listed
pub mod Main
pub mod Modes
pub mod SelfHosted
use orf_veil.Prelude.{
  ℕ, ◌≡◌, refl, ◌+◌, ◌-◌, ◌*◌, List, [], ◌∷◌, ◌&&◌, ◌||◌, Option, none, some, ltb, leb, ◌==◌,
  if◌then◌else◌, get_elem?,
}
use orf_veil.Prelude.Bytes.{Bytes, bytes_eq}
use orf_veil.Prelude.Decimal.{parse_uint, digits, below}
use mathlib.Core.Option

pub data Mode : Type 0 where
  self_hosted : Bytes → ℕ → Mode
  external : Bytes → Bytes → Mode

-- The bytes of "--topology".
abbrev pub topology_flag : Bytes
topology_flag = 45 ∷ 45 ∷ 116 ∷ 111 ∷ 112 ∷ 111 ∷ 108 ∷ 111 ∷ 103 ∷ 121 ∷ []

-- The bytes of "hello from veil-cli".
abbrev pub default_message : Bytes
default_message =
    104 ∷ 101 ∷ 108 ∷ 108 ∷ 111 ∷ 32 ∷ 102 ∷ 114 ∷ 111 ∷ 109 ∷ 32 ∷ 118 ∷ 101 ∷ 105 ∷ 108 ∷ 45 ∷ 99
    ∷ 108 ∷ 105 ∷ []

-- `args.iter().position(|a| a == "--topology")`
unfoldable pub flag_position : List Bytes → Option ℕ
flag_position [] = none
flag_position (arg ∷ args) =
    if bytes_eq arg topology_flag then some 0 else Option.map (λ i. i + 1) (flag_position args)

-- The first argument, from the index `i` on, that is not at `flag_pos` nor behind it.
unfoldable pub first_other : ℕ → ℕ → List Bytes → Option Bytes
first_other flag_pos i [] = none
first_other flag_pos i (arg ∷ args) =
    let later = first_other flag_pos (i + 1) args in
    if i == flag_pos || i == flag_pos + 1 then later else some arg

-- `str::parse::<usize>` of the standard library.
unfoldable pub parse_usize : Bytes → Option ℕ
parse_usize = parse_uint 18446744073709551616

-- `parse_args`, on the arguments behind the name of the program.
unfoldable pub parse_args : List Bytes → Option Mode
unfolding flag_position first_other parse_usize
parse_args args = elim (flag_position args) [
  | some flag_pos ↦
      Option.map
        (λ topology_path.
          external topology_path (Option.get_or (first_other flag_pos 0 args) default_message))
        (get_elem? args (flag_pos + 1))
  | none ↦ some (
      self_hosted (Option.get_or (get_elem? args 0) default_message)
        (Option.get_or (Option.bind (get_elem? args 1) parse_usize) 3))
]

-- The flag before the path and the message, and the hops behind the message.
run_with_flag :
    parse_args (topology_flag ∷ (97 ∷ []) ∷ (98 ∷ []) ∷ []) ≡ some (external (97 ∷ []) (98 ∷ []))
unfolding parse_args flag_position first_other bytes_eq get_elem?
run_with_flag = refl

run_without_flag : parse_args ((97 ∷ []) ∷ (53 ∷ []) ∷ []) ≡ some (self_hosted (97 ∷ []) 5)
unfolding parse_args flag_position parse_usize parse_uint below digits bytes_eq get_elem?
    Option.bind
run_without_flag = refl
