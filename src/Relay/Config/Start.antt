-- ===== src/Relay/Config/Start.antt =====
-- The start of a relay: `main` of crates/veil-relay/src/main.rs up to the tasks, which are not
-- modelled.
use orf_veil.Prelude.{
  ◌==◌, ◌≡◌, ap, sym, ◌∙◌, inl, inr, Bool, Bool-cases, Option, Option-cases, some, length,
}
use orf_veil.Prelude.Bytes.{Bytes}
use orf_veil.Prelude.Result.{Result, ok, err}
use orf_veil.Prelude.Trim.{trim}
use orf_veil.External.Random.{Rng}
use orf_veil.External.Crypto.{Crypto}
use orf_veil.External.Text.{Hex}
use orf_veil.External.Toml.{Toml}
use orf_veil.External.Files.{Files}
use orf_veil.Core.Error.{VeilError, VeilResult}
use orf_veil.Core.Crypto.Keys
use orf_veil.Core.Crypto.Keys.{KeyPair}
use orf_veil.Core.Crypto.Keys.Text.{from_hex}
use orf_veil.Relay.Address.{SocketAddr, mailbox_addr}
use orf_veil.Relay.Config.{
  RelayConfig, RelayError, load_config, new_node, relay_keypair, relay_identity,
}
use orf_veil.Relay.Mailbox.{Mailbox, new_mailbox}
use orf_veil.Relay.Node.{Dialer, RelayNode}
use orf_veil.Relay.Node.Limiter.{Limiter}
use orf_veil.Relay.PullListener.{RelayIdentity}
use mathlib.Core.Option
use mathlib.Core.Path.{subst}

-- The errors that `main` returns before the relay runs.
pub data StartError (IoError TomlError : Type 0) : Type 0 where
  bad_config : RelayError IoError TomlError → StartError IoError TomlError
  bad_secret : VeilError → StartError IoError TomlError

-- What the tasks of a relay start with.
pub record Started (r : Rng) (c : Crypto r) (d : Dialer) : Type 0 where
  pub config : RelayConfig
  pub keypair : KeyPair r c
  pub identity : RelayIdentity r c
  pub mailbox_address : SocketAddr
  pub mailbox : Mailbox
  pub node : RelayNode d
  pub limiter : Limiter

module _ (r : Rng) (c : Crypto r) (hex : Hex) (toml : Toml RelayConfig) (files : Files)
    (d : Dialer) where
  -- `none` is the panic of the sum for the mailbox port, in a debug build, or of `RelayNode::new`.
  abbrev pub StartResult : Type 0
  StartResult = Option (Result (StartError files.IoError toml.Error) (Started r c d) × r.State)

  abbrev pub started_with :
      RelayNode d × Limiter → RelayConfig → KeyPair r c → SocketAddr → Started r c d
  started_with parts config keypair address = record {
    config = config;
    keypair = keypair;
    identity = relay_identity r c hex config keypair;
    mailbox_address = address;
    mailbox = new_mailbox;
    node = parts.0;
    limiter = parts.1;
  }

  unfoldable pub with_keypair :
      Bool → d.State → RelayConfig → VeilResult (KeyPair r c) × r.State → StartResult
  with_keypair overflow_checks network config (err e, s) = some (err (bad_secret e), s)
  with_keypair overflow_checks network config (ok keypair, s) =
      Option.bind (mailbox_addr overflow_checks config.listen_addr) (λ address.
        Option.map (λ parts. (ok (started_with parts config keypair address), s))
          (new_node d config network))

  unfoldable pub with_config :
      Bool
      → d.State
      → Result (RelayError files.IoError toml.Error) RelayConfig
      → r.State
      → StartResult
  unfolding with_keypair
  with_config overflow_checks network (err e) s = some (err (bad_config e), s)
  with_config overflow_checks network (ok config) s =
      with_keypair overflow_checks network config (relay_keypair r c hex config s)

  unfoldable pub start : Bool → Bytes → files.State → d.State → r.State → StartResult
  unfolding with_config
  start overflow_checks path fs network s =
      with_config overflow_checks network (load_config toml files path fs) s

module _ (r : Rng) (c : Crypto r) (hex : Hex) where
  from_hex-IsPair :
      (text : Bytes) (k : KeyPair r c) → from_hex r c hex text ≡ ok k → Keys.IsPair r c k
  unfolding from_hex
  from_hex-IsPair text k e = elim (Option-cases (hex.decode (trim text))) [
    | inl none_decoded ↦ let e' = rw none_decoded at e in cc
    | inr (bytes, decoded) ↦ elim (Bool-cases (length bytes == 32)) [
      | inl fits ↦
          let e' = rw (decoded, fits) at e in
          let secret : c.secret_from_bytes bytes ≡ k.secret = cc in
          let public : c.public_of (c.secret_from_bytes bytes) ≡ k.public = cc in
          sym public ∙ ap c.public_of secret
      | inr other ↦ let e' = rw (decoded, other) at e in cc
    ]
  ]

  -- The key pair of a relay that starts has the public key of its secret.
  pub relay_keypair-IsPair :
      (config : RelayConfig) (s s' : r.State) (k : KeyPair r c)
      → relay_keypair r c hex config s ≡ (ok k, s')
      → Keys.IsPair r c k
  unfolding relay_keypair
  relay_keypair-IsPair config s s' k e = elim (Option-cases config.static_secret_hex) [
    | inl ephemeral ↦
        let e' = rw ephemeral at e in
        let same : (Keys.generate r c s).0 ≡ k = cc in
        subst (Keys.IsPair r c) same (Keys.generate-IsPair r c s)
    | inr (text, configured) ↦
        let e' = rw configured at e in from_hex-IsPair text k (ap (λ x. x.0) e')
  ]
