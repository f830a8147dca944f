-- ===== src/Cli/Listed.antt =====
-- A relay that `main` of crates/veil-relay/src/main.rs has started, as a client sees it that has its
-- identity.
use orf_veil.Prelude.{
  ◌<◌, ◌≡◌, refl, ap, sym, ◌∙◌, inl, inr, Bool, true, Option-cases, some, length, All,
}
use orf_veil.Prelude.Bytes.{Bytes, IsByte}
use orf_veil.Prelude.Utf8.{is_utf8}
use orf_veil.Prelude.Result.{Result, ok, err}
use orf_veil.External.Random.{Rng}
use orf_veil.External.Crypto.{Crypto}
use orf_veil.External.Text.{Hex}
use orf_veil.External.Toml.{Toml}
use orf_veil.External.Files.{Files}
use orf_veil.Core.Error.{VeilResult}
use orf_veil.Core.Crypto.Keys
use orf_veil.Core.Crypto.Keys.{KeyPair}
use orf_veil.Relay.Address.{SocketAddr, addr_text, mailbox_addr}
use orf_veil.Relay.Config.{RelayConfig, RelayError, load_config, relay_keypair, new_node}
use orf_veil.Relay.Config.Start.{
  Started, started_with, with_keypair, with_config, start, relay_keypair-IsPair,
}
use orf_veil.Relay.Node.{Dialer, RelayNode}
use orf_veil.Relay.Node.Limiter.{Limiter}
use orf_veil.Routing.Circuit.Peeling.{IsHost}
use orf_veil.Routing.Topology.{RelayInfo}
use orf_veil.Cli.Mailboxes.{mailbox_address_from, mailbox_address_from-addr_text}
use mathlib.Core.Option
use mathlib.Core.Path.{subst}

-- The listening address is a UTF-8 text of less than 65536 bytes with a port of 16 bits.
pub record IsAddress (addr : SocketAddr) : Type 0 where
  pub port : addr.port < 65536
  pub text : is_utf8 (addr_text addr) ≡ true
  pub fits : length (addr_text addr) < 65536
  pub bytes : All IsByte (addr_text addr)

module _ (r : Rng) (c : Crypto r) (hex : Hex) (toml : Toml RelayConfig) (files : Files)
    (d : Dialer) where
  -- The entry that a discovery makes of the identity of the relay.
  abbrev pub listed : Started r c d → RelayInfo r c
  listed started = record {
    id = started.identity.id;
    address = started.identity.main_addr;
    public_key = started.identity.public_key;
  }

  module _ (overflow_checks : Bool) (network : d.State) where
    -- The relay runs with the keys of its entry, and the client derives the address of its mailbox.
    abbrev pub IsListed : Started r c d → Type 0
    IsListed started =
        IsHost r c (record { info = listed started; keypair = started.keypair })
        × (mailbox_address_from overflow_checks started.identity.main_addr
            ≡ some (addr_text started.mailbox_address))

    started_with-IsListed :
        (parts : RelayNode d × Limiter) (config : RelayConfig) (keypair : KeyPair r c)
        (mailbox : SocketAddr)
        → Keys.IsPair r c keypair
        → IsAddress config.listen_addr
        → mailbox_addr overflow_checks config.listen_addr ≡ some mailbox
        → IsListed (started_with r c hex toml files d parts config keypair mailbox)
    started_with-IsListed parts config keypair mailbox pair address e = (
      record {
        pair = pair;
        published = refl;
        text = address.text;
        fits = address.fits;
        bytes = address.bytes;
      },
      mailbox_address_from-addr_text overflow_checks config.listen_addr address.port
          ∙ ap (Option.map addr_text) e,
    )

    with_keypair-IsListed :
        (config : RelayConfig) (result : VeilResult (KeyPair r c) × r.State)
        (started : Started r c d) (s' : r.State)
        → ((k : KeyPair r c) → result.0 ≡ ok k → Keys.IsPair r c k)
        → with_keypair r c hex toml files d overflow_checks network config result
          ≡ some (ok started, s')
        → IsAddress started.config.listen_addr
        → IsListed started
    unfolding with_keypair Option.bind
    with_keypair-IsListed config (err e, s) started s' pair ran address = cc
    with_keypair-IsListed config (ok keypair, s) started s' pair ran address =
        elim (Option-cases (mailbox_addr overflow_checks config.listen_addr)) [
          | inl panics ↦ let ran' = rw panics at ran in cc
          | inr (mailbox, e) ↦ elim (Option-cases (new_node d config network)) [
            | inl panics ↦ let ran' = rw (e, panics) at ran in cc
            | inr (parts, f) ↦
                let ran' = rw (e, f) at ran in
                let same : started_with r c hex toml files d parts config keypair mailbox
                    ≡ started =
                  cc in
                subst IsListed same (
                  started_with-IsListed parts config keypair mailbox (pair keypair refl)
                    (subst (λ x. IsAddress x.config.listen_addr) (sym same) address) e)
          ]
        ]

    with_config-IsListed :
        (loaded : Result (RelayError files.IoError toml.Error) RelayConfig)
        (started : Started r c d) (s s' : r.State)
        → with_config r c hex toml files d overflow_checks network loaded s ≡ some (ok started, s')
        → IsAddress started.config.listen_addr
        → IsListed started
    unfolding with_config
    with_config-IsListed (err e) started s s' ran address = cc
    with_config-IsListed (ok config) started s s' ran address =
        let result = relay_keypair r c hex config s in
        with_keypair-IsListed config result started s'
          (λ k e. relay_keypair-IsPair r c hex config s result.1 k (ap (λ x. (x, result.1)) e)) ran
          address

    -- A relay that `main` has started, whose listening address is a UTF-8 text of less than 65536 bytes
    -- with a port of 16 bits, runs with the keys of the entry that a client makes of its identity, as
    -- circuits ask of a relay; and from the address in its identity the client derives exactly the
    -- address of its mailbox, also where the sum for the port wraps around.
    pub start-IsListed :
        (path : Bytes) (fs : files.State) (started : Started r c d) (s s' : r.State)
        → start r c hex toml files d overflow_checks path fs network s ≡ some (ok started, s')
        → IsAddress started.config.listen_addr
        → IsListed started
    unfolding start
    start-IsListed path fs started s s' ran address =
        with_config-IsListed (load_config toml files path fs) started s s' ran address
