-- ===== src/Cli/Mailboxes.antt =====
-- `mailbox_address_from` of crates/veil-cli/src/main.rs: the client finds the mailbox of a relay by the
-- convention of the relay's `main`.
use orf_veil.Prelude.{
  ℕ, ◌<◌, ◌≡◌, refl, arith, [], ◌∷◌, ◌++◌, Bool, false, Option, none, some, ◌==◌, if◌then◌else◌,
  All,
}
use orf_veil.Prelude.Bytes.{Bytes}
use orf_veil.Prelude.Decimal.{decimal, parse_uint, IsDigit, decimal-IsDigit, parse_uint-decimal}
use orf_veil.Relay.Address.{SocketAddr, addr_text, add_u16, mailbox_addr}
use mathlib.Core.Option

-- `addr.rsplit_once(':')`
unfoldable pub rsplit_once : Bytes → Option (Bytes × Bytes)
rsplit_once [] = none
rsplit_once (b ∷ bs) = elim (rsplit_once bs) [
  | some (host, port) ↦ some (b ∷ host, port)
  | none ↦ if b == 58 then some ([], bs) else none
]

-- `format!("{host}:{}", port + 1000)`; `none` is the panic of the sum.
unfoldable pub with_mailbox_port : Bool → Bytes → ℕ → Option Bytes
with_mailbox_port overflow_checks host port =
    Option.map (λ p. host ++ (58 ∷ decimal p)) (add_u16 overflow_checks port 1000)

-- `mailbox_address_from`: `none` is a panic, of an address without a colon, of a port that is no
-- `u16`, or of the sum.
unfoldable pub mailbox_address_from : Bool → Bytes → Option Bytes
unfolding rsplit_once with_mailbox_port
mailbox_address_from overflow_checks addr = Option.bind (rsplit_once addr) (λ (host, port_str).
    Option.bind (parse_uint 65536 port_str) (λ port. with_mailbox_port overflow_checks host port))

rsplit_once_digits : (s : Bytes) → All IsDigit s → rsplit_once s ≡ none
unfolding rsplit_once
rsplit_once_digits [] h = refl
rsplit_once_digits (b ∷ bs) h =
    let plain : (b == 58) ≡ false = ground (arith, h.0) in
    rw (rsplit_once_digits bs h.1, plain) refl

rsplit_once-append :
    (host port : Bytes) → All IsDigit port → rsplit_once (host ++ (58 ∷ port)) ≡ some (host, port)
unfolding rsplit_once
rsplit_once-append [] port h = rw (rsplit_once_digits port h) refl
rsplit_once-append (b ∷ bs) port h = rw (rsplit_once-append bs port h) refl

-- From the address that a relay publishes the client derives the address that the relay listens on
-- for its mailbox: in both builds, and for every port, also where the sum overflows.
pub mailbox_address_from-addr_text :
    (overflow_checks : Bool) (addr : SocketAddr)
    → addr.port < 65536
    → mailbox_address_from overflow_checks (addr_text addr)
      ≡ Option.map addr_text (mailbox_addr overflow_checks addr)
unfolding mailbox_address_from with_mailbox_port addr_text mailbox_addr Option.bind
mailbox_address_from-addr_text overflow_checks addr h =
    rw
      (
        rsplit_once-append addr.ip (decimal addr.port) (decimal-IsDigit addr.port),
        parse_uint-decimal 65536 addr.port h h,
      )
      (map-addr_text (add_u16 overflow_checks addr.port 1000))
  where
    map-addr_text :
        (o : Option ℕ)
        → Option.map (λ p. addr.ip ++ (58 ∷ decimal p)) o
          ≡ Option.map addr_text (Option.map (λ p. record addr { port = p }) o)
    map-addr_text none = refl
    map-addr_text (some p) = refl
