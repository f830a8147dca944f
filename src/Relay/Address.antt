-- ===== src/Relay/Address.antt =====
-- Socket addresses and the convention of the mailbox port. A `SocketAddr` is the text of its address,
-- which a V6 address has in brackets, and its port.
use orf_veil.Prelude.{
  ℕ, ◌+◌, ◌%◌, ◌∷◌, ◌++◌, Bool, true, false, Option, none, some, ltb, if◌then◌else◌,
}
use orf_veil.Prelude.Bytes.{Bytes}
use orf_veil.Prelude.Decimal.{decimal}
use mathlib.Core.Option

pub record SocketAddr : Type 0 where
  pub ip : Bytes
  pub port : ℕ

-- `SocketAddr::to_string`
unfoldable pub addr_text : SocketAddr → Bytes
addr_text addr = addr.ip ++ (58 ∷ decimal addr.port)

-- The addition of two `u16`: with the overflow checks of a debug build it panics, which is `none`;
-- without them it wraps around.
unfoldable pub add_u16 : Bool → ℕ → ℕ → Option ℕ
add_u16 true a b = if ltb (a + b) 65536 then some (a + b) else none
add_u16 false a b = some ((a + b) % 65536)

-- `mailbox_addr.set_port(mailbox_addr.port() + 1000)`
unfoldable pub mailbox_addr : Bool → SocketAddr → Option SocketAddr
unfolding add_u16
mailbox_addr overflow_checks listen_addr =
    Option.map (λ port. record listen_addr { port = port })
      (add_u16 overflow_checks listen_addr.port 1000)
