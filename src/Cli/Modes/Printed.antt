-- ===== src/Cli/Modes/Printed.antt =====
-- What the program prints of the message, once the mailboxes hold its envelopes.
use orf_veil.Prelude.{List}
use orf_veil.Prelude.Bytes.{Bytes}
use orf_veil.Prelude.Result.{Result}
use orf_veil.External.Crypto.{Crypto}
use orf_veil.Core.Cell.{Cell}
use orf_veil.Sdk.Delivery.Sending
