-- ===== src/Cli/Modes/Text.antt =====
-- What the program prints of a text that fits one cell.
use orf_veil.Prelude.{List}
use orf_veil.Prelude.Bytes.{Bytes}
use orf_veil.Prelude.Result.{Result}
use orf_veil.External.Crypto.{Crypto}
use orf_veil.Core.Cell.{Cell}
