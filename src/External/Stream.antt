-- ===== src/External/Stream.antt =====
-- A byte stream of `tokio`: one direction of a connection, with the bytes that are on their way.
use orf_veil.Prelude.{ℕ, ◌≤◌, ◌<◌, ◌≡◌, ◌++◌, length, take, drop}
use orf_veil.Prelude.Bytes.{Bytes}
use orf_veil.Prelude.Result.{Result, ok, err}

-- `AsyncWriteExt::write_all` and `AsyncReadExt::read_exact` into a buffer of the given size.
pub record Stream : Type 1 where
  pub State : Type 0
  pub IoError : Type 0
  pub write_all : Bytes → State → Result IoError (Unit {0}) × State
  pub read_exact : ℕ → State → Result IoError Bytes × State
  -- The bytes that are written and not yet read.
  pub in_transit : State → Bytes

-- What is written without an error is appended; a read for which the bytes are there takes them off
-- the front.
pub record StreamLaws (t : Stream) : Type 0 where
  pub in_transit-write_all :
      (bytes : Bytes) (s s' : t.State)
      → t.write_all bytes s ≡ (ok tt, s')
      → t.in_transit s' ≡ t.in_transit s ++ bytes
  pub read_exact_ready :
      (n : ℕ) (s : t.State)
      → n ≤ length (t.in_transit s)
      → (s' : t.State) × (t.read_exact n s ≡ (ok (take n (t.in_transit s)), s'))
        × (t.in_transit s' ≡ drop n (t.in_transit s))

-- The peer has closed its side: a read for more bytes than are left is an error (`UnexpectedEof`), and
-- no read opens the stream again.
pub record ClosedLaws (t : Stream) : Type 1 where
  pub IsClosed : t.State → Type 0
  pub read_exact_short :
      (n : ℕ) (s : t.State)
      → IsClosed s
      → length (t.in_transit s) < n
      → (e : t.IoError) × (s' : t.State) × (t.read_exact n s ≡ (err e, s'))
  pub read_exact-IsClosed : (n : ℕ) (s : t.State) → IsClosed s → IsClosed (t.read_exact n s).1
