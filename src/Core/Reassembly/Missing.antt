-- ===== src/Core/Reassembly/Missing.antt =====
-- One entry that waits for the missing cells of a message.
use orf_veil.Prelude.{ℕ, suc, ◌+◌, ◌≡◌, ◌≢◌, ◌∙◌, arith}
use orf_veil.Prelude.{List, [], ◌∷◌, none, some, length, All, get_elem?, set, length-set}
use orf_veil.Prelude.Bytes.{Bytes}
use orf_veil.Core.Cell.{Cell, real_payload}
use orf_veil.Core.Reassembly.{PartialMessage, store_fragment}
use orf_veil.Core.Reassembly.Invariant.{IsPending, count_some, count_some-set}
use orf_veil.Core.Reassembly.Slots.{Agrees, set-Agrees, get_elem?-set_ne}

-- No two cells have the same index.
abbrev pub Distinct : List Cell → Type 0
Distinct [] = Unit {0}
Distinct (c ∷ cells) = All (λ d. c.seq_index ≢ d.seq_index) cells × Distinct cells

module _ (parts : List Bytes) where
  -- A cell of the message, whose slot is still empty.
  pub record IsMissing (p : PartialMessage) (c : Cell) : Type 0 where
    pub total : c.seq_total ≡ length parts
    pub part : get_elem? parts c.seq_index ≡ some (real_payload c)
    pub empty : get_elem? p.fragments c.seq_index ≡ some none

  -- An entry that waits for the given number of cells of the message.
  pub record IsWaiting (p : PartialMessage) (missing : ℕ) : Type 0 where
    pub pending : IsPending p
    pub total : p.seq_total ≡ length parts
    pub agrees : Agrees p.fragments parts
    pub rest : count_some p.fragments + missing ≡ length parts

  abbrev pub after_store : PartialMessage → Cell → PartialMessage
  after_store p c = record p {
    received = p.received + 1;
    fragments = set p.fragments c.seq_index (some (real_payload c));
  }

  pub store_missing :
      (p : PartialMessage) (c : Cell)
      → IsMissing p c
      → store_fragment c.seq_index (real_payload c) p ≡ some (after_store p c)
  unfolding store_fragment
  store_missing p c m = rw (m.empty, store_fragment)

  pub after_store-count :
      (p : PartialMessage) (c : Cell)
      → IsMissing p c
      → count_some (after_store p c).fragments ≡ count_some p.fragments + 1
  after_store-count p c m = count_some-set p.fragments c.seq_index (real_payload c) m.empty

  -- One more cell, and the entry waits for the others.
  pub after_store-IsWaiting :
      (p : PartialMessage) (c : Cell) (n : ℕ)
      → IsMissing p c
      → IsWaiting p (suc (suc n))
      → IsWaiting (after_store p c) (suc n)
  after_store-IsWaiting p c n m w = record {
    pending = record {
      sound = record {
        slots = length-set p.fragments c.seq_index (some (real_payload c)) ∙ w.pending.sound.slots;
        counted = omega (arith, after_store-count p c m, w.pending.sound.counted);
      };
      incomplete = omega (arith, w.pending.sound.counted, w.rest, w.total);
    };
    total = w.total;
    agrees = set-Agrees p.fragments parts c.seq_index (real_payload c) m.part w.agrees;
    rest = omega (arith, after_store-count p c m, w.rest);
  }

  -- The other missing cells stay missing.
  pub after_store-IsMissing :
      (p : PartialMessage) (c : Cell) (cells : List Cell)
      → All (λ d. c.seq_index ≢ d.seq_index) cells
      → All (IsMissing p) cells
      → All (IsMissing (after_store p c)) cells
  after_store-IsMissing p c [] h m = tt
  after_store-IsMissing p c (d ∷ cells) h m = (
    record {
      total = m.0.total;
      part = m.0.part;
      empty =
          get_elem?-set_ne p.fragments c.seq_index d.seq_index (some (real_payload c)) h.0
          ∙ m.0.empty;
    },
    after_store-IsMissing p c cells h.1 m.1,
  )
