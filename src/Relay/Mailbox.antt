-- ===== src/Relay/Mailbox.antt =====
-- crates/veil-relay/src/mailbox.rs: the queue of delivered cells. A method that holds the lock is one
-- step on the state; clones share it.
use orf_veil.Prelude.{ℕ, ◌==◌, ◌≡◌, refl, ap, ◌∙◌, Bool, List, [], ◌∷◌, ◌++◌, length}
use orf_veil.Prelude.Bytes.{Bytes}
use mathlib.Core.List.{append_assoc, append-nil}

pub record Mailbox : Type 0 where
  pub queue : List Bytes

-- `Mailbox::new`
abbrev pub new_mailbox : Mailbox
new_mailbox = record { queue = [] }

unfoldable pub push : Bytes → Mailbox → Mailbox
push cell mailbox = record { queue = mailbox.queue ++ (cell ∷ []) }

unfoldable pub drain : Mailbox → List Bytes × Mailbox
drain mailbox = (mailbox.queue, new_mailbox)

abbrev pub mailbox_len : Mailbox → ℕ
mailbox_len mailbox = length mailbox.queue

abbrev pub mailbox_is_empty : Mailbox → Bool
mailbox_is_empty mailbox = mailbox_len mailbox == 0

-- The task of the relay's `main` that pushes each delivered cell, one after the other.
unfoldable pub push_all : List Bytes → Mailbox → Mailbox
push_all [] mailbox = mailbox
push_all (cell ∷ cells) mailbox = push_all cells (push cell mailbox)

-- A drain returns what was there and then what was pushed, in order, and leaves an empty mailbox: the
-- next drain returns nothing of it again.
pub drain-push_all :
    (cells : List Bytes) (mailbox : Mailbox)
    → drain (push_all cells mailbox) ≡ (mailbox.queue ++ cells, new_mailbox)
unfolding drain push push_all
drain-push_all [] mailbox = rw append-nil refl
drain-push_all (cell ∷ cells) mailbox =
    drain-push_all cells (push cell mailbox)
    ∙ ap (λ q. (q, new_mailbox)) (append_assoc mailbox.queue (cell ∷ []) cells)

-- The deliveries of the relay and the requests of its clients, in the order in which they get the lock.
pub data MailboxOp : Type 0 where
  push_op : Bytes → MailboxOp
  drain_op : MailboxOp

-- What the drains return, one after the other, and the mailbox at the end.
unfoldable pub run_mailbox : List MailboxOp → Mailbox → List Bytes × Mailbox
unfolding push drain
run_mailbox [] mailbox = ([], mailbox)
run_mailbox (push_op cell ∷ ops) mailbox = run_mailbox ops (push cell mailbox)
run_mailbox (drain_op ∷ ops) mailbox =
    let (cells, mailbox') = drain mailbox in
    let (later, mailbox'') = run_mailbox ops mailbox' in (cells ++ later, mailbox'')

unfoldable pub pushed : List MailboxOp → List Bytes
pushed [] = []
pushed (push_op cell ∷ ops) = cell ∷ pushed ops
pushed (drain_op ∷ ops) = pushed ops

-- In whatever order pushes and drains come, what the drains returned and then what is left is what was
-- there and then what was pushed: no cell is lost, returned twice, or returned out of order.
pub run_mailbox-pushed :
    (ops : List MailboxOp) (mailbox : Mailbox)
    → (run_mailbox ops mailbox).0 ++ (run_mailbox ops mailbox).1.queue ≡ mailbox.queue ++ pushed ops
unfolding run_mailbox pushed push drain
run_mailbox-pushed [] mailbox = rw append-nil refl
run_mailbox-pushed (push_op cell ∷ ops) mailbox =
    run_mailbox-pushed ops (push cell mailbox) ∙ append_assoc mailbox.queue (cell ∷ []) (pushed ops)
run_mailbox-pushed (drain_op ∷ ops) mailbox =
    let (later, mailbox') = run_mailbox ops new_mailbox in
    append_assoc mailbox.queue later mailbox'.queue
    ∙ ap (λ l. mailbox.queue ++ l) (run_mailbox-pushed ops new_mailbox)
