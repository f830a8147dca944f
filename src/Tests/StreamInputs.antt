-- ===== src/Tests/StreamInputs.antt =====
-- The theorems on frames, requests and the mailbox at concrete inputs.
use orf_veil.Prelude.{List, some, suc, ◌+◌}
use orf_veil.Prelude.{
  ◌≡◌, refl, arith, Bool, true, false, [], ◌∷◌, ◌++◌, leb, if◌then◌else◌, length, take, drop,
  replicate, get_or,
}
use orf_veil.Prelude.Bytes.{Bytes}
use orf_veil.Prelude.Result.{ok, err, map_err}
use orf_veil.Prelude.Utf8.{is_utf8}
use orf_veil.External.Stream.{Stream, StreamLaws, ClosedLaws}
use orf_veil.Relay.Framing.{write_frame, read_frame, u32_of}
use orf_veil.Core.Crypto.Keys.{KeyPair}
use orf_veil.Relay.Forwarding.{peel_onion_layer}
use orf_veil.Relay.Node.{RelayNode, handle_frame, handle_connection}
use orf_veil.Relay.Node.Reading.{Outcome, forward_failed, read_loop}
use orf_veil.Relay.Node.Reading.Total.{read_loop_total}
use orf_veil.Relay.Node.Reading.Frames.{read_loop-handle_connection}
use orf_veil.Tests.NodeInputs.{log_dialer, fresh_node}
use orf_veil.Relay.Mailbox.{Mailbox, drain, new_mailbox, push}
use orf_veil.Relay.PullListener.Serving.{asks_pull, Serves, Serves-once}
use orf_veil.Relay.PullListener.{
  RelayIdentity, Served, pull_request, describe_request, dispatch, handle_read, handle_request,
  write_frames, write_len_prefixed, respond_pull, pull_response, respond_describe,
  describe_response, read_frames,
}
use orf_veil.Relay.PullListener.Requests.{frames}
use orf_veil.Relay.PullListener.Exchange.{
  IsQuiet, pull_response-handle_request, describe_response-handle_request,
}
use orf_veil.Tests.World.{rng, crypto, crypto_laws, key_bytes}

-- A pipe in memory, which never fails to write.
abbrev pipe : Stream
pipe = record {
  State = Bytes;
  IoError = Bool;
  write_all = λ bytes s. (ok tt, s ++ bytes);
  read_exact = λ n s. if leb n (length s) then (ok (take n s), drop n s) else (err false, s);
  in_transit = λ s. s;
}

abbrev pipe_laws : StreamLaws pipe
pipe_laws = record {
  in_transit-write_all = λ bytes s s' h. cc;
  read_exact_ready = λ n s h. (drop n s, ground arith, refl);
}

abbrev pipe_closed : ClosedLaws pipe
pipe_closed = record {
  IsClosed = λ s. Unit {0};
  read_exact_short = λ n s shut short. (false, s, ground (arith, short));
  read_exact-IsClosed = λ n s shut. tt;
}

abbrev mailbox : Mailbox
mailbox = record { queue = (7 ∷ []) ∷ (8 ∷ 9 ∷ []) ∷ [] }

abbrev pulled : Bytes
pulled = 0 ∷ 0 ∷ 0 ∷ 2 ∷ 0 ∷ 0 ∷ 0 ∷ 1 ∷ 7 ∷ 0 ∷ 0 ∷ 0 ∷ 2 ∷ 8 ∷ 9 ∷ []

abbrev identity : RelayIdentity rng crypto
identity = record { id = 97 ∷ []; public_key = true; main_addr = 98 ∷ 58 ∷ 49 ∷ [] }

abbrev described : Bytes
described = (0 ∷ 1 ∷ 97 ∷ []) ++ (key_bytes true ++ (0 ∷ 3 ∷ 98 ∷ 58 ∷ 49 ∷ []))

id_text : is_utf8 (97 ∷ []) ≡ true
unfolding is_utf8
id_text = refl

addr_text : is_utf8 (98 ∷ 58 ∷ 49 ∷ []) ≡ true
unfolding is_utf8
addr_text = refl

-- A quiet connection to a relay with two cells.
abbrev before : Served rng crypto pipe
before = record { to_server = []; to_client = []; mailbox = mailbox }

quiet : IsQuiet rng crypto pipe pipe_laws identity before
quiet = record { nothing_asked = refl; nothing_answered = refl }

abbrev after_pull : Served rng crypto pipe
after_pull = record { to_server = []; to_client = pulled; mailbox = new_mailbox }

pull_asked : pull_request pipe [] ≡ (ok tt, 1 ∷ [])
unfolding pull_request
pull_asked = refl

pull_handled :
    handle_request rng crypto pipe identity (record before { to_server = 1 ∷ [] })
    ≡ (ok tt, after_pull)
unfolding handle_request handle_read dispatch respond_pull drain write_frames write_frame take drop
    get_or
pull_handled = refl

pull_response-handle_request_example :
    (s' : Bytes) × (pull_response pipe pulled ≡ (ok ((7 ∷ []) ∷ (8 ∷ 9 ∷ []) ∷ []), s'))
    × (after_pull.mailbox ≡ new_mailbox)
    × IsQuiet rng crypto pipe pipe_laws identity (record after_pull { to_client = s' })
pull_response-handle_request_example =
    pull_response-handle_request rng crypto pipe pipe_laws identity before after_pull (1 ∷ [])
      (omega arith) (omega arith, (omega arith, tt)) quiet pull_asked pull_handled

abbrev after_describe : Served rng crypto pipe
after_describe = record { to_server = []; to_client = described; mailbox = mailbox }

describe_asked : describe_request pipe [] ≡ (ok tt, 2 ∷ [])
unfolding describe_request
describe_asked = refl

describe_handled :
    handle_request rng crypto pipe identity (record before { to_server = 2 ∷ [] })
    ≡ (ok tt, after_describe)
unfolding handle_request handle_read dispatch respond_describe write_len_prefixed key_bytes
    replicate take drop get_or
describe_handled = refl

describe_response-handle_request_example :
    (s' : Bytes) × (describe_response rng crypto pipe described ≡ (ok identity, s'))
    × (after_describe.mailbox ≡ mailbox)
    × IsQuiet rng crypto pipe pipe_laws identity (record after_describe { to_client = s' })
describe_response-handle_request_example =
    describe_response-handle_request rng crypto pipe pipe_laws identity crypto_laws before
      after_describe (2 ∷ [])
      (record {
        id_text = id_text;
        id_fits = omega arith;
        addr_text = addr_text;
        addr_fits = omega arith;
      })
      quiet describe_asked describe_handled

not_pull : asks_pull rng crypto pipe identity (ok (2 ∷ [])) ≡ false
unfolding asks_pull get_or
not_pull = refl

response_read : pull_response pipe pulled ≡ (ok mailbox.queue, [])
unfolding pull_response read_frames read_frame take drop get_or u32_of
response_read = refl

-- A delivery between a client that asks for the identity and one that pulls.
serves :
    Serves rng crypto pipe identity pipe_laws
      ((5 ∷ []) ∷ [])
      mailbox
      (mailbox.queue ++ [])
      (record { queue = (5 ∷ []) ∷ [] })
unfolding push take drop
serves =
    Serves.ignores (record before { to_server = 2 ∷ [] }) after_describe (ok tt) not_pull
      describe_handled
      (Serves.answers before after_pull mailbox.queue (1 ∷ []) [] (omega arith)
        (omega arith, (omega arith, tt)) quiet pull_asked pull_handled response_read
        (Serves.delivers Serves.stops))

Serves-once_example : (mailbox.queue ++ []) ++ ((5 ∷ []) ∷ []) ≡ mailbox.queue ++ ((5 ∷ []) ∷ [])
Serves-once_example = Serves-once rng crypto pipe identity pipe_laws serves

abbrev relay_keys : KeyPair rng crypto
relay_keys = record { secret = true; public = true }

-- Two frames that do not peel, and a third of which two of four bytes arrive.
abbrev two_frames : List Bytes
two_frames = [] ∷ (1 ∷ []) ∷ []

abbrev part_of_frame : Bytes
part_of_frame = 0 ∷ 0 ∷ 0 ∷ 4 ∷ 7 ∷ 8 ∷ []

abbrev two_failures : RelayNode log_dialer
two_failures = record fresh_node { metrics = record fresh_node.metrics { decrypt_failures = 2 } }

two_handled :
    handle_connection log_dialer rng crypto relay_keys two_frames fresh_node ≡ (ok tt, two_failures)
unfolding handle_connection handle_frame peel_onion_layer
two_handled = refl

read_loop_total_example :
    (out : Outcome pipe log_dialer rng crypto relay_keys × (Bytes × RelayNode log_dialer))
    × (read_loop pipe log_dialer rng crypto relay_keys 7 part_of_frame fresh_node ≡ some out)
read_loop_total_example =
    read_loop_total pipe pipe_laws pipe_closed log_dialer rng crypto relay_keys 7 part_of_frame
      fresh_node tt (omega arith)

read_loop-handle_connection_example :
    (s' : Bytes) × (read_loop pipe log_dialer rng crypto relay_keys
        (2 + suc 0)
        (frames pipe pipe_laws two_frames ++ (9 ∷ []))
        fresh_node
      ≡ some (
        map_err
            (λ e. forward_failed e)
            (handle_connection log_dialer rng crypto relay_keys two_frames fresh_node).0,
        (s', (handle_connection log_dialer rng crypto relay_keys two_frames fresh_node).1),
      ))
read_loop-handle_connection_example =
    read_loop-handle_connection pipe pipe_laws pipe_closed log_dialer rng crypto relay_keys 0
      two_frames (9 ∷ []) (frames pipe pipe_laws two_frames ++ (9 ∷ [])) fresh_node
      (omega arith, (omega arith, tt)) (omega arith) refl tt
