-- ===== src/Relay/PullListener/Requests.antt =====
-- What the client of a request gets is what the relay holds.
use orf_veil.Prelude.{
  ℕ, ◌<◌, ◌≡◌, refl, ap, sym, ◌∙◌, arith, true, List, [], ◌∷◌, ◌++◌, length, All, get_or,
}
use orf_veil.Prelude.Bytes.{Bytes, as_u16, as_u32, u16_to_be, u32_to_be}
use orf_veil.Prelude.Result.{ok, and_then, and_then-eq-ok}
use orf_veil.Prelude.Utf8.{is_utf8}
use orf_veil.External.Random.{Rng}
use orf_veil.External.Crypto.{Crypto, CryptoLaws}
use orf_veil.External.Stream.{Stream, StreamLaws}
use orf_veil.Relay.Framing.{write_frame}
use orf_veil.Relay.Framing.Pipe.{
  u32_of-to_be, read_front, in_transit-writes, frame, in_transit-write_frame, read_frame_front,
}
use orf_veil.Relay.Mailbox.{Mailbox, drain, new_mailbox}
use orf_veil.Relay.PullListener.{
  RelayIdentity, u16_of, write_frames, read_frames, write_len_prefixed, check_utf8,
  read_len_prefixed_string, respond_pull, pull_response, respond_describe, describe_response,
}
use mathlib.Core.List.{append_assoc, append-nil}

-- A frame's length fits its four bytes.
abbrev pub FitsFrame : Bytes → Type 0
FitsFrame cell = length cell < 4294967296

pub u16_of-to_be : (n : ℕ) → n < 65536 → u16_of (u16_to_be (as_u16 n)) ≡ n
unfolding u16_of get_or
u16_of-to_be n h = omega arith

module _ (t : Stream) (laws : StreamLaws t) where
  abbrev pub frames : List Bytes → Bytes
  frames [] = []
  frames (cell ∷ cells) = frame t laws cell ++ frames cells

  in_transit-write_frames :
      (cells : List Bytes) (s s' : t.State)
      → write_frames t cells s ≡ (ok tt, s')
      → t.in_transit s' ≡ t.in_transit s ++ frames cells
  unfolding write_frames
  in_transit-write_frames [] s s' h =
      let e : s ≡ s' = cc in ap t.in_transit (sym e) ∙ sym (append-nil (t.in_transit s))
  in_transit-write_frames (cell ∷ cells) s s' h =
      let (u, s1, first, next) =
        and_then-eq-ok (write_frame t cell s) (λ _ s'. write_frames t cells s') tt s' h in
      in_transit-write_frames cells s1 s' next
      ∙ ap (λ x. x ++ frames cells) (in_transit-write_frame t laws cell s s1 first)
      ∙ append_assoc (t.in_transit s) (frame t laws cell) (frames cells)

  read_frames_front :
      (cells : List Bytes) (rest : Bytes) (s : t.State)
      → All FitsFrame cells
      → t.in_transit s ≡ frames cells ++ rest
      → (s' : t.State) × (read_frames t (length cells) s ≡ (ok cells, s'))
        × (t.in_transit s' ≡ rest)
  unfolding read_frames
  read_frames_front [] rest s h e = (s, refl, e)
  read_frames_front (cell ∷ cells) rest s h e =
      let (s1, r1, e1) =
        read_frame_front t laws cell (frames cells ++ rest) s h.0
          (e ∙ append_assoc (frame t laws cell) (frames cells) rest) in
      let (s2, r2, e2) = read_frames_front cells rest s1 h.1 e1 in (s2, rw (r1, r2) refl, e2)

  -- When a relay answers a `PULL` without an error, on a stream with nothing in transit, the client
  -- gets exactly the cells of the mailbox, in order, and nothing is left in transit; the mailbox is
  -- empty. The number of cells and their lengths are below 2 ^ 32.
  pub pull_response-respond_pull :
      (mailbox : Mailbox) (s s1 : t.State)
      → length mailbox.queue < 4294967296
      → All FitsFrame mailbox.queue
      → t.in_transit s ≡ []
      → (respond_pull t mailbox s).0 ≡ (ok tt, s1)
      → (s2 : t.State) × (pull_response t s1 ≡ (ok mailbox.queue, s2))
        × (t.in_transit s2 ≡ [])
        × ((respond_pull t mailbox s).1 ≡ new_mailbox)
  unfolding respond_pull pull_response drain
  pull_response-respond_pull mailbox s s1 many fit empty h =
      let cells = mailbox.queue in
      let count = u32_to_be (as_u32 (length cells)) in
      let (u, s0, first, next) =
        and_then-eq-ok (t.write_all count s) (λ _ s'. write_frames t cells s') tt s1 h in
      let sent : t.in_transit s1 ≡ count ++ (frames cells ++ []) =
        in_transit-write_frames cells s0 s1 next
        ∙ ap (λ x. x ++ frames cells)
            (laws.in_transit-write_all count s s0 first ∙ ap (λ x. x ++ count) empty)
        ∙ ap (λ x. count ++ x) (sym (append-nil (frames cells))) in
      let (s2, r2, e2) = read_front t laws count (frames cells ++ []) s1 sent in
      let (s3, r3, e3) = read_frames_front cells [] s2 fit e2 in
      (s3, rw (r2, u32_of-to_be (length cells) many) r3, e3, refl)

  abbrev prefixed : Bytes → Bytes
  prefixed bytes = u16_to_be (as_u16 (length bytes)) ++ bytes

  read_string_front :
      (bytes rest : Bytes) (s : t.State)
      → is_utf8 bytes ≡ true
      → length bytes < 65536
      → t.in_transit s ≡ prefixed bytes ++ rest
      → (s' : t.State) × (read_len_prefixed_string t s ≡ (ok bytes, s')) × (t.in_transit s' ≡ rest)
  unfolding read_len_prefixed_string check_utf8
  read_string_front bytes rest s text h e =
      let len = u16_to_be (as_u16 (length bytes)) in
      let (s1, r1, e1) =
        read_front t laws len (bytes ++ rest) s (e ∙ append_assoc len bytes rest) in
      let (s2, r2, e2) = read_front t laws bytes rest s1 e1 in
      (s2, rw (r1, u16_of-to_be (length bytes) h, r2, text) refl, e2)

  in_transit-write_len_prefixed :
      (bytes : Bytes) (s s' : t.State)
      → write_len_prefixed t bytes s ≡ (ok tt, s')
      → t.in_transit s' ≡ t.in_transit s ++ prefixed bytes
  unfolding write_len_prefixed
  in_transit-write_len_prefixed bytes s s' h =
      in_transit-writes t laws (u16_to_be (as_u16 (length bytes))) bytes s s' h

  module _ (r : Rng) (c : Crypto r) (crypto : CryptoLaws r c) (identity : RelayIdentity r c) where
    -- The texts are UTF-8 and fit their length fields.
    pub record IsDescribable : Type 0 where
      pub id_text : is_utf8 identity.id ≡ true
      pub id_fits : length identity.id < 65536
      pub addr_text : is_utf8 identity.main_addr ≡ true
      pub addr_fits : length identity.main_addr < 65536

    abbrev key : Bytes
    key = c.public_as_bytes identity.public_key

    in_transit-respond_describe :
        (s s' : t.State)
        → t.in_transit s ≡ []
        → respond_describe r c t identity s ≡ (ok tt, s')
        → t.in_transit s' ≡ prefixed identity.id ++ (key ++ (prefixed identity.main_addr ++ []))
    unfolding respond_describe
    in_transit-respond_describe s s' empty h =
        let (u, s1, first, rest) =
          and_then-eq-ok (write_len_prefixed t identity.id s)
            (λ _ s1.
              and_then (t.write_all key s1) (λ _ s2. write_len_prefixed t identity.main_addr s2))
            tt s' h in
        let (v, s2, second, last) =
          and_then-eq-ok (t.write_all key s1) (λ _ s2. write_len_prefixed t identity.main_addr s2)
            tt s' rest in
        let a = prefixed identity.id in
        let b = prefixed identity.main_addr in
        in_transit-write_len_prefixed identity.main_addr s2 s' last
        ∙ ap (λ x. x ++ b)
            (laws.in_transit-write_all key s1 s2 second
              ∙ ap (λ x. x ++ key)
                  (in_transit-write_len_prefixed identity.id s s1 first ∙ ap (λ x. x ++ a) empty))
        ∙ append_assoc a key b
        ∙ ap (λ x. a ++ (key ++ x)) (sym (append-nil b))

    -- When a relay whose id and address are UTF-8 of less than 65536 bytes answers a `DESCRIBE`
    -- without an error, on a stream with nothing in transit, the client gets exactly its identity,
    -- and nothing is left in transit.
    pub describe_response-respond_describe :
        (s s1 : t.State)
        → IsDescribable
        → t.in_transit s ≡ []
        → respond_describe r c t identity s ≡ (ok tt, s1)
        → (s2 : t.State) × (describe_response r c t s1 ≡ (ok identity, s2)) × (t.in_transit s2 ≡ [])
    unfolding describe_response
    describe_response-respond_describe s s1 d empty h =
        let sent = in_transit-respond_describe s s1 empty h in
        let n = crypto.length-public_as_bytes identity.public_key in
        let (s2, r2, e2) =
          read_string_front identity.id (key ++ (prefixed identity.main_addr ++ [])) s1 d.id_text
            d.id_fits sent in
        let (s3, r3, e3) = read_front t laws key (prefixed identity.main_addr ++ []) s2 e2 in
        let (s4, r4, e4) = read_string_front identity.main_addr [] s3 d.addr_text d.addr_fits e3 in
        let r3' : t.read_exact 32 s2 ≡ (ok key, s3) = rw n at r3 in
        (s4, rw (r2, r3', r4, crypto.public_from_bytes-as_bytes identity.public_key) refl, e4)
