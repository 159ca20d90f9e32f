-- ===== src/Payload/Stream/RoundTrip.antt =====
-- A payload: encoder.go on the one side, decoder.go and its client on the other.
use go_socket_io.Prelude.{
  ℕ, zero, suc, ◌+◌, ◌≤◌, ◌<◌, ◌≡◌, refl, inl, inr, Bool, true, false, not, ◌&&◌, ◌==◌,
  if◌then◌else◌, none, some, List, [], ◌∷◌, Bool-cases, ◌++◌, Bytes, All, arith, length, ◌∙◌, ap,
}
use go_socket_io.Packet.{binary_frame}
use go_socket_io.Reader.{Err, eof, Source, from_bytes, read_byte}
use go_socket_io.Payload.Lengths.Reader.{read_text_len, read_len_loop}
use go_socket_io.Payload.Base64.{Base64}
use go_socket_io.Payload.Units.{unit_sum}
use go_socket_io.Payload.Decoder
use go_socket_io.Payload.Decoder.{
  Decoder, Outcome, done, drain_raw, read_all, drain_base64, drain_base64_of, decoded,
  set_next_reader, fed,
}
use go_socket_io.Payload.Stream.{
  Packet, send, send_all, IsSendable, at_packet, accept, receive_one, receive_all, receive,
  receive_from, when_ready, with_packet, fresh_decoder, ◌>>=◌,
}
use go_socket_io.Payload.Stream.Header.{set_next_reader-send}
use go_socket_io.Payload.Stream.Content.{at_end, read_all_content, read_all_end}

-- An empty source has no header, and the decoder lets go of it.
no_more :
    (d : Decoder) (support_binary : Bool)
    → Decoder.closed accept (
        set_next_reader
          (record d { raw = some (from_bytes [] eof) })
          (from_bytes [] eof)
          support_binary)
      ≡ done (none, record d { raw = none; limit = 0; base64 = false })
unfolding Decoder.closed set_next_reader Decoder.text_read Decoder.binary_read read_text_len
    read_len_loop read_byte
no_more d true = refl
no_more d false = refl

at_packet_fields :
    (c : Base64) (support_binary : Bool) (p : Packet) (rest : Bytes) (e : Err)
    → let d = at_packet c support_binary p rest e in
      (d.ft ≡ p.ft) × (d.pt ≡ p.pt) × (d.support_binary ≡ support_binary)
unfolding at_packet
at_packet_fields c support_binary p rest e = ground arith

module _ (c : Base64) (support_binary : Bool) (k : ℕ) (ks : List ℕ) where
  -- `Close` at the end of a packet moves on to the packet behind it.
  close_to_next :
      (p q : Packet) (rest : Bytes) (e : Err)
      → IsSendable c support_binary q
      → Decoder.close c
          (k ∷ ks)
          accept
          (at_end c support_binary p (send c support_binary q ++ rest) e)
        ≡ done (none, at_packet c support_binary q rest e)
  unfolding Decoder.close
  close_to_next p q rest e h =
      let d = at_end c support_binary p (send c support_binary q ++ rest) e in
      ap (Decoder.close_after accept) (read_all_end c k ks d d.base64)
      ∙ (ap
            (λ b.
              Decoder.closed accept
                (set_next_reader d (from_bytes (send c support_binary q ++ rest) e) b))
            (at_packet_fields c support_binary p _ e).2
          ∙ ap (Decoder.closed accept) (set_next_reader-send c support_binary q rest e d h))

  -- `Close` at the end of the last packet gives the source back.
  close_last :
      (p : Packet)
      → Decoder.close c (k ∷ ks) accept (at_end c support_binary p [] eof)
        ≡ done (
          none,
          record (at_packet c support_binary p [] eof) { raw = none; limit = 0; base64 = false },
        )
  unfolding Decoder.close
  close_last p =
      let d = at_end c support_binary p [] eof in
      ap (Decoder.close_after accept) (read_all_end c k ks d d.base64) ∙ no_more d d.support_binary

  abbrev pub after_last : Packet → Decoder
  after_last p = record (at_packet c support_binary p [] eof) {
    raw = none;
    limit = 0;
    base64 = false;
  }

  module _ (pos : All (λ n. 0 < n) (k ∷ ks)) where
    receive_one_of :
        (p : Packet) (rest : Bytes) (e : Err) {d : Decoder}
        → IsSendable c support_binary p
        → length p.content < length (k ∷ ks)
        → Decoder.close c (k ∷ ks) accept (at_end c support_binary p rest e) ≡ done (none, d)
        → receive_one c (k ∷ ks) (at_packet c support_binary p rest e) ≡ done (p, none, d)
    unfolding receive_one
    receive_one_of p rest e {d} h enough closing =
        let (same_ft, same_pt, _) = at_packet_fields c support_binary p rest e in
        rw (read_all_content c (k ∷ ks) support_binary p rest e h pos enough, ◌>>=◌)
          (rw (closing, ◌>>=◌)
            (λ i. done (record { ft = same_ft i; pt = same_pt i; content = p.content }, none, d)))

    abbrev last_of : Packet → List Packet → Packet
    last_of p [] = p
    last_of p (q ∷ qs) = last_of q qs

    abbrev Fits : Packet → Type 0
    Fits p = IsSendable c support_binary p × (length p.content < length (k ∷ ks))

    raw_at_packet :
        (p : Packet) (rest : Bytes) (e : Err)
        → (r : Source) × ((at_packet c support_binary p rest e).raw ≡ some r)
    unfolding at_packet
    raw_at_packet p rest e = elim (Bool-cases (not support_binary && p.ft == binary_frame)) [
      | inl t ↦ (from_bytes (c.encode p.content ++ rest) e, ap (λ (b : Bool). (pick b).raw) t)
      | inr t ↦ (from_bytes (p.content ++ rest) e, ap (λ (b : Bool). (pick b).raw) t)
    ]
      where
        pick : Bool → Decoder
        pick b =
            if b
            then record {
              raw = some (from_bytes (c.encode p.content ++ rest) e);
              limit = length (c.encode p.content);
              base64 = true;
              ft = p.ft;
              pt = p.pt;
              support_binary = support_binary;
            }
            else record {
              raw = some (from_bytes (p.content ++ rest) e);
              limit = unit_sum p.content;
              base64 = false;
              ft = p.ft;
              pt = p.pt;
              support_binary = support_binary;
            }

    receive_step :
        (fuel : ℕ) (d : Decoder) {r : Source} {p : Packet} {d' : Decoder}
        → d.raw ≡ some r
        → receive_one c (k ∷ ks) d ≡ done (p, none, d')
        → receive_all c (suc fuel) (k ∷ ks) d ≡ (receive_all c fuel (k ∷ ks) d' >>= with_packet p)
    unfolding receive_all
    receive_step fuel d known one =
        λ i. receive_from (receive_all c fuel (k ∷ ks)) d (known i) (one i)

    receive_all-send_all :
        (fuel : ℕ) (p : Packet) (ps : List Packet)
        → length ps + 2 ≤ fuel
        → Fits p
        → All Fits ps
        → receive_all c fuel
            (k ∷ ks)
            (at_packet c support_binary p (send_all c support_binary ps) eof)
          ≡ done (p ∷ ps, none, after_last (last_of p ps))
    unfolding send_all
    receive_all-send_all zero p ps b h hs = absurd (omega arith)
    receive_all-send_all (suc zero) p ps b h hs = absurd (omega arith)
    receive_all-send_all (suc (suc fuel)) p [] b h hs =
        receive_step (suc fuel) _ (raw_at_packet p [] eof).1
          (receive_one_of p [] eof h.0 h.1 (close_last p))
        ∙ unfold receive_all with_packet in refl
    receive_all-send_all (suc (suc fuel)) p (q ∷ qs) b h hs =
        let rest = send c support_binary q ++ send_all c support_binary qs in
        receive_step (suc fuel) _ (raw_at_packet p rest eof).1 (
          receive_one_of p rest eof h.0 h.1
            (close_to_next p q (send_all c support_binary qs) eof hs.0.0))
        ∙ ap (λ m. m >>= with_packet p)
            (receive_all-send_all (suc fuel) q qs (omega arith) hs.0 hs.1)
        ∙ unfold with_packet in refl

    -- The packets of a payload, at least one, are received as they were sent, and the source is given back,
    -- if each packet has one of the seven types and its content is text of whole UTF-8 characters (also where a
    -- transport for binary sends it in a binary frame) or, in a binary frame of a transport for text only, any bytes,
    -- the content, or its base64 text there, has less than 2^62 bytes, every read asks for a byte at least, there are more reads than any packet has bytes,
    -- and the fuel is two more than the packets behind the first.
    pub receive-send_all :
        (fuel : ℕ) (p : Packet) (ps : List Packet)
        → length ps + 2 ≤ fuel
        → Fits p
        → All Fits ps
        → (d : Decoder) × (receive c fuel
              (k ∷ ks)
              support_binary
              (from_bytes (send_all c support_binary (p ∷ ps)) eof)
            ≡ done (p ∷ ps, none, d))
          × (d.raw ≡ none)
    unfolding receive send_all Decoder.next_reader
    receive-send_all fuel p ps b h hs = (
      after_last (last_of p ps),
      ap (λ r. when_ready (receive_all c fuel (k ∷ ks)) (Decoder.report accept r))
            (set_next_reader-send c support_binary p (send_all c support_binary ps) eof
              fresh_decoder h.0)
          ∙ receive_all-send_all fuel p ps b h hs,
      refl,
    )
