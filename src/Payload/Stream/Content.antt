-- ===== src/Payload/Stream/Content.antt =====
-- The reads of a client, in engineio/payload/decoder.go, on the content of one packet.
use native.Mathlib.Nat.{zero-add}
use go_socket_io.Prelude.{
  ℕ, suc, ◌-◌, ◌^◌, ◌<◌, ◌≡◌, refl, inl, inr, Bool, true, false, none, some, List, [], ◌∷◌, ◌++◌,
  Bytes, All, arith, length, ltb, ◌∙◌, ap, sym, take_of_append, drop_of_append,
}
use go_socket_io.Packet.{string_frame, binary_frame}
use go_socket_io.Payload.Lengths.{not_positive}
use go_socket_io.Reader.{Err, from_bytes}
use go_socket_io.Payload.Base64.{Base64}
use go_socket_io.Payload.Units.{IsText, unit_sum}
use go_socket_io.Payload.Decoder
use go_socket_io.Payload.Decoder.{
  Decoder, Outcome, done, drain_raw, read_all, drain_base64, drain_base64_of, decoded,
  set_next_reader, fed,
}
use go_socket_io.Payload.Decoder.Text.{drain_raw-text}
use go_socket_io.Payload.Stream.{Packet, IsSendable, at_packet}
use go_socket_io.Payload.Stream.Header.{with_type}

-- The decoder when a packet has been read to its end.
abbrev pub at_end : Base64 → Bool → Packet → Bytes → Err → Decoder
at_end c support_binary p rest e = record (at_packet c support_binary p rest e) {
  raw = some (from_bytes rest e);
  limit = 0;
}

pub positive : (n : ℕ) → suc n < 2 ^ 62 → not_positive (suc n) ≡ false
positive n h = ground arith

module _ (c : Base64) (sizes : List ℕ) where
  pub read_plain :
      (support_binary : Bool) (ft pt : ℕ) (content rest : Bytes) (e : Err)
      → All (λ k. 0 < k) sizes
      → IsText 0 content
      → length content < 2 ^ 62
      → length content < length sizes
      → let d : Decoder = record {
        raw = some (from_bytes (content ++ rest) e);
        limit = unit_sum content;
        base64 = false;
        ft = ft;
        pt = pt;
        support_binary = support_binary;
      } in
        read_all c sizes d
        ≡ done (content, none, record d { raw = some (from_bytes rest e); limit = 0 })
  unfolding read_all
  read_plain support_binary ft pt content rest e pos t fits enough =
      let d : Decoder = record {
        raw = none;
        limit = 0;
        base64 = false;
        ft = ft;
        pt = pt;
        support_binary = support_binary;
      } in
      ap
        (λ n.
          drain_raw sizes (record d { raw = some (from_bytes (content ++ rest) e); limit = n }) [])
        (sym (zero-add (unit_sum content)))
      ∙ (drain_raw-text sizes 0 content rest e d [] pos enough t (omega arith)
          ∙ unfold unit_sum in refl)

  pub decoded_lem :
      (input : Bytes) {out : Bytes} (d : Decoder)
      → c.decode input ≡ some out
      → decoded c input d ≡ done (out, none, d)
  unfolding decoded
  decoded_lem input d h = rw (h, decoded)

  pub taken_whole :
      (coded rest : Bytes) {content : Bytes} (e : Err) (d : Decoder)
      → c.decode coded ≡ some content
      → drain_base64_of c (length coded) (from_bytes (coded ++ rest) e) d
        ≡ done (content, none, record d { raw = some (from_bytes rest e); limit = 0 })
  unfolding drain_base64_of
  taken_whole coded rest e d h =
      rw (take_of_append coded rest, drop_of_append coded rest, same, none_left)
        (decoded_lem coded _ h)
    where
      none_left : length coded - length coded ≡ 0
      none_left = omega arith

      same : ltb (length coded) (length coded) ≡ false
      same = ground arith

  pub read_coded :
      (coded rest : Bytes) {content : Bytes} (pt : ℕ) (e : Err)
      → c.decode coded ≡ some content
      → length coded < 2 ^ 62
      → let d : Decoder = record {
        raw = some (from_bytes (coded ++ rest) e);
        limit = length coded;
        base64 = true;
        ft = binary_frame;
        pt = pt;
        support_binary = false;
      } in
        read_all c sizes d
        ≡ done (content, none, record d { raw = some (from_bytes rest e); limit = 0 })
  unfolding read_all drain_base64
  read_coded [] rest pt e h fits = decoded_lem [] _ h
  read_coded (b ∷ bs) rest pt e h fits = rw (positive (length bs) fits) (
      taken_whole (b ∷ bs) rest e
        (record {
          raw = some (from_bytes ((b ∷ bs) ++ rest) e);
          limit = length (b ∷ bs);
          base64 = true;
          ft = binary_frame;
          pt = pt;
          support_binary = false;
        })
        h)

  -- The reads of a client get the whole content of a packet, and nothing of what follows it.
  pub read_all_content :
      (support_binary : Bool) (p : Packet) (rest : Bytes) (e : Err)
      → IsSendable c support_binary p
      → All (λ k. 0 < k) sizes
      → length p.content < length sizes
      → read_all c sizes (at_packet c support_binary p rest e)
        ≡ done (p.content, none, at_end c support_binary p rest e)
  read_all_content false p rest e (hp, inl (hf, t, fits)) pos enough =
      rw (with_type p string_frame hf)
        (unfold at_packet in read_plain false string_frame p.pt p.content rest e pos t fits enough)
  read_all_content false p rest e (hp, inr (hf, bytes, fits)) pos enough =
      rw (with_type p binary_frame hf) (
        unfold at_packet in
        read_coded (c.encode p.content) rest p.pt e (c.decode-encode p.content bytes) fits)
  read_all_content true p rest e (hp, inl (hf, t, fits)) pos enough =
      unfold at_packet in read_plain true p.ft p.pt p.content rest e pos t fits enough
  read_all_content true p rest e (hp, inr (hf, t, fits)) pos enough =
      unfold at_packet in read_plain true p.ft p.pt p.content rest e pos t fits enough

-- At the end of a packet a client reads nothing more.
pub read_all_end :
    (c : Base64) (k : ℕ) (ks : List ℕ) (d : Decoder) (coded : Bool)
    → read_all c (k ∷ ks) (record d { limit = 0; base64 = coded })
      ≡ done ([], none, record d { limit = 0; base64 = coded })
unfolding read_all drain_raw drain_base64 Decoder.read_raw
read_all_end c k ks d true =
    decoded_lem c (k ∷ ks) [] (record d { limit = 0; base64 = true }) c.decode-nil
read_all_end c k ks d false = refl
