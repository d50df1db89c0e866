-- ===== src/Example/Emit.antt =====
-- `emit_pdu` of examples/example.c: what it leaves is a PDU that a receiver accepts.
use mathlib.Core.Path.{subst}
use native.Mathlib.Nat.{add-zero}
use embedded_cfdp.Base.{
  ℕ, zero, suc, ◌+◌, ◌%◌, ◌^◌, ◌≤◌, ◌<◌, ◌≡◌, ◌≢◌, refl, ap, sym, ◌∙◌, arith, List, [], ◌∷◌, ◌++◌,
  append-nil, append_assoc, some, true, length, take, set, get_or, drop-cons, take-add, take-append,
  All, All-append, drop-All, take-All, IsByte,
}
use embedded_cfdp.Buffer.Overlay.{overlay, Wrote, Wrote-octet, Wrote-same, Wrote-length}
use embedded_cfdp.Pdu.Header.{Header, blank_header, header_size, header_deserialize}
use embedded_cfdp.Pdu.Header.Layout.{
  IsHeader, header_octets, size_of, header_size_lem, header_serialize-octets, length-header_octets,
}
use embedded_cfdp.Pdu.Header.RoundTrip.{canonical, header_deserialize-octets}
use embedded_cfdp.Buffer.{put_uint}
use embedded_cfdp.Crc.{crc_compute}
use embedded_cfdp.Pdu.Header.Bytes.{header_octets-IsByte}
use embedded_cfdp.Pdu.Crc.Append.{crc_append_verifies}
use embedded_cfdp.Pdu.Crc.{crc_append, crc_verify}
use embedded_cfdp.Example.{copy_payload, emit_pdu}

take-next :
    (i : ℕ) (xs : List ℕ) → i < length xs → take (i + 1) xs ≡ take i xs ++ (get_or xs i 0 ∷ [])
take-next i xs h = take-add i 1 xs ∙ ap (λ r. take i xs ++ take 1 r) (drop-cons i xs 0 h)

-- The loop writes the octets of the payload behind those that are there.
copy_payload-Wrote :
    (left i n : ℕ) (payload front : List ℕ) {buf out : List ℕ}
    → Wrote buf (front ++ take i payload) (n + i) out
    → n + i + left ≤ length buf
    → i + left ≤ length payload
    → Wrote buf
        (front ++ take (i + left) payload)
        (n + i + left)
        (copy_payload out n payload i left)
unfolding copy_payload
copy_payload-Wrote zero i n payload front w room have =
    Wrote-same w (ap (λ k. front ++ take k payload) (omega arith)) (omega arith)
copy_payload-Wrote (suc left) i n payload front {buf} {out} w room have =
    let one = Wrote-octet (get_or payload i 0) w (omega arith) in
    let next : Wrote buf (front ++ take (i + 1) payload) (n + (i + 1))
        (set out (n + i) (get_or payload i 0)) =
      Wrote-same one
        (append_assoc front (take i payload) _
          ∙ ap (λ r. front ++ r) (sym (take-next i payload (omega arith))))
        (omega arith) in
    Wrote-same (copy_payload-Wrote left (i + 1) n payload front next (omega arith) (omega arith))
      (ap (λ k. front ++ take k payload) (omega arith)) (omega arith)

-- A PDU before its CRC, with the header decoded and room for the CRC.
crc_append_accepts :
    (buf : List ℕ) (pdu_len buf_len n : ℕ) (h : Header)
    → header_deserialize (some buf) pdu_len (some blank_header) ≡ (n, some h)
    → n ≢ 0
    → h.crc_flag ≡ 1
    → header_size (some h) + h.data_field_length ≡ pdu_len + 2
    → pdu_len + 2 ≤ buf_len
    → pdu_len + 2 < 2 ^ 64
    → crc_append (some buf) pdu_len buf_len
      ≡ (pdu_len + 2, some (put_uint buf pdu_len (crc_compute (some buf) pdu_len) 2))
unfolding crc_append
crc_append_accepts buf pdu_len buf_len n h e ne flag whole room word = rw e (ground arith)

abbrev pub sized : Header → ℕ → Header
sized hdr payload_len = record hdr { data_field_length = payload_len + 2 }

module _ (hdr : Header) (payload : List ℕ) (payload_len : ℕ) (out : List ℕ) (out_len : ℕ)
    (ok : IsHeader (sized hdr payload_len)) (flag : hdr.crc_flag ≡ 1)
    (have : payload_len ≤ length payload) (room : size_of hdr + payload_len + 2 ≤ out_len)
    (inside : out_len ≤ length out) (bytes : All IsByte out)
    (payload_bytes : All IsByte payload) where
  abbrev h : Header
  h = sized hdr payload_len

  abbrev total : ℕ
  total = size_of hdr + payload_len

  abbrev body : List ℕ
  body = header_octets h ++ take payload_len payload

  abbrev copied : List ℕ
  copied = copy_payload (overlay (header_octets h) out) (size_of hdr) payload 0 payload_len

  size_lem : size_of h ≡ size_of hdr
  unfolding size_of
  size_lem = refl

  header-length : length (header_octets h) ≡ size_of hdr
  header-length = length-header_octets h ∙ size_lem

  header-Wrote : Wrote out (header_octets h) (size_of hdr) (overlay (header_octets h) out)
  header-Wrote = record { count = header-length; fits = omega arith; octets = refl }

  copied-Wrote : Wrote out body total copied
  copied-Wrote =
      let started =
        Wrote-same header-Wrote (sym (append-nil (header_octets h)))
          (sym (add-zero (size_of hdr))) in
      Wrote-same
        (copy_payload-Wrote payload_len 0 (size_of hdr) payload (header_octets h) started
          (omega arith) (omega arith))
        (ap (λ k. header_octets h ++ take k payload) (omega arith)) (omega arith)

  copied-bytes : All IsByte copied
  unfolding overlay
  copied-bytes = subst (All IsByte) (sym copied-Wrote.octets) (
      All-append IsByte body _
        (All-append IsByte (header_octets h) _ (header_octets-IsByte h ok)
          (take-All IsByte payload_len payload payload_bytes))
        (drop-All IsByte (length body) out bytes))

  copied-header :
      header_deserialize (some copied) total (some blank_header) ≡ (size_of hdr, some (canonical h))
  unfolding overlay
  copied-header =
      header_deserialize-octets h copied _ ok
        (copied-Wrote.octets ∙ append_assoc (header_octets h) _ _) total blank_header
        (omega (arith, size_lem))
      ∙ ap (λ n. (n, some (canonical h))) size_lem

  abbrev sealed : List ℕ
  sealed = put_uint copied total (crc_compute (some copied) total) 2

  appended : crc_append (some copied) total out_len ≡ (total + 2, some sealed)
  unfolding canonical size_of
  appended =
      crc_append_accepts copied total out_len (size_of hdr) (canonical h) copied-header
        (omega arith) flag
        (omega (arith, header_size_lem (canonical h) ok.entity_id_length ok.transaction_seq_length))
        (omega arith) (omega (arith, ok.data_field_length))

  emitted : emit_pdu hdr payload payload_len out out_len ≡ (total + 2, sealed)
  unfolding emit_pdu
  emitted =
      let large : (4 ≤ size_of hdr) × (size_of hdr ≤ 28) =
        unfold size_of in omega (arith, ok.entity_id_length, ok.transaction_seq_length) in
      let fits : (payload_len + 2) % 2 ^ 16 ≡ payload_len + 2 =
        omega (arith, ok.data_field_length) in
      rw
        (
          fits,
          header_serialize-octets h out out_len ok (omega (arith, size_lem)) inside,
          header_size_lem hdr ok.entity_id_length ok.transaction_seq_length,
          appended,
          size_lem,
        )
        (ground (arith, ok.data_field_length))

  verified :
      (given : ℕ)
      → total + 2 ≤ given
      → (crc_verify (some sealed) given ≡ true) × (take total sealed ≡ body)
  unfolding overlay size_of
  verified given more =
      let (_, passes, kept) =
        crc_append_verifies copied sealed total out_len (total + 2) given appended (omega arith)
          (omega (arith, ok.data_field_length)) (omega (arith, Wrote-length copied-Wrote))
          copied-bytes more in
      (
        passes,
        kept ∙ ap (take total) copied-Wrote.octets ∙ take-append total body _ copied-Wrote.count,
      )

-- A header that can be sent once it has its data field length, with the CRC flag set; a payload
-- that holds the octets announced, and memory with room for header, payload and CRC, both of
-- octets. `emit_pdu` answers the length of all three, the memory begins with the header and the
-- payload, and `cfdp_pdu_crc_verify` accepts it with any length that covers the PDU.
pub emit_pdu_verifies :
    (hdr : Header) (payload : List ℕ) (payload_len : ℕ) (out : List ℕ) (out_len given : ℕ)
    → IsHeader (sized hdr payload_len)
    → hdr.crc_flag ≡ 1
    → payload_len ≤ length payload
    → size_of hdr + payload_len + 2 ≤ out_len
    → out_len ≤ length out
    → All IsByte out
    → All IsByte payload
    → size_of hdr + payload_len + 2 ≤ given
    → (pdu : List ℕ) × (emit_pdu hdr payload payload_len out out_len
        ≡ (size_of hdr + payload_len + 2, pdu))
      × (take (size_of hdr + payload_len) pdu
          ≡ header_octets (sized hdr payload_len) ++ take payload_len payload)
      × (crc_verify (some pdu) given ≡ true)
emit_pdu_verifies hdr payload payload_len out out_len given ok flag have room inside bytes
      payload_bytes more =
    let (passes, begins) =
      verified hdr payload payload_len out out_len ok flag have room inside bytes payload_bytes
        given more in
    (
      _,
      emitted hdr payload payload_len out out_len ok flag have room inside bytes payload_bytes,
      begins,
      passes,
    )
