-- ===== src/Example/Transfer.antt =====
-- The three PDUs of examples/example.c as a receiver finds them.
pub mod Whole
pub mod Names
pub mod Directives
use native.Mathlib.Nat.{add-zero}
use embedded_cfdp.Base.{
  ℕ, ◌+◌, ◌^◌, ◌≤◌, ◌<◌, ◌≡◌, refl, ap, sym, ◌∙◌, arith, List, [], ◌++◌, append_assoc, some, true,
  length, length-append, take, drop, take-append, take-drop, take-All, drop_behind, All, All-append,
  drop-All, IsByte,
}
use embedded_cfdp.Buffer.Overlay.{overlay}
use embedded_cfdp.Common.{IsIdLen}
use embedded_cfdp.Pdu.Header.{Header, header_deserialize}
use embedded_cfdp.Pdu.Header.Layout.{IsHeader, header_octets, size_of, length-header_octets}
use embedded_cfdp.Pdu.Header.RoundTrip.{canonical, header_deserialize-octets}
use embedded_cfdp.Pdu.Crc.{payload_size, crc_verify}
use embedded_cfdp.Example.{fill_common_header, emit_pdu}
use embedded_cfdp.Example.Emit.{sized, emit_pdu_verifies}

-- The header of a PDU with `n` octets of payload.
abbrev pub common : Header → ℕ → ℕ → Header
unfolding fill_common_header
common hdr pdu_type n = sized (fill_common_header hdr pdu_type) n

-- What a receiver finds in `pdu`: it verifies, its header decodes, and the payload is `front`.
pub record Received (hdr : Header) (pdu_type : ℕ) (front pdu : List ℕ) (pdu_len : ℕ) : Type 0 where
  pub verified : crc_verify (some pdu) pdu_len ≡ true
  pub decoded :
      (old : Header)
      → header_deserialize (some pdu) pdu_len (some old)
        ≡ (8, some (canonical (common hdr pdu_type (length front))))
  pub rest : List ℕ
  pub behind : drop 8 pdu ≡ front ++ rest

pub payload_size_lem :
    (hdr : Header) (t n : ℕ) → payload_size (some (canonical (common hdr t n))) ≡ n
unfolding payload_size canonical fill_common_header
payload_size_lem hdr t n = ground arith

pub common-IsHeader : (hdr : Header) (t n : ℕ) → t < 2 → n + 2 < 2 ^ 16 → IsHeader (common hdr t n)
unfolding fill_common_header
common-IsHeader hdr t n h k = record {
  version = refl;
  pdu_type = h;
  direction = omega arith;
  transmission_mode = omega arith;
  crc_flag = omega arith;
  large_file_flag = omega arith;
  data_field_length = k;
  segmentation_control = omega arith;
  segment_metadata_flag = omega arith;
  entity_id_length = (omega arith, omega arith);
  transaction_seq_length = (omega arith, omega arith);
  source_entity_id = omega arith;
  transaction_seq_number = omega arith;
  destination_entity_id = omega arith;
}

emit_front-Received :
    (hdr : Header) (t : ℕ) (front scratch out : List ℕ) (out_len : ℕ)
    → t < 2
    → length front + 2 < 2 ^ 16
    → length front + 10 ≤ out_len
    → out_len ≤ length out
    → All IsByte out
    → All IsByte front
    → All IsByte scratch
    → (pdu : List ℕ) × (emit_pdu
          (fill_common_header hdr t)
          (overlay front scratch)
          (length front)
          out
          out_len
        ≡ (length front + 10, pdu))
      × Received hdr t front pdu out_len
unfolding overlay fill_common_header size_of
emit_front-Received hdr t front scratch out out_len kind small room inside bytes fronts scratches =
    let n = length front in
    let payload = front ++ drop n scratch in
    let ok = common-IsHeader hdr t n kind small in
    let (pdu, run, begins, passes) =
      emit_pdu_verifies (fill_common_header hdr t) payload n out out_len out_len ok refl
        (omega (arith, length-append {0} front (drop n scratch))) (omega arith) inside bytes
        (All-append IsByte front (drop n scratch) fronts (drop-All IsByte n scratch scratches))
        (omega arith) in
    let whole : pdu ≡ header_octets (common hdr t n) ++ (front ++ drop (8 + n) pdu) =
      sym (take-drop (8 + n) pdu)
      ∙ ap (λ r. r ++ drop (8 + n) pdu)
          (begins ∙ ap (λ r. header_octets (common hdr t n) ++ r) (take-append n front _ refl))
      ∙ append_assoc (header_octets (common hdr t n)) front _ in
    (
      pdu,
      run ∙ ap (λ k. (k, pdu)) (omega arith),
      record {
        verified = passes;
        decoded = λ old.
            header_deserialize-octets (common hdr t n) pdu _ ok whole out_len old (omega arith);
        rest = drop (8 + n) pdu;
        behind =
            drop_behind 0 8 pdu (header_octets (common hdr t n)) _ whole
              (omega (arith, length-header_octets (common hdr t n)));
      },
    )

-- A payload of `n` octets laid over the start of a local buffer is emitted and received.
pub emit_pdu-Received :
    (hdr : Header) (t n : ℕ) (front scratch out : List ℕ) (out_len : ℕ)
    → length front ≡ n
    → t < 2
    → n + 2 < 2 ^ 16
    → n + 10 ≤ out_len
    → out_len ≤ length out
    → All IsByte out
    → All IsByte front
    → All IsByte scratch
    → (pdu : List ℕ) × (emit_pdu (fill_common_header hdr t) (overlay front scratch) n out out_len
        ≡ (n + 10, pdu))
      × Received hdr t front pdu out_len
emit_pdu-Received hdr t n front scratch out out_len e kind small room inside bytes fronts
      scratches =
    rw (← e) (
      emit_front-Received hdr t front scratch out out_len kind (omega arith) (omega arith) inside
        bytes fronts scratches)
