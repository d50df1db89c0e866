-- ===== src/Directive/Finished/Layout.antt =====
-- The octets of a Finished PDU, and that they are what is written.
use embedded_cfdp.Base.{
  ℕ, ◌+◌, ◌*◌, ◌^◌, ◌≤◌, ◌<◌, ◌≡◌, inl, inr, bool_cases, arith, List, [], ◌∷◌, ◌++◌, append-nil,
  some, true, deref, length, u8, bit_and, bit_or, ◌<<◌,
}
use embedded_cfdp.Base.Bits.{bit_and-mask, bit_or_disjoint}
use embedded_cfdp.Buffer.{contents}
use embedded_cfdp.Buffer.Overlay.{
  overlay, Wrote, Wrote-nothing, Wrote-octet, Wrote-contents, null_with_octets,
}
use embedded_cfdp.Directive.FaultLocation.{
  IsFaultLocation, fault_location_octets, fault_location_size, location-Wrote,
}
use embedded_cfdp.Directive.Finished.{
  Finished, fault_location_required, finished_write, finished_serialize,
}

-- A structure whose fields fit the wire, whose pointer holds the octets that it announces, and
-- which has a fault location exactly when its condition calls for one.
pub record IsFinished (fin : Finished) : Type 0 where
  pub condition_code : fin.condition_code < 16
  pub delivery_code : fin.delivery_code < 2
  pub file_status : fin.file_status < 4
  pub filestore_responses : fin.filestore_responses_len ≤ length (deref [] fin.filestore_responses)
  pub filestore_responses_len : fin.filestore_responses_len < 2 ^ 16
  pub fault_location :
      IsFaultLocation
        (fault_location_required fin.condition_code)
        fin.fault_location_entity_id
        fin.fault_location_len

abbrev pub codes_of : Finished → ℕ
codes_of fin = fin.condition_code * 16 + fin.delivery_code * 4 + fin.file_status

unfoldable pub finished_octets : Finished → List ℕ
finished_octets fin =
    (5 ∷ codes_of fin ∷ [])
    ++ contents fin.filestore_responses fin.filestore_responses_len
    ++ fault_location_octets (fault_location_required fin.condition_code)
        fin.fault_location_entity_id fin.fault_location_len

unfoldable pub finished_size : Finished → ℕ
finished_size fin =
    2
    + fin.filestore_responses_len
    + fault_location_size (fault_location_required fin.condition_code) fin.fault_location_len

codes_octet :
    (c d s : ℕ)
    → c < 16
    → d < 2
    → s < 4
    → u8 (bit_or (bit_or (bit_and (u8 c) 0xF << 4) (bit_and (u8 d) 0x1 << 2)) (bit_and (u8 s) 0x3))
      ≡ c * 16 + d * 4 + s
codes_octet c d s h k l = ground (
  arith,
  bit_and-mask 4 (u8 c),
  bit_and-mask 1 (u8 d),
  bit_and-mask 2 (u8 s),
  bit_or_disjoint 4 (c * 16) (d * 4),
  bit_or_disjoint 2 (c * 16 + d * 4) s,
)

finished_write-Wrote :
    (fin : Finished) (buf : List ℕ)
    → IsFinished fin
    → 2 ≤ length buf
    → Wrote buf (5 ∷ codes_of fin ∷ []) 2 (finished_write fin buf)
unfolding finished_write
finished_write-Wrote fin buf ok room =
    rw
      (codes_octet fin.condition_code fin.delivery_code fin.file_status ok.condition_code
        ok.delivery_code ok.file_status)
      (Wrote-octet (codes_of fin) (Wrote-octet 5 (Wrote-nothing buf) (omega arith)) (omega arith))

-- A structure that can be sent and a buffer with room for it: the serialiser answers the size of
-- the PDU and lays out the codes, the filestore responses, and the fault location if one is due.
pub finished_serialize-octets :
    (fin : Finished) (buf : List ℕ) (buf_len : ℕ)
    → IsFinished fin
    → finished_size fin ≤ buf_len
    → buf_len ≤ length buf
    → finished_serialize (some fin) (some buf) buf_len
      ≡ (finished_size fin, some (overlay (finished_octets fin) buf))
unfolding finished_serialize finished_size finished_octets
finished_serialize-octets fin buf buf_len ok room inside =
    let copied =
      Wrote-contents fin.filestore_responses fin.filestore_responses_len
        (finished_write-Wrote fin buf ok (omega arith)) (omega arith) ok.filestore_responses in
    let there =
      null_with_octets fin.filestore_responses fin.filestore_responses_len ok.filestore_responses in
    elim (bool_cases (fault_location_required fin.condition_code)) [
      | inr e ↦
          rw (there, e)
            (ground (
              arith,
              copied.octets,
              append-nil (contents fin.filestore_responses fin.filestore_responses_len),
            ))
      | inl e ↦
          let loc : IsFaultLocation true fin.fault_location_entity_id fin.fault_location_len =
            rw e at ok.fault_location in
          let roomy : 2 + fin.filestore_responses_len + (fin.fault_location_len + 2) ≤ buf_len =
            rw e at room in
          let (n, last) =
            location-Wrote fin.fault_location_entity_id fin.fault_location_len buf_len copied loc.0
              roomy inside in
          rw (there, e, n) (ground (arith, last.octets, loc.0))
    ]
