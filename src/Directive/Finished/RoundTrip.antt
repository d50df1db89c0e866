-- ===== src/Directive/Finished/RoundTrip.antt =====
-- Reading a Finished PDU back from its octets.
use embedded_cfdp.Base.{
  ℕ, suc, ◌-◌, ◌≤◌, ◌≡◌, refl, ap, ap₂, ◌∙◌, arith, List, ◌∷◌, ◌++◌, append_assoc, some, length,
  drop, get_or,
}
use embedded_cfdp.Buffer.{contents}
use embedded_cfdp.Buffer.Overlay.{overlay}
use embedded_cfdp.Directive.FaultLocation.{fault_location_octets}
use embedded_cfdp.Directive.Finished.{
  Finished, fault_location_required, finished_parse_tlvs, finished_read, finished_serialize,
  finished_deserialize,
}
use embedded_cfdp.Directive.Finished.Chain.{responses_octets}
use embedded_cfdp.Directive.Finished.Layout.{
  IsFinished, codes_of, finished_octets, finished_size, finished_serialize-octets,
}
use embedded_cfdp.Directive.Finished.Reading.{SameFinished, fuel_suc, finished_read_lem}
use embedded_cfdp.Directive.Finished.Parsing.{parse_lem}

deserialize_lem :
    (fin old : Finished) (values : List (List ℕ)) (buf rest : List ℕ)
    → IsFinished fin
    → contents fin.filestore_responses fin.filestore_responses_len ≡ responses_octets values
    → buf ≡ finished_octets fin ++ rest
    → (got : Finished) × (finished_deserialize (some buf) (finished_size fin) (some old)
        ≡ (finished_size fin, some got))
      × SameFinished got fin
unfolding finished_deserialize finished_octets finished_size
deserialize_lem fin old values buf rest ok chain whole =
    let location =
      fault_location_octets (fault_location_required fin.condition_code)
        fin.fault_location_entity_id fin.fault_location_len in
    let responses = contents fin.filestore_responses fin.filestore_responses_len in
    let laid : buf ≡ 5 ∷ codes_of fin ∷ (responses ++ (location ++ rest)) =
      whole ∙ simp append_assoc in
    let behind : drop 2 buf ≡ responses_octets values ++ (location ++ rest) =
      ap (drop 2) laid ∙ ap (λ r. r ++ (location ++ rest)) chain in
    let code : get_or buf 0 0 ≡ 5 = ap (λ b. get_or b 0 0) laid in
    let fuel : finished_size fin ≡ suc (finished_size fin - 1) =
      fuel_suc (finished_size fin) (omega arith) in
    let (got, parsed, same) =
      parse_lem fin values (finished_size fin - 1) buf rest ok chain behind (omega arith) in
    let run : finished_parse_tlvs (finished_size fin) buf (finished_size fin) 2 (finished_read buf)
        ≡ (finished_size fin, got) =
      ap₂ (λ f r. finished_parse_tlvs f buf (finished_size fin) 2 r) fuel
        (finished_read_lem fin buf (responses ++ (location ++ rest)) ok laid)
      ∙ parsed in
    (got, rw (code, run) (ground arith), same)

-- A structure that can be sent, whose responses are Filestore Response TLVs with any values,
-- written into a buffer with room for it, is read back: all octets are consumed, and the codes,
-- the responses and the fault location come back.
pub finished_round_trip :
    (fin old : Finished) (values : List (List ℕ)) (buf : List ℕ) (buf_len : ℕ)
    → IsFinished fin
    → contents fin.filestore_responses fin.filestore_responses_len ≡ responses_octets values
    → finished_size fin ≤ buf_len
    → buf_len ≤ length buf
    → let (n, out) = finished_serialize (some fin) (some buf) buf_len in
      (got : Finished) × (finished_deserialize out n (some old) ≡ (n, some got))
      × SameFinished got fin
      × (n ≡ finished_size fin)
unfolding overlay
finished_round_trip fin old values buf buf_len ok chain room inside =
    rw (finished_serialize-octets fin buf buf_len ok room inside) (
      let (got, e, same) = deserialize_lem fin old values _ _ ok chain refl in (got, e, same, refl))
