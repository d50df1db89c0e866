-- ===== src/Directive/Finished/Chain.antt =====
-- Reading the TLV chain of a Finished PDU: Filestore Responses, and a Fault Location.
use native.Mathlib.Nat.{add-zero}
use embedded_cfdp.Base.{
  ℕ, zero, suc, ◌+◌, ◌-◌, ◌^◌, ◌≤◌, ◌<◌, ◌≡◌, refl, ap, sym, ◌∙◌, arith, List, [], ◌∷◌, ◌++◌,
  append_assoc, some, true, false, ltb, ◌==◌, length, length-append, drop, drop_behind, u16,
}
use embedded_cfdp.Common.{IsIdLen}
use embedded_cfdp.Tlv.{blank_tlv}
use embedded_cfdp.Tlv.Object.{tlv_deserialize_lem}
use embedded_cfdp.Tlv.EntityId.RoundTrip.{entity_id_octets, entity_id_tlv_deserialize_lem}
use embedded_cfdp.Endian.Octets.{be_octets}
use embedded_cfdp.Directive.Finished.{Finished, finished_tlv, finished_parse_tlvs}
use embedded_cfdp.Directive.Finished.Fuel.{finished_parse_tlvs_fuel}

-- Filestore Response TLVs with these values.
unfoldable pub responses_octets : List (List ℕ) → List ℕ
responses_octets [] = []
responses_octets (value ∷ values) = 1 ∷ length value ∷ (value ++ responses_octets values)

-- The structure once the responses up to `end_pos` have been read.
abbrev pub responded : List ℕ → ℕ → Finished → Finished
responded buf end_pos fin = record fin {
  filestore_responses = some (drop 2 buf);
  filestore_responses_len = end_pos - 2;
}

unfoldable pub after_responses : List ℕ → ℕ → List (List ℕ) → Finished → Finished
after_responses buf pos [] fin = fin
after_responses buf pos (value ∷ values) fin =
    after_responses buf (pos + (length value + 2)) values
      (responded buf (pos + (length value + 2)) fin)

pub one_response :
    (fuel : ℕ) (buf : List ℕ) (buf_len pos k : ℕ) (body : List ℕ) (fin : Finished)
    → drop pos buf ≡ 1 ∷ k ∷ body
    → pos + (k + 2) ≤ buf_len
    → pos + (k + 2) < 2 ^ 16 + 2
    → fin.fault_location_len ≡ 0
    → finished_parse_tlvs (suc fuel) buf buf_len pos fin
      ≡ finished_parse_tlvs fuel buf buf_len (pos + (k + 2)) (responded buf (pos + (k + 2)) fin)
unfolding finished_parse_tlvs finished_tlv
one_response fuel buf buf_len pos k body fin e room small none_yet =
    let read =
      tlv_deserialize_lem (drop pos buf) (buf_len - pos) 1 k body blank_tlv e (omega arith) in
    let whole : u16 (pos + (k + 2) - 2) ≡ pos + (k + 2) - 2 = omega arith in
    let inside : ltb pos buf_len ≡ true = ground arith in
    let some_octets : (k + 2 == 0) ≡ false = ground arith in
    let unlocated : ltb 0 fin.fault_location_len ≡ false = ground arith in
    rw (inside, read, unlocated, whole, some_octets) refl

pub one_location :
    (fuel : ℕ) (buf : List ℕ) (buf_len pos entity_id id_len : ℕ) (rest : List ℕ) (fin : Finished)
    → drop pos buf ≡ entity_id_octets entity_id id_len ++ rest
    → pos + (id_len + 2) ≤ buf_len
    → IsIdLen id_len
    → entity_id < 256 ^ id_len
    → finished_parse_tlvs (suc fuel) buf buf_len pos fin
      ≡ finished_parse_tlvs fuel buf buf_len
          (pos + (id_len + 2))
          (record fin { fault_location_entity_id = entity_id; fault_location_len = id_len })
unfolding finished_parse_tlvs finished_tlv
one_location fuel buf buf_len pos entity_id id_len rest fin e room h k =
    let shape : drop pos buf ≡ 6 ∷ id_len ∷ (be_octets id_len entity_id ++ rest) =
      e ∙ (unfold entity_id_octets in refl) in
    let read =
      tlv_deserialize_lem (drop pos buf) (buf_len - pos) 6 id_len
        (be_octets id_len entity_id ++ rest) blank_tlv shape (omega arith) in
    let located =
      entity_id_tlv_deserialize_lem (drop pos buf) (buf_len - pos) entity_id id_len
        fin.fault_location_entity_id fin.fault_location_len rest e h (omega arith) k in
    let inside : ltb pos buf_len ≡ true = ground arith in
    let some_octets : (id_len + 2 == 0) ≡ false = ground arith in
    rw (inside, read, located, some_octets) refl

pub chain_lem :
    (values : List (List ℕ)) (fuel : ℕ) (buf : List ℕ) (buf_len pos : ℕ) (tail : List ℕ)
    (fin : Finished)
    → drop pos buf ≡ responses_octets values ++ tail
    → pos + length (responses_octets values) ≤ buf_len
    → pos + length (responses_octets values) < 2 ^ 16 + 2
    → fin.fault_location_len ≡ 0
    → buf_len ≤ fuel + pos
    → finished_parse_tlvs (suc fuel) buf buf_len pos fin
      ≡ finished_parse_tlvs
          (suc fuel)
          buf
          buf_len
          (pos + length (responses_octets values))
          (after_responses buf pos values fin)
unfolding responses_octets after_responses
chain_lem [] fuel buf buf_len pos tail fin e room small none_yet enough =
    ap (λ p. finished_parse_tlvs (suc fuel) buf buf_len p fin) (sym (add-zero pos))
chain_lem (value ∷ values) zero buf buf_len pos tail fin e room small none_yet enough =
    absurd (omega arith)
chain_lem (value ∷ values) (suc fuel) buf buf_len pos tail fin e room small none_yet enough =
    let k = length value in
    let rest = responses_octets values in
    let size = length-append value rest in
    let next = responded buf (pos + (k + 2)) fin in
    let shape : drop pos buf ≡ (1 ∷ k ∷ value) ++ (rest ++ tail) = e ∙ simp append_assoc in
    let behind : drop (pos + (k + 2)) buf ≡ rest ++ tail =
      drop_behind pos (pos + (k + 2)) buf (1 ∷ k ∷ value) (rest ++ tail) shape (omega arith) in
    let ends : pos + (k + 2) + length rest ≡ pos + suc (suc (length (value ++ rest))) =
      omega (arith, size) in
    one_response (suc fuel) buf buf_len pos k (value ++ (rest ++ tail)) fin shape
      (omega (arith, size)) (omega (arith, size)) none_yet
    ∙ chain_lem values fuel buf buf_len (pos + (k + 2)) tail next behind (omega (arith, size))
        (omega (arith, size)) none_yet (omega arith)
    ∙ finished_parse_tlvs_fuel fuel (suc fuel) buf buf_len (pos + (k + 2) + length rest) _
        (omega arith) (omega arith)
    ∙ ap
        (λ p.
          finished_parse_tlvs (suc (suc fuel)) buf buf_len p
            (after_responses buf (pos + (k + 2)) values next))
        ends
