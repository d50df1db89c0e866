-- ===== src/Directive/FaultLocation.antt =====
-- The Fault Location that ends an EOF or a Finished PDU, as the serialisers write it.
use embedded_cfdp.Base.{
  ℕ, ◌+◌, ◌-◌, ◌^◌, ◌≤◌, ◌<◌, ◌≡◌, refl, ap, arith, List, [], ◌++◌, some, Bool, true, false, length,
  length-drop, drop,
}
use embedded_cfdp.Common.{IsIdLen}
use embedded_cfdp.Buffer.{put_back}
use embedded_cfdp.Buffer.Overlay.{Wrote, Wrote-part, drop-overlay, overlay}
use embedded_cfdp.Endian.Octets.{length-be_octets}
use embedded_cfdp.Tlv.EntityId.{entity_id_tlv_serialize}
use embedded_cfdp.Tlv.EntityId.RoundTrip.{entity_id_octets, entity_id_tlv_serialize_lem}

-- A location that can be sent where one is required, and none where none is.
abbrev pub IsFaultLocation : Bool → ℕ → ℕ → Type 0
IsFaultLocation true entity_id id_len = IsIdLen id_len × (entity_id < 256 ^ id_len)
IsFaultLocation false entity_id id_len = (entity_id ≡ 0) × (id_len ≡ 0)

abbrev pub fault_location_octets : Bool → ℕ → ℕ → List ℕ
fault_location_octets true entity_id id_len = entity_id_octets entity_id id_len
fault_location_octets false entity_id id_len = []

abbrev pub fault_location_size : Bool → ℕ → ℕ
fault_location_size true id_len = id_len + 2
fault_location_size false id_len = 0

pub length-entity_id_octets :
    (entity_id id_len : ℕ) → length (entity_id_octets entity_id id_len) ≡ id_len + 2
unfolding entity_id_octets
length-entity_id_octets entity_id id_len = omega (arith, length-be_octets id_len entity_id)

-- The Entity ID TLV that is written behind `n` octets.
pub location-Wrote :
    {buf front out : List ℕ} {n : ℕ} (entity_id id_len buf_len : ℕ)
    → Wrote buf front n out
    → IsIdLen id_len
    → n + (id_len + 2) ≤ buf_len
    → buf_len ≤ length buf
    → let (m, tail) = entity_id_tlv_serialize entity_id id_len (some (drop n out)) (buf_len - n) in
      (m ≡ id_len + 2)
      × Wrote buf
          (front ++ entity_id_octets entity_id id_len)
          (n + (id_len + 2))
          (put_back out n tail)
unfolding put_back
location-Wrote {buf} {front} {out} {n} entity_id id_len buf_len w ok room inside =
    let there : buf_len - n ≤ length (drop n out) =
      omega (arith, length-drop {0} n buf, ap length (drop-overlay w)) in
    rw
      (entity_id_tlv_serialize_lem entity_id id_len (drop n out) (buf_len - n) ok (omega arith)
        there)
      (
        refl,
        Wrote-part (entity_id_octets entity_id id_len)
            (overlay (entity_id_octets entity_id id_len) (drop n out)) (id_len + 2) w
            (record {
              count = length-entity_id_octets entity_id id_len;
              fits = omega arith;
              octets = refl;
            }),
      )
