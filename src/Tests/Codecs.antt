-- ===== src/Tests/Codecs.antt =====
-- The TLV codecs on concrete memory.
use embedded_cfdp.Base.{ℕ, ◌+◌, ◌^◌, ◌<◌, ◌≤◌, ◌≡◌, ◌⊎◌, arith, List, [], ◌∷◌, some, take}
use embedded_cfdp.Common.{IsIdLen}
use embedded_cfdp.Tlv.{Tlv, blank_tlv, tlv_deserialize}
use embedded_cfdp.Tlv.Object.{tlv_octets, tlv_deserialize_cases}
use embedded_cfdp.Tlv.EntityId.{entity_id_tlv_deserialize}
use embedded_cfdp.Tlv.EntityId.RoundTrip.{entity_id_octets, entity_id_tlv_deserialize_cases}

abbrev zeros : List ℕ
zeros = 0 ∷ 0 ∷ 0 ∷ 0 ∷ 0 ∷ 0 ∷ 0 ∷ 0 ∷ []

abbrev name : List ℕ
name = 97 ∷ 46 ∷ 98 ∷ []

abbrev sample : Tlv
sample = record { type = 2; length = 3; value = some name }

abbrev entity_tlv : List ℕ
entity_tlv = 6 ∷ 2 ∷ 1 ∷ 44 ∷ 99 ∷ []

tlv_deserialize_cases_example :
    (tlv_deserialize (some entity_tlv) 5 (some blank_tlv) ≡ (0, some blank_tlv))
    ⊎ ((n : ℕ) × (t : Tlv) × (tlv_deserialize (some entity_tlv) 5 (some blank_tlv) ≡ (n, some t))
        × (n ≡ t.length + 2)
        × (n ≤ 5)
        × (tlv_octets t ≡ take n entity_tlv))
tlv_deserialize_cases_example = tlv_deserialize_cases entity_tlv 5 blank_tlv (omega arith)

entity_id_tlv_deserialize_cases_example :
    (entity_id_tlv_deserialize (some entity_tlv) 5 (some 0) (some 0) ≡ (0, some 0, some 0))
    ⊎ ((entity_id : ℕ) × (id_len : ℕ) × (entity_id_tlv_deserialize
            (some entity_tlv)
            5
            (some 0)
            (some 0)
          ≡ (id_len + 2, some entity_id, some id_len))
        × IsIdLen id_len
        × (id_len + 2 ≤ 5)
        × (entity_id_octets entity_id id_len ≡ take (id_len + 2) entity_tlv)
        × (entity_id < 256 ^ id_len))
entity_id_tlv_deserialize_cases_example =
    entity_id_tlv_deserialize_cases entity_tlv 5 0 0 (omega arith) (omega arith)
