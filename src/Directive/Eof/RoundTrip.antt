-- ===== src/Directive/Eof/RoundTrip.antt =====
-- What the EOF codec writes and reads back.
use native.Mathlib.Nat.{add-zero}
use embedded_cfdp.Base.{
  ℕ, ◌+◌, ◌-◌, ◌*◌, ◌^◌, ◌≤◌, ◌<◌, ◌≡◌, refl, ap, sym, ◌∙◌, arith, List, [], ◌∷◌, ◌++◌,
  append_assoc, append-nil, some, Bool, true, false, ◌!=◌, bool_cases, inl, inr, length, drop,
  drop_behind, get_or, bit_and, u8, ◌<<◌, ◌>>◌,
}
use embedded_cfdp.Base.Bits.{bit_and-mask}
use embedded_cfdp.Buffer.Overlay.{overlay, Wrote, Wrote-nothing, Wrote-octet, Wrote-uint}
use embedded_cfdp.Common.{file_size_octets, file_size_octets_cases, IsIdLen}
use embedded_cfdp.Endian.Octets.{be_octets, length-be_octets}
use embedded_cfdp.Endian.Read.{read_uint-be_octets}
use embedded_cfdp.Endian.{read_uint}
use embedded_cfdp.Tlv.EntityId.RoundTrip.{entity_id_octets, entity_id_tlv_deserialize_lem}
use embedded_cfdp.Directive.FaultLocation.{
  IsFaultLocation, fault_location_octets, fault_location_size, location-Wrote,
}
use embedded_cfdp.Directive.Eof.{Eof, eof_write, eof_serialize, eof_read, eof_deserialize}

abbrev pub located : Eof → Bool
located eof = eof.condition_code != 0

-- An EOF whose fields fit the wire, with a fault location exactly when there is a fault.
pub record IsEof (eof : Eof) (large_file_flag : ℕ) : Type 0 where
  pub condition_code : eof.condition_code < 16
  pub file_checksum : eof.file_checksum < 2 ^ 32
  pub file_size : eof.file_size < 256 ^ file_size_octets large_file_flag
  pub fault_location :
      IsFaultLocation (located eof) eof.fault_location_entity_id eof.fault_location_len

abbrev pub fixed_octets : Eof → ℕ → List ℕ
fixed_octets eof fs =
    (4 ∷ (eof.condition_code * 16) ∷ [])
    ++ be_octets 4 eof.file_checksum
    ++ be_octets fs eof.file_size

unfoldable pub eof_octets : Eof → ℕ → List ℕ
eof_octets eof large_file_flag =
    fixed_octets eof (file_size_octets large_file_flag)
    ++ fault_location_octets (located eof) eof.fault_location_entity_id eof.fault_location_len

unfoldable pub eof_size : Eof → ℕ → ℕ
eof_size eof large_file_flag =
    file_size_octets large_file_flag + 6 + fault_location_size (located eof) eof.fault_location_len

condition_octet : (code : ℕ) → code < 16 → u8 (bit_and (u8 code) 0xF << 4) ≡ code * 16
condition_octet code h = ground (arith, bit_and-mask 4 (u8 code))

eof_write-Wrote :
    (eof : Eof) (fs : ℕ) (buf : List ℕ)
    → eof.condition_code < 16
    → fs + 6 ≤ length buf
    → Wrote buf (fixed_octets eof fs) (fs + 6) (eof_write eof fs buf)
unfolding eof_write
eof_write-Wrote eof fs buf h room =
    let w =
      Wrote-uint eof.file_size fs
        (Wrote-uint eof.file_checksum 4
          (Wrote-octet (eof.condition_code * 16) (Wrote-octet 4 (Wrote-nothing buf) (omega arith))
            (omega arith))
          (omega arith))
        (omega arith) in
    rw (condition_octet eof.condition_code h)
      (record { count = w.count ∙ omega arith; fits = room; octets = w.octets })

-- An EOF that can be sent and a buffer with room for it: the serialiser answers the size of the
-- PDU and lays its octets out as the standard does, the fault location last where there is one.
pub eof_serialize-octets :
    (eof : Eof) (large_file_flag : ℕ) (buf : List ℕ) (buf_len : ℕ)
    → IsEof eof large_file_flag
    → eof_size eof large_file_flag ≤ buf_len
    → buf_len ≤ length buf
    → eof_serialize (some eof) large_file_flag (some buf) buf_len
      ≡ (eof_size eof large_file_flag, some (overlay (eof_octets eof large_file_flag) buf))
unfolding eof_serialize eof_size eof_octets
eof_serialize-octets eof large_file_flag buf buf_len ok room inside =
    let fs = file_size_octets large_file_flag in
    let fixed = eof_write-Wrote eof fs buf ok.condition_code (omega arith) in
    elim (bool_cases (located eof)) [
      | inr e ↦ rw e (
          ground (
            arith,
            fixed.octets ∙ ap (λ r. overlay r buf) (sym (append-nil (fixed_octets eof fs))),
          ))
      | inl e ↦
          let loc : IsFaultLocation true eof.fault_location_entity_id eof.fault_location_len =
            rw e at ok.fault_location in
          let roomy : fs + 6 + (eof.fault_location_len + 2) ≤ buf_len = rw e at room in
          let last =
            location-Wrote eof.fault_location_entity_id eof.fault_location_len buf_len fixed loc.0
              roomy inside in
          rw (e, last.0) (ground (arith, last.1.octets, loc.0))
    ]

-- The fixed part is read back from its octets, and what stands behind it is left.
eof_read_lem :
    (c sum size fs : ℕ) (buf tail : List ℕ)
    → buf ≡ 4 ∷ (c * 16) ∷ (be_octets 4 sum ++ (be_octets fs size ++ tail))
    → c < 16
    → sum < 2 ^ 32
    → fs ≤ 8
    → size < 256 ^ fs
    → (eof_read buf fs ≡ record {
      condition_code = c;
      file_checksum = sum;
      file_size = size;
      fault_location_entity_id = 0;
      fault_location_len = 0;
    })
      × (drop (fs + 6) buf ≡ tail)
unfolding eof_read
eof_read_lem c sum size fs buf tail e h k l m =
    let behind : drop 6 buf ≡ be_octets fs size ++ tail =
      drop_behind 2 6 buf (be_octets 4 sum) (be_octets fs size ++ tail) (ap (drop 2) e)
        (ap (λ n. 2 + n) (length-be_octets 4 sum)) in
    let condition : bit_and (get_or buf 1 0 >> 4) 0xF ≡ c =
      rw e (ground (arith, bit_and-mask 4 (c * 16 >> 4))) in
    let checksum : read_uint (drop 2 buf) 4 ≡ sum =
      read_uint-be_octets (drop 2 buf) 4 sum (be_octets fs size ++ tail) (ap (drop 2) e)
        (omega arith) k in
    let file : read_uint (drop 6 buf) fs ≡ size =
      read_uint-be_octets (drop 6 buf) fs size tail behind l m in
    (
      rw (condition, checksum, file) (ground arith),
      drop_behind 6 (fs + 6) buf (be_octets fs size) tail behind
          (omega (arith, length-be_octets fs size)),
    )

module _ (eof old : Eof) (large_file_flag : ℕ) (buf : List ℕ)
    (condition_code : eof.condition_code < 16) (file_checksum : eof.file_checksum < 2 ^ 32)
    (file_size : eof.file_size < 256 ^ file_size_octets large_file_flag) where
  abbrev fs : ℕ
  fs = file_size_octets large_file_flag

  Holds : List ℕ → Type 0
  Holds tail =
      buf
      ≡ 4
        ∷ (eof.condition_code * 16)
        ∷ (be_octets 4 eof.file_checksum ++ (be_octets fs eof.file_size ++ tail))

  fields :
      (tail : List ℕ)
      → Holds tail
      → (eof_read buf fs ≡ record eof { fault_location_entity_id = 0; fault_location_len = 0 })
        × (drop (fs + 6) buf ≡ tail)
  unfolding Holds
  fields tail e =
      eof_read_lem eof.condition_code eof.file_checksum eof.file_size fs buf tail e condition_code
        file_checksum (ground (arith, file_size_octets_cases large_file_flag)) file_size

  plain_lem :
      (tail : List ℕ)
      → Holds tail
      → eof_deserialize (some buf) (fs + 6) large_file_flag (some old)
        ≡ (fs + 6, some (record eof { fault_location_entity_id = 0; fault_location_len = 0 }))
  unfolding eof_deserialize Holds
  plain_lem tail e =
      let first : get_or buf 0 0 ≡ 4 = rw e refl in rw (first, (fields tail e).0) (ground arith)

  located_lem :
      (rest : List ℕ)
      → Holds (entity_id_octets eof.fault_location_entity_id eof.fault_location_len ++ rest)
      → IsIdLen eof.fault_location_len
      → eof.fault_location_entity_id < 256 ^ eof.fault_location_len
      → eof_deserialize
          (some buf)
          (fs + 6 + (eof.fault_location_len + 2))
          large_file_flag
          (some old)
        ≡ (fs + 6 + (eof.fault_location_len + 2), some eof)
  unfolding eof_deserialize Holds
  located_lem rest e h k =
      let first : get_or buf 0 0 ≡ 4 = rw e refl in
      let (fixed, behind) =
        fields (entity_id_octets eof.fault_location_entity_id eof.fault_location_len ++ rest) e in
      let decoded =
        entity_id_tlv_deserialize_lem (drop (fs + 6) buf)
          (fs + 6 + (eof.fault_location_len + 2) - (fs + 6)) eof.fault_location_entity_id
          eof.fault_location_len 0 0 rest behind h (omega arith) k in
      rw (first, fixed, decoded) (ground arith)

-- An EOF is read from its octets, whatever follows them.
pub eof_deserialize_lem :
    (eof old : Eof) (large_file_flag : ℕ) (buf rest : List ℕ)
    → IsEof eof large_file_flag
    → buf ≡ eof_octets eof large_file_flag ++ rest
    → eof_deserialize (some buf) (eof_size eof large_file_flag) large_file_flag (some old)
      ≡ (eof_size eof large_file_flag, some eof)
unfolding eof_octets eof_size Holds
eof_deserialize_lem eof old large_file_flag buf rest ok whole = elim (bool_cases (located eof)) [
  | inr e ↦
      let loc : IsFaultLocation false eof.fault_location_entity_id eof.fault_location_len =
        rw e at ok.fault_location in
      let read =
        plain_lem eof old large_file_flag buf ok.condition_code ok.file_checksum ok.file_size rest
          (whole ∙ rw e (simp append_assoc)) in
      let no_entity = sym loc.0 in
      let no_len = sym loc.1 in
      rw (e, add-zero (file_size_octets large_file_flag + 6))
        (read ∙ λ i. (
          file_size_octets large_file_flag + 6,
          some (record eof {
            fault_location_entity_id = no_entity i;
            fault_location_len = no_len i;
          }),
        ))
  | inl e ↦
      let loc : IsFaultLocation true eof.fault_location_entity_id eof.fault_location_len =
        rw e at ok.fault_location in
      rw e (
        located_lem eof old large_file_flag buf ok.condition_code ok.file_checksum ok.file_size rest
          (whole ∙ rw e (simp append_assoc)) loc.0 loc.1)
]

-- An EOF that can be sent, written into a buffer with room for it, is read back under the same
-- large file flag: all octets are consumed, and every field comes back.
pub eof_round_trip :
    (eof old : Eof) (large_file_flag : ℕ) (buf : List ℕ) (buf_len : ℕ)
    → IsEof eof large_file_flag
    → eof_size eof large_file_flag ≤ buf_len
    → buf_len ≤ length buf
    → let (n, out) = eof_serialize (some eof) large_file_flag (some buf) buf_len in
      (n ≡ eof_size eof large_file_flag)
      × (eof_deserialize out n large_file_flag (some old) ≡ (n, some eof))
unfolding overlay
eof_round_trip eof old large_file_flag buf buf_len ok room inside =
    rw (eof_serialize-octets eof large_file_flag buf buf_len ok room inside)
      (refl, eof_deserialize_lem eof old large_file_flag _ _ ok refl)
