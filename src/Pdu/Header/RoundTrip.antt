-- ===== src/Pdu/Header/RoundTrip.antt =====
-- Reading a header back from its octets.
use embedded_cfdp.Base.{
  ℕ, ◌+◌, ◌≤◌, ◌≡◌, refl, ap, ◌∙◌, arith, List, [], ◌∷◌, ◌++◌, append_assoc, some, length, get_or,
  drop, get_or-drop, drop_behind, u16,
}
use embedded_cfdp.Buffer.{get_uint}
use embedded_cfdp.Buffer.Overlay.{overlay}
use embedded_cfdp.Endian.Octets.{be_octets, length-be_octets}
use embedded_cfdp.Endian.Read.{read_uint-be_octets}
use embedded_cfdp.Pdu.Header.{
  Header, header_size, header_serialize, header_deserialize, unpack_flags, read_ids,
}
use embedded_cfdp.Pdu.Header.Flags.{segment_flag}
use embedded_cfdp.Pdu.Header.Fields.{
  version_field, pdu_type_field, direction_field, transmission_mode_field, crc_flag_field,
  large_file_flag_field, segmentation_control_field, segment_metadata_flag_field,
  entity_id_length_field, transaction_seq_length_field,
}
use embedded_cfdp.Pdu.Header.Layout.{
  IsHeader, first_octet, fourth_octet, header_octets, size_of, header_size_lem,
  header_serialize-octets,
}

pub header_deserialize_accepts :
    (buf : List ℕ) (buf_len size : ℕ) (old flags : Header)
    → unpack_flags buf old ≡ flags
    → flags.version ≡ 1
    → header_size (some flags) ≡ size
    → 4 ≤ size
    → size ≤ buf_len
    → header_deserialize (some buf) buf_len (some old) ≡ (size, some (read_ids buf flags))
unfolding header_deserialize
header_deserialize_accepts buf buf_len size old flags e v f big room = ground arith

-- The header as a peer reports it: the segment flags of a File Directive are read as zero.
unfoldable pub canonical : Header → Header
canonical h = record h {
  segmentation_control = segment_flag h.pdu_type h.segmentation_control;
  segment_metadata_flag = segment_flag h.pdu_type h.segment_metadata_flag;
}

module _ (h : Header) (buf rest : List ℕ) (ok : IsHeader h)
    (e : buf ≡ header_octets h ++ rest) where
  abbrev ids : List ℕ
  ids =
      be_octets h.entity_id_length h.source_entity_id
      ++ (be_octets h.transaction_seq_length h.transaction_seq_number
          ++ (be_octets h.entity_id_length h.destination_entity_id ++ rest))

  whole : buf ≡ first_octet h ∷ (be_octets 2 h.data_field_length ++ (fourth_octet h ∷ ids))
  unfolding header_octets
  whole = e ∙ simp append_assoc

  behind_1 : drop 1 buf ≡ be_octets 2 h.data_field_length ++ (fourth_octet h ∷ ids)
  behind_1 = drop_behind 0 1 buf (first_octet h ∷ []) _ whole refl

  behind_3 : drop 3 buf ≡ fourth_octet h ∷ ids
  behind_3 =
      drop_behind 1 3 buf (be_octets 2 h.data_field_length) _ behind_1
        (omega (arith, length-be_octets 2 h.data_field_length))

  behind_4 : drop 4 buf ≡ ids
  behind_4 = drop_behind 3 4 buf (fourth_octet h ∷ []) ids behind_3 refl

  behind_source :
      drop (4 + h.entity_id_length) buf
      ≡ be_octets h.transaction_seq_length h.transaction_seq_number
        ++ (be_octets h.entity_id_length h.destination_entity_id ++ rest)
  behind_source =
      drop_behind 4 _ buf (be_octets h.entity_id_length h.source_entity_id) _ behind_4
        (ap (λ n. 4 + n) (length-be_octets h.entity_id_length h.source_entity_id))

  behind_seq :
      drop (4 + h.entity_id_length + h.transaction_seq_length) buf
      ≡ be_octets h.entity_id_length h.destination_entity_id ++ rest
  behind_seq =
      drop_behind (4 + h.entity_id_length) _ buf
        (be_octets h.transaction_seq_length h.transaction_seq_number) _ behind_source
        (ap (λ n. 4 + h.entity_id_length + n)
          (length-be_octets h.transaction_seq_length h.transaction_seq_number))

  octet_0 : get_or buf 0 0 ≡ first_octet h
  octet_0 = get_or-drop 0 buf 0 _ _ whole

  octet_3 : get_or buf 3 0 ≡ fourth_octet h
  octet_3 = get_or-drop 3 buf 0 _ _ behind_3

  sized : u16 (get_uint buf 1 2) ≡ h.data_field_length
  sized = omega (
    arith,
    ok.data_field_length,
    read_uint-be_octets (drop 1 buf) 2 h.data_field_length _ behind_1 (omega arith)
        ok.data_field_length,
  )

  flags_read :
      (old : Header)
      → unpack_flags buf old ≡ record (canonical h) {
        source_entity_id = old.source_entity_id;
        transaction_seq_number = old.transaction_seq_number;
        destination_entity_id = old.destination_entity_id;
      }
  unfolding unpack_flags canonical
  flags_read old = rw (
    octet_0,
    octet_3,
    sized,
    version_field h ok,
    segmentation_control_field h ok,
    segment_metadata_flag_field h ok,
    pdu_type_field h ok,
    direction_field h ok,
    transmission_mode_field h ok,
    crc_flag_field h ok,
    large_file_flag_field h ok,
    entity_id_length_field h ok,
    transaction_seq_length_field h ok,
  )

  ids_read :
      (k : Header)
      → read_ids buf (record (canonical h) {
        source_entity_id = k.source_entity_id;
        transaction_seq_number = k.transaction_seq_number;
        destination_entity_id = k.destination_entity_id;
      })
        ≡ canonical h
  unfolding read_ids canonical
  ids_read k = rw (
    read_uint-be_octets (drop 4 buf) h.entity_id_length h.source_entity_id _ behind_4
        ok.entity_id_length.1 ok.source_entity_id,
    read_uint-be_octets (drop (4 + h.entity_id_length) buf) h.transaction_seq_length
        h.transaction_seq_number _ behind_source ok.transaction_seq_length.1
        ok.transaction_seq_number,
    read_uint-be_octets (drop (4 + h.entity_id_length + h.transaction_seq_length) buf)
        h.entity_id_length h.destination_entity_id rest behind_seq ok.entity_id_length.1
        ok.destination_entity_id,
  )

  -- A header is read from its octets, whatever follows them and whatever `hdr` held before.
  pub header_deserialize-octets :
      (buf_len : ℕ) (old : Header)
      → size_of h ≤ buf_len
      → header_deserialize (some buf) buf_len (some old) ≡ (size_of h, some (canonical h))
  unfolding canonical size_of
  header_deserialize-octets buf_len old room =
      header_deserialize_accepts buf buf_len (size_of h) old _ (flags_read old) ok.version
        (header_size_lem _ ok.entity_id_length ok.transaction_seq_length) (omega arith) room
      ∙ ap (λ k. (size_of h, some k)) (ids_read old)

-- What `cfdp_pdu_header_serialize` wrote, for a header that can be sent and a buffer with room
-- for it, `cfdp_pdu_header_deserialize` reads back, with the segment flags cleared in a File
-- Directive.
pub header_round_trip :
    (h old : Header) (buf : List ℕ) (buf_len : ℕ)
    → IsHeader h
    → size_of h ≤ buf_len
    → buf_len ≤ length buf
    → let (n, out) = header_serialize (some h) (some buf) buf_len in
      (n ≡ size_of h) × (header_deserialize out n (some old) ≡ (n, some (canonical h)))
unfolding overlay
header_round_trip h old buf buf_len ok room inside =
    rw (header_serialize-octets h buf buf_len ok room inside)
      (refl, header_deserialize-octets h _ _ ok refl (size_of h) old (omega arith))
