-- ===== src/Directive/Metadata/RoundTrip.antt =====
-- Reading a Metadata PDU back from its octets.
use embedded_cfdp.Base.{
  ℕ, ◌+◌, ◌-◌, ◌≤◌, ◌<◌, ◌≡◌, refl, ap, ◌∙◌, arith, List, [], ◌∷◌, ◌++◌, append_assoc, some, Bool,
  true, false, ◌!=◌, deref, length, length-take, take-append, get_or, drop, drop_behind, bit_and,
  ◌>>◌,
}
use embedded_cfdp.Base.Bits.{bit_and-mask}
use embedded_cfdp.Buffer.{contents}
use embedded_cfdp.Buffer.Overlay.{overlay, pointer_to, contents-pointer_to}
use embedded_cfdp.Common.{file_size_octets, file_size_octets_cases}
use embedded_cfdp.Endian.{read_uint}
use embedded_cfdp.Endian.Octets.{be_octets, length-be_octets}
use embedded_cfdp.Endian.Read.{read_uint-be_octets}
use embedded_cfdp.Tlv.{lv_deserialize}
use embedded_cfdp.Tlv.Lv.{lv_octets}
use embedded_cfdp.Tlv.Lv.Within.{behind_lv, stored, contents-stored, lv_read}
use embedded_cfdp.Directive.Metadata.{Metadata, metadata_serialize, metadata_deserialize}
use embedded_cfdp.Directive.Metadata.Layout.{
  IsMetadata, closure_bit, metadata_octets, metadata_size, metadata_serialize-octets,
}

-- Two structures that say the same: equal fields, and equal octets behind the pointers.
pub record SameMetadata (a b : Metadata) : Type 0 where
  pub closure_requested : a.closure_requested ≡ b.closure_requested
  pub checksum_type : a.checksum_type ≡ b.checksum_type
  pub file_size : a.file_size ≡ b.file_size
  pub source_filename_len : a.source_filename_len ≡ b.source_filename_len
  pub source_filename :
      contents a.source_filename a.source_filename_len
      ≡ contents b.source_filename b.source_filename_len
  pub destination_filename_len : a.destination_filename_len ≡ b.destination_filename_len
  pub destination_filename :
      contents a.destination_filename a.destination_filename_len
      ≡ contents b.destination_filename b.destination_filename_len
  pub options_len : a.options_len ≡ b.options_len
  pub options : contents a.options a.options_len ≡ contents b.options b.options_len

closure_field :
    (closure : Bool) (kind : ℕ)
    → kind < 16
    → (bit_and ((closure_bit closure + kind) >> 6) 0x1 != 0) ≡ closure
closure_field true kind h = ground (arith, bit_and-mask 1 ((64 + kind) >> 6))
closure_field false kind h = ground (arith, bit_and-mask 1 ((0 + kind) >> 6))

checksum_field :
    (closure : Bool) (kind : ℕ) → kind < 16 → bit_and (closure_bit closure + kind) 0xF ≡ kind
checksum_field true kind h = ground (arith, bit_and-mask 4 (64 + kind))
checksum_field false kind h = ground (arith, bit_and-mask 4 (0 + kind))

pub metadata_deserialize_lem :
    (md old : Metadata) (large_file_flag : ℕ) (buf rest : List ℕ)
    → IsMetadata md large_file_flag
    → buf ≡ metadata_octets md large_file_flag ++ rest
    → (got : Metadata) × (metadata_deserialize
          (some buf)
          (metadata_size md large_file_flag)
          large_file_flag
          (some old)
        ≡ (metadata_size md large_file_flag, some got))
      × SameMetadata got md
unfolding metadata_deserialize metadata_octets metadata_size
metadata_deserialize_lem md old flag buf rest ok whole = (
  record {
    closure_requested = md.closure_requested;
    checksum_type = md.checksum_type;
    file_size = md.file_size;
    source_filename = stored md.source_filename s after_source;
    source_filename_len = s;
    destination_filename = stored md.destination_filename d after_destination;
    destination_filename_len = d;
    options = pointer_to after_destination o;
    options_len = o;
  },
  rw (code, flags, closure, checksum, size, source_read, destination_read, third) (ground arith),
  record {
    closure_requested = refl;
    checksum_type = refl;
    file_size = refl;
    source_filename_len = refl;
    source_filename = contents-stored md.source_filename s after_source ok.source_filename;
    destination_filename_len = refl;
    destination_filename =
        contents-stored md.destination_filename d after_destination ok.destination_filename;
    options_len = refl;
    options =
        contents-pointer_to after_destination o
        ∙ take-append o (contents md.options o) rest
            (length-take o (deref [] md.options) ok.options);
  },
)
  where
    fs : ℕ
    fs = file_size_octets flag

    s : ℕ
    s = md.source_filename_len

    d : ℕ
    d = md.destination_filename_len

    o : ℕ
    o = md.options_len

    after_destination : List ℕ
    after_destination = contents md.options o ++ rest

    after_source : List ℕ
    after_source = lv_octets md.destination_filename d ++ after_destination

    layout :
        (size source destination options : List ℕ)
        → ((7 ∷ (closure_bit md.closure_requested + md.checksum_type) ∷ [])
              ++ size
              ++ source
              ++ destination
              ++ options)
            ++ rest
          ≡ 7
            ∷ (closure_bit md.closure_requested + md.checksum_type)
            ∷ (size ++ (source ++ (destination ++ (options ++ rest))))
    layout size source destination options = simp append_assoc

    laid :
        buf
        ≡ 7
          ∷ (closure_bit md.closure_requested + md.checksum_type)
          ∷ (be_octets fs md.file_size ++ (lv_octets md.source_filename s ++ after_source))
    laid =
        whole
        ∙ layout (be_octets fs md.file_size) (lv_octets md.source_filename s)
            (lv_octets md.destination_filename d) (contents md.options o)

    code : get_or buf 0 0 ≡ 7
    code = ap (λ b. get_or b 0 0) laid

    flags : get_or buf 1 0 ≡ closure_bit md.closure_requested + md.checksum_type
    flags = ap (λ b. get_or b 1 0) laid

    closure :
        (bit_and ((closure_bit md.closure_requested + md.checksum_type) >> 6) 0x1 != 0)
        ≡ md.closure_requested
    closure = closure_field md.closure_requested md.checksum_type ok.checksum_type

    checksum : bit_and (closure_bit md.closure_requested + md.checksum_type) 0xF ≡ md.checksum_type
    checksum = checksum_field md.closure_requested md.checksum_type ok.checksum_type

    size : read_uint (drop 2 buf) fs ≡ md.file_size
    size =
        read_uint-be_octets (drop 2 buf) fs md.file_size _ (ap (drop 2) laid)
          (ground (arith, file_size_octets_cases flag)) ok.file_size

    first : drop (2 + fs) buf ≡ lv_octets md.source_filename s ++ after_source
    first =
        drop_behind 2 (2 + fs) buf (be_octets fs md.file_size) _ (ap (drop 2) laid)
          (ap (λ n. 2 + n) (length-be_octets fs md.file_size))

    second : drop (2 + fs + (s + 1)) buf ≡ lv_octets md.destination_filename d ++ after_destination
    second = behind_lv (2 + fs) buf after_source md.source_filename s first ok.source_filename

    third : drop (2 + fs + (s + 1) + (d + 1)) buf ≡ after_destination
    third =
        behind_lv (2 + fs + (s + 1)) buf after_destination md.destination_filename d second
          ok.destination_filename

    source_read :
        lv_deserialize
          (some (drop (2 + fs) buf))
          (metadata_size md flag - (2 + fs))
          (some old.source_filename)
          (some old.source_filename_len)
        ≡ (s + 1, some (stored md.source_filename s after_source), some s)
    source_read =
        lv_read (drop (2 + fs) buf) after_source (metadata_size md flag - (2 + fs))
          md.source_filename old.source_filename s old.source_filename_len first (omega arith)

    destination_read :
        lv_deserialize
          (some (drop (2 + fs + (s + 1)) buf))
          (metadata_size md flag - (2 + fs + (s + 1)))
          (some old.destination_filename)
          (some old.destination_filename_len)
        ≡ (d + 1, some (stored md.destination_filename d after_destination), some d)
    destination_read =
        lv_read (drop (2 + fs + (s + 1)) buf) after_destination
          (metadata_size md flag - (2 + fs + (s + 1))) md.destination_filename
          old.destination_filename d old.destination_filename_len second (omega arith)

-- A structure that can be sent, written into a buffer with room for it, is read back under the
-- same large file flag: all octets are consumed, and what is stored says the same as what was
-- sent.
pub metadata_round_trip :
    (md old : Metadata) (large_file_flag : ℕ) (buf : List ℕ) (buf_len : ℕ)
    → IsMetadata md large_file_flag
    → metadata_size md large_file_flag ≤ buf_len
    → buf_len ≤ length buf
    → let (n, out) = metadata_serialize (some md) large_file_flag (some buf) buf_len in
      (got : Metadata) × (metadata_deserialize out n large_file_flag (some old) ≡ (n, some got))
      × SameMetadata got md
      × (n ≡ metadata_size md large_file_flag)
unfolding overlay
metadata_round_trip md old large_file_flag buf buf_len ok room inside =
    rw (metadata_serialize-octets md large_file_flag buf buf_len ok room inside) (
      let (got, e, same) = metadata_deserialize_lem md old large_file_flag _ _ ok refl in
      (got, e, same, refl))
