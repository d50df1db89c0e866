-- ===== src/Pdu/Crc/Append.antt =====
-- A PDU with its CRC appended passes the check.
use embedded_cfdp.Base.{
  ℕ, ◌+◌, ◌^◌, ◌≤◌, ◌<◌, ◌≡◌, ◌≢◌, ap, sym, ◌∙◌, arith, List, ◌++◌, some, true, deref, length, take,
  drop, All, All-append, IsByte, take-append, length-append, length-take, drop-All, take-All,
  append_assoc, take-drop, get_or,
}
use mathlib.Core.Path.{subst}
use embedded_cfdp.Endian.Octets.{be_octets, length-be_octets, be_octets-IsByte}
use embedded_cfdp.Buffer.{put_uint}
use embedded_cfdp.Buffer.Overlay.{overlay, Wrote-self, Wrote-uint}
use embedded_cfdp.Buffer.Agree.{Agree, Agree-front, Agree-le}
use embedded_cfdp.Crc.{crc_init, crc_octets, crc_compute}
use embedded_cfdp.Crc.Detection.{crc_octets-IsU16}
use embedded_cfdp.Crc.Stream.{crc_octets-append, crc_compute-take, crc_octets_residue}
use embedded_cfdp.Pdu.Header.{Header, blank_header, header_size, header_deserialize}
use embedded_cfdp.Pdu.Header.Local.{
  header_deserialize_stable, header_deserialize-size, header_deserialize_stores,
}
use embedded_cfdp.Pdu.Crc.{crc_append, crc_verify, crc_matches}
use embedded_cfdp.Pdu.Crc.Residue.{crc_matches_iff}

-- With a decoded header, the flag set and all octets there, the check is that of the CRC.
pub crc_verify-crc_matches :
    (buf : List ℕ) (buf_len n : ℕ) (h : Header)
    → header_deserialize (some buf) buf_len (some blank_header) ≡ (n, some h)
    → n ≢ 0
    → h.crc_flag ≡ 1
    → 2 ≤ h.data_field_length
    → n + h.data_field_length ≤ buf_len
    → crc_verify (some buf) buf_len ≡ crc_matches buf (n + h.data_field_length)
unfolding crc_verify
crc_verify-crc_matches buf buf_len n h e ne flag big room = rw e (ground arith)

-- What a successful append says of the PDU, and the memory that it leaves.
record Appended (buf : List ℕ) (pdu_len buf_len : ℕ) (result : ℕ) (out : List ℕ) : Type 0 where
  size : ℕ
  header : Header
  decoded : header_deserialize (some buf) pdu_len (some blank_header) ≡ (size, some header)
  accepted : size ≢ 0
  flag : header.crc_flag ≡ 1
  complete : result ≡ pdu_len + 2
  described : header_size (some header) + header.data_field_length ≡ pdu_len + 2
  room : pdu_len + 2 ≤ buf_len
  memory : out ≡ put_uint buf pdu_len (crc_compute (some buf) pdu_len) 2

crc_append-Appended :
    (buf out : List ℕ) (pdu_len buf_len n : ℕ)
    → crc_append (some buf) pdu_len buf_len ≡ (n, some out)
    → n ≢ 0
    → pdu_len < 2 ^ 63
    → Appended buf pdu_len buf_len n out
unfolding crc_append
crc_append-Appended buf out pdu_len buf_len n e ne small =
    let r = header_deserialize (some buf) pdu_len (some blank_header) in
    record {
      size = r.0;
      header = deref blank_header r.1;
      decoded = header_deserialize_stores buf pdu_len blank_header;
      accepted = ground arith;
      flag = ground arith;
      complete = ground arith;
      described = ground arith;
      room = ground arith;
      memory = ground arith;
    }

module _ (buf : List ℕ) (p : ℕ) (inside : p + 2 ≤ length buf) (bytes : All IsByte buf) where
  abbrev crc : ℕ
  crc = crc_octets crc_init (take p buf)

  abbrev sealed : List ℕ
  sealed = put_uint buf p (crc_compute (some buf) p) 2

  front-length : length (take p buf ++ be_octets 2 crc) ≡ p + 2
  front-length = omega (
    arith,
    length-append {0} (take p buf) (be_octets 2 crc),
    length-take p buf (omega arith),
    length-be_octets 2 crc,
  )

  sealed_octets : sealed ≡ (take p buf ++ be_octets 2 crc) ++ drop (p + 2) buf
  unfolding overlay
  sealed_octets =
      ap (λ c. put_uint buf p c 2) (crc_compute-take buf p)
      ∙ (Wrote-uint crc 2 (Wrote-self buf p (omega arith)) inside).octets
      ∙ ap (λ k. (take p buf ++ be_octets 2 crc) ++ drop k buf) front-length

  sealed-bytes : All IsByte sealed
  sealed-bytes = subst (All IsByte) (sym sealed_octets) (
      All-append IsByte (take p buf ++ be_octets 2 crc) (drop (p + 2) buf)
        (All-append IsByte (take p buf) (be_octets 2 crc) (take-All IsByte p buf bytes)
          (be_octets-IsByte 2 crc))
        (drop-All IsByte (p + 2) buf bytes))

  sealed-length : p + 2 ≤ length sealed
  sealed-length = omega (
    arith,
    ap length sealed_octets,
    length-append {0} (take p buf ++ be_octets 2 crc) (drop (p + 2) buf),
    front-length,
  )

  sealed_residue : crc_octets crc_init (take (p + 2) sealed) ≡ 0
  sealed_residue =
      ap (λ b. crc_octets crc_init (take (p + 2) b)) sealed_octets
      ∙ ap (crc_octets crc_init)
          (take-append (p + 2) (take p buf ++ be_octets 2 crc) (drop (p + 2) buf) front-length)
      ∙ crc_octets-append crc_init (take p buf) (be_octets 2 crc)
      ∙ crc_octets_residue crc (crc_octets-IsU16 crc_init (take p buf) (omega arith))

  buf-parts : buf ≡ take p buf ++ drop p buf
  buf-parts = sym (take-drop p buf)

  sealed-parts : sealed ≡ take p buf ++ (be_octets 2 crc ++ drop (p + 2) buf)
  sealed-parts = sealed_octets ∙ append_assoc (take p buf) (be_octets 2 crc) (drop (p + 2) buf)

  unsealed-Agree : Agree p buf sealed
  unsealed-Agree i lt =
      ap (λ b. get_or b i 0) buf-parts
      ∙ Agree-front (take p buf) (drop p buf) (be_octets 2 crc ++ drop (p + 2) buf) i
          (omega (arith, length-take p buf (omega arith)))
      ∙ ap (λ b. get_or b i 0) (sym sealed-parts)

-- Where `cfdp_pdu_crc_append`, given fewer than 2 ^ 63 octets and a length of the buffer that
-- it has, does not answer 0, it answers two octets more than it was given,
-- `cfdp_pdu_crc_verify` accepts the result, also with more octets of the buffer behind the PDU,
-- and the octets before the CRC stay as they were.
pub crc_append_verifies :
    (buf out : List ℕ) (pdu_len buf_len n given : ℕ)
    → crc_append (some buf) pdu_len buf_len ≡ (n, some out)
    → n ≢ 0
    → pdu_len < 2 ^ 63
    → buf_len ≤ length buf
    → All IsByte buf
    → n ≤ given
    → (n ≡ pdu_len + 2)
      × (crc_verify (some out) given ≡ true)
      × (take pdu_len out ≡ take pdu_len buf)
crc_append_verifies buf out pdu_len buf_len n given e ne small fits bytes more =
    (a.complete, ap (λ b. crc_verify (some b) given) a.memory ∙ passes, kept)
  where
    a : Appended buf pdu_len buf_len n out
    a = crc_append-Appended buf out pdu_len buf_len n e ne small

    inside : pdu_len + 2 ≤ length buf
    inside = omega (arith, a.room)

    measured : (header_size (some a.header) ≡ a.size) × (a.size ≤ pdu_len)
    measured = header_deserialize-size buf pdu_len a.size blank_header a.header a.decoded a.accepted

    whole : a.size + a.header.data_field_length ≡ pdu_len + 2
    whole = omega (arith, a.described, measured)

    redecoded :
        header_deserialize (some (sealed buf pdu_len inside bytes)) given (some blank_header)
        ≡ (a.size, some a.header)
    redecoded =
        header_deserialize_stable buf _ pdu_len given a.size blank_header a.header a.decoded
          a.accepted
          (Agree-le a.size pdu_len _ _ (unsealed-Agree buf pdu_len inside bytes) measured.1)
          (omega (arith, measured, a.complete))

    passes : crc_verify (some (sealed buf pdu_len inside bytes)) given ≡ true
    passes =
        crc_verify-crc_matches _ given a.size a.header redecoded a.accepted a.flag
          (omega (arith, whole, measured)) (omega (arith, whole, a.complete))
        ∙ ap (crc_matches _) whole
        ∙ (crc_matches_iff _ (pdu_len + 2) (omega arith) (sealed-length buf pdu_len inside bytes)
              (sealed-bytes buf pdu_len inside bytes)).1
            (sealed_residue buf pdu_len inside bytes)

    kept : take pdu_len out ≡ take pdu_len buf
    kept =
        ap (take pdu_len) (a.memory ∙ sealed-parts buf pdu_len inside bytes)
        ∙ take-append pdu_len (take pdu_len buf) _ (length-take pdu_len buf (omega (arith, inside)))
