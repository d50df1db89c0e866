-- ===== src/Directive/Eof/Accepted.antt =====
-- What `cfdp_eof_deserialize` accepts.
use embedded_cfdp.Base.{
  ℕ, ◌+◌, ◌-◌, ◌^◌, ◌≤◌, ◌<◌, ◌≡◌, ◌⊎◌, inl, inr, refl, ap, ◌∙◌, arith, List, some, Bool, true,
  false, ltb, ◌==◌, ◌!=◌, ◌||◌, bool_cases, deref, length, length-drop, take, drop, drop-All,
  get_or, All, IsByte, bit_and, u32, ◌>>◌,
}
use embedded_cfdp.Base.Bits.{bit_and-mask}
use embedded_cfdp.Buffer.{get_uint}
use embedded_cfdp.Common.{file_size_octets, file_size_octets-le}
use embedded_cfdp.Common.DirectiveCode
use embedded_cfdp.Endian.Octets.{be_octets}
use embedded_cfdp.Endian.Read.{read_uint-lt, be_octets-read_uint}
use embedded_cfdp.Tlv.EntityId.RoundTrip.{entity_id_tlv_deserialize_cases}
use embedded_cfdp.Directive.FaultLocation.{
  IsFaultLocation, fault_location_octets, fault_location_size,
}
use embedded_cfdp.Directive.Eof.{Eof, eof_read, eof_deserialize}

-- An EOF that was read from the first `n` octets, with a fault location or without one.
pub record AcceptedEof (buf : List ℕ) (buf_len fs n : ℕ) (with_location : Bool) (eof : Eof)
    : Type 0 where
  pub inside : n ≤ buf_len
  pub size : n ≡ fs + 6 + fault_location_size with_location eof.fault_location_len
  pub condition_code : eof.condition_code < 16
  pub file_checksum : eof.file_checksum < 2 ^ 32
  pub file_size : eof.file_size < 256 ^ fs
  pub fault_location :
      IsFaultLocation with_location eof.fault_location_entity_id eof.fault_location_len
  pub layout :
      (be_octets 4 eof.file_checksum ≡ take 4 (drop 2 buf))
      × (be_octets fs eof.file_size ≡ take fs (drop 6 buf))
      × (fault_location_octets with_location eof.fault_location_entity_id eof.fault_location_len
          ≡ take (n - (fs + 6)) (drop (fs + 6) buf))

module _ (buf : List ℕ) (buf_len large : ℕ) (inside : buf_len ≤ length buf)
    (bytes : All IsByte buf) where
  abbrev fs : ℕ
  fs = file_size_octets large

  abbrev fixed : Eof
  unfolding eof_read
  fixed = eof_read buf fs

  checksum_read :
      6 ≤ buf_len
      → (u32 (get_uint buf 2 4) ≡ get_uint buf 2 4)
        × (get_uint buf 2 4 < 2 ^ 32)
        × (be_octets 4 (get_uint buf 2 4) ≡ take 4 (drop 2 buf))
  checksum_read room =
      let have : 4 ≤ length (drop 2 buf) = omega (arith, length-drop {0} 2 buf) in
      let octets = drop-All IsByte 2 buf bytes in
      let bound = read_uint-lt (drop 2 buf) 4 have (omega arith) octets in
      (
        omega (arith, bound),
        omega (arith, bound),
        be_octets-read_uint (drop 2 buf) 4 have (omega arith) octets,
      )

  size_read :
      fs + 6 ≤ buf_len
      → (get_uint buf 6 fs < 256 ^ fs) × (be_octets fs (get_uint buf 6 fs) ≡ take fs (drop 6 buf))
  size_read room =
      let have : fs ≤ length (drop 6 buf) = omega (arith, length-drop {0} 6 buf) in
      let octets = drop-All IsByte 6 buf bytes in
      (
        read_uint-lt (drop 6 buf) fs have (file_size_octets-le large) octets,
        be_octets-read_uint (drop 6 buf) fs have (file_size_octets-le large) octets,
      )

  condition_read : bit_and (get_or buf 1 0 >> 4) 0xF < 16
  condition_read = omega (arith, bit_and-mask 4 (get_or buf 1 0 >> 4))

  accepted :
      (with_location : Bool) (n entity_id id_len : ℕ)
      → n ≤ buf_len
      → n ≡ fs + 6 + fault_location_size with_location id_len
      → IsFaultLocation with_location entity_id id_len
      → (fault_location_octets with_location entity_id id_len
          ≡ take (n - (fs + 6)) (drop (fs + 6) buf))
      → AcceptedEof buf buf_len fs n with_location
          (record fixed { fault_location_entity_id = entity_id; fault_location_len = id_len })
  unfolding eof_read
  accepted with_location n entity_id id_len room whole ok octets =
      let (narrow, checksum, checksum_octets) = checksum_read (omega arith) in
      let (size, size_octets) = size_read (omega arith) in
      record {
        inside = room;
        size = whole;
        condition_code = condition_read;
        file_checksum = omega (arith, narrow, checksum);
        file_size = size;
        fault_location = ok;
        layout = (ap (be_octets 4) narrow ∙ checksum_octets, size_octets, octets);
      }

  abbrev Answer : Eof → Type 0
  Answer old =
      let (n, out) = eof_deserialize (some buf) buf_len large (some old) in
      (n ≡ 0)
      ⊎ ((with_location : Bool) × AcceptedEof buf buf_len fs n with_location (deref old out))

  located_cases :
      (old : Eof)
      → (ltb buf_len (fs + 6) || get_or buf 0 0 != DirectiveCode.eof) ≡ false
      → (buf_len == fs + 6) ≡ false
      → Answer old
  unfolding eof_deserialize eof_read
  located_cases old passed more =
      let room : fs + 6 ≤ buf_len = ground arith in
      elim (entity_id_tlv_deserialize_cases (drop (fs + 6) buf) (buf_len - (fs + 6)) 0 0
        (omega (arith, length-drop {0} (fs + 6) buf)) (drop-All IsByte (fs + 6) buf bytes)) [
          | inl refused ↦ inl (rw (passed, more, refused) refl)
          | inr tlv ↦
              let (entity_id, id_len, e, ok, fits, octets, bound) = tlv in
              let n = fs + 6 + (id_len + 2) in
              let some_octets : (id_len + 2 == 0) ≡ false = ground arith in
              inr (
                true,
                rw (passed, more, e, some_octets)
                    (accepted true n entity_id id_len (omega (arith, fits)) refl (ok, bound)
                      (octets ∙ ap (λ k. take k (drop (fs + 6) buf)) (omega arith))),
              )
        ]

  cases : (old : Eof) → Answer old
  unfolding eof_deserialize eof_read
  cases old = elim (bool_cases (ltb buf_len (fs + 6) || get_or buf 0 0 != DirectiveCode.eof)) [
    | inl refused ↦ inl (rw refused refl)
    | inr passed ↦ elim (bool_cases (buf_len == fs + 6)) [
      | inr more ↦ located_cases old passed more
      | inl whole ↦
          let nothing : 0 ≡ fs + 6 - (fs + 6) = omega arith in
          inr (
            false,
            rw (passed, whole)
                (accepted false (fs + 6) 0 0 (ground arith) (omega arith) (refl, refl)
                  (ap (λ k. take k (drop (fs + 6) buf)) nothing)),
          )
    ]
  ]

-- Octets, `buf_len` of which are in the buffer: the EOF decoder answers 0, or what it stores are
-- a condition code of four bits and the checksum and the file size whose octets stand behind
-- the flags, and the octets consumed end with these, leaving no fault location, or with the
-- Entity ID TLV of the fault location stored.
pub eof_deserialize_cases :
    (buf : List ℕ) (buf_len large_file_flag : ℕ) (old : Eof)
    → buf_len ≤ length buf
    → All IsByte buf
    → let (n, out) = eof_deserialize (some buf) buf_len large_file_flag (some old) in
      (n ≡ 0)
      ⊎ ((with_location : Bool) × AcceptedEof buf buf_len
            (file_size_octets large_file_flag)
            n
            with_location
            (deref old out))
eof_deserialize_cases buf buf_len large_file_flag old inside bytes =
    cases buf buf_len large_file_flag inside bytes old
