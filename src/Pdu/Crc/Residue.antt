-- ===== src/Pdu/Crc/Residue.antt =====
-- The received CRC matches exactly when the CRC of the whole PDU, its own CRC included, is zero.
use mathlib.Core.Path.{subst}
use embedded_cfdp.Base.{
  ℕ, ◌+◌, ◌-◌, ◌≤◌, ◌≡◌, ◌↔◌, ap, sym, ◌∙◌, arith, List, ◌++◌, true, length, take, drop, All,
  IsByte, IsU16, u16, length-drop, drop-All, take-add,
}
use embedded_cfdp.Endian.Octets.{be_octets}
use embedded_cfdp.Endian.Read.{read_uint-lt, be_octets-read_uint}
use embedded_cfdp.Buffer.{get_uint}
use embedded_cfdp.Crc.{crc_init, crc_octets}
use embedded_cfdp.Crc.Detection.{crc_octets-IsU16, crc_octets_injective}
use embedded_cfdp.Crc.Stream.{crc_octets-append, crc_compute-take, crc_octets_residue}
use embedded_cfdp.Pdu.Crc.{crc_matches}

-- Two octets at a position, as the list that they are in memory.
two_octets :
    (buf : List ℕ) (p : ℕ)
    → p + 2 ≤ length buf
    → All IsByte buf
    → take (p + 2) buf ≡ take p buf ++ be_octets 2 (get_uint buf p 2)
two_octets buf p h bytes =
    take-add p 2 buf
    ∙ ap (λ r. take p buf ++ r)
        (sym (
          be_octets-read_uint (drop p buf) 2 (omega (arith, length-drop {0} p buf)) (omega arith)
            (drop-All IsByte p buf bytes)))

module _ (buf : List ℕ) (p : ℕ) (inside : p + 2 ≤ length buf) (bytes : All IsByte buf) where
  computed : ℕ
  computed = crc_octets crc_init (take p buf)

  received : ℕ
  received = get_uint buf p 2

  computed-IsU16 : IsU16 computed
  unfolding computed
  computed-IsU16 = crc_octets-IsU16 crc_init (take p buf) (omega arith)

  received-IsU16 : IsU16 received
  unfolding received
  received-IsU16 =
      read_uint-lt (drop p buf) 2 (omega (arith, length-drop {0} p buf)) (omega arith)
        (drop-All IsByte p buf bytes)

  whole_crc : crc_octets crc_init (take (p + 2) buf) ≡ crc_octets computed (be_octets 2 received)
  unfolding computed received
  whole_crc =
      ap (crc_octets crc_init) (two_octets buf p inside bytes)
      ∙ crc_octets-append crc_init (take p buf) (be_octets 2 (get_uint buf p 2))

  equal_iff : (computed ≡ received) ↔ (crc_octets crc_init (take (p + 2) buf) ≡ 0)
  equal_iff = (
    λ e.
        whole_crc
        ∙ ap (λ c. crc_octets c (be_octets 2 received)) e
        ∙ crc_octets_residue received received-IsU16,
    λ e.
        crc_octets_injective (be_octets 2 received) computed received computed-IsU16 received-IsU16
          (sym whole_crc ∙ e ∙ sym (crc_octets_residue received received-IsU16)),
  )

  matches_iff : (crc_matches buf (p + 2) ≡ true) ↔ (computed ≡ received)
  unfolding crc_matches computed received
  matches_iff =
      let back : p + 2 - 2 ≡ p = omega arith in
      let narrow : u16 (get_uint buf p 2) ≡ get_uint buf p 2 = omega (arith, received-IsU16) in
      rw (back, crc_compute-take, narrow) (ground arith)

-- With at least two octets, all in the buffer, the comparison of the stored CRC with the
-- computed one succeeds exactly when the CRC over all of them is 0.
pub crc_matches_iff :
    (buf : List ℕ) (total : ℕ)
    → 2 ≤ total
    → total ≤ length buf
    → All IsByte buf
    → (crc_matches buf total ≡ true) ↔ (crc_octets crc_init (take total buf) ≡ 0)
crc_matches_iff buf total h k bytes =
    let e : total - 2 + 2 ≡ total = omega arith in
    let inside : total - 2 + 2 ≤ length buf = omega arith in
    let m = matches_iff buf (total - 2) inside bytes in
    let q = equal_iff buf (total - 2) inside bytes in
    subst (λ t. (crc_matches buf t ≡ true) ↔ (crc_octets crc_init (take t buf) ≡ 0)) e
      (λ x. q.0 (m.0 x), λ x. m.1 (q.1 x))
