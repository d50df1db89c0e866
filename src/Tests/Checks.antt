-- ===== src/Tests/Checks.antt =====
-- The CRC, the checksum and the big-endian fields on concrete octets.
use embedded_cfdp.Base.{ℕ, ◌+◌, ◌%◌, ◌^◌, ◌≡◌, refl, arith, List, [], ◌∷◌, some, true, IsByte, All}
use embedded_cfdp.Crc.{crc_update, crc_octet, crc_bits, crc_bit, crc_octets, crc_compute, crc_init}
use embedded_cfdp.Crc.Register.{register, message_bits, crc_octets-register}
use embedded_cfdp.Checksum.{
  checksum_compute, checksum_octets, checksum_octet, checksum_update, checksum_update_by_type,
}
use embedded_cfdp.Checksum.Lanes.{
  word_sum, checksum_compute-word_sum, checksum_update_by_type_lem, weighted_sum,
}

abbrev digits : List ℕ
digits = 49 ∷ 50 ∷ 51 ∷ 52 ∷ 53 ∷ 54 ∷ 55 ∷ 56 ∷ 57 ∷ []

abbrev five : List ℕ
five = 255 ∷ 1 ∷ 2 ∷ 3 ∷ 4 ∷ []

five_bytes : All IsByte five
five_bytes = omega arith

-- The check value that the catalogues give for this CRC.
crc_compute-digits : crc_compute (some digits) 9 ≡ 0x29B1
unfolding crc_compute crc_update crc_octets crc_octet crc_bits crc_bit
crc_compute-digits = refl

checksum_compute-five : checksum_compute (some five) 5 ≡ 0x0301_0203
unfolding checksum_compute checksum_update checksum_octets checksum_octet
checksum_compute-five = refl

crc_octets-register_example : crc_octets crc_init five ≡ register crc_init (message_bits five)
crc_octets-register_example = crc_octets-register crc_init five (omega arith) five_bytes

checksum_compute-word_sum_example : checksum_compute (some five) 5 ≡ word_sum five % 2 ^ 32
checksum_compute-word_sum_example = checksum_compute-word_sum five (omega arith) five_bytes

checksum_update_by_type_lem_example :
    checksum_update_by_type 0 (some 9) 3 (some five) 5
    ≡ (true, some ((9 + weighted_sum 3 five) % 2 ^ 32))
checksum_update_by_type_lem_example =
    checksum_update_by_type_lem 0 9 3 five (omega arith) (omega arith) five_bytes
