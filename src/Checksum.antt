-- ===== src/Checksum.antt =====
-- src/cfdp_checksum.c: the modular and the null checksum of a file.
pub mod Lanes
pub mod Segments
pub mod File
use embedded_cfdp.Base.{
  ℕ, ◌+◌, ◌-◌, ◌*◌, List, [], ◌∷◌, Option, none, some, Bool, true, false, not, ◌||◌, bit_and, u8,
  u32, u64, ◌<<◌, ◌==◌, if◌then◌else◌, take,
}
use embedded_cfdp.Common.{checksum_modular, checksum_null}

-- One round of `cfdp_checksum_update`.
unfoldable pub checksum_octet : ℕ → ℕ → ℕ → ℕ → ℕ
checksum_octet checksum offset i octet =
    let lane = u8 (bit_and (u64 (offset + i)) 0x3) in
    let shift = u8 (8 * (3 - lane)) in u32 (checksum + u32 (octet << shift))

-- Its loop, over `data[i..len)`.
unfoldable pub checksum_octets : ℕ → ℕ → ℕ → List ℕ → ℕ
checksum_octets checksum offset i [] = checksum
checksum_octets checksum offset i (octet ∷ octets) =
    checksum_octets (checksum_octet checksum offset i octet) offset (i + 1) octets

-- `cfdp_checksum_update`
unfoldable pub checksum_update : ℕ → ℕ → Option (List ℕ) → ℕ → ℕ
checksum_update checksum offset none len = checksum
checksum_update checksum offset (some octets) len =
    if len == 0 then checksum else checksum_octets checksum offset 0 (take len octets)

-- `cfdp_checksum_compute`
unfoldable pub checksum_compute : Option (List ℕ) → ℕ → ℕ
checksum_compute octets len = checksum_update 0 0 octets len

-- `cfdp_checksum_type_supported`
pub checksum_type_supported : ℕ → Bool
checksum_type_supported kind = (kind == checksum_modular) || (kind == checksum_null)

-- `cfdp_checksum_update_by_type`: the result, and what `checksum` then points to.
pub checksum_update_by_type : ℕ → Option ℕ → ℕ → Option (List ℕ) → ℕ → Bool × Option ℕ
checksum_update_by_type kind none offset octets len = (false, none)
checksum_update_by_type kind (some checksum) offset octets len =
    if not (checksum_type_supported kind) then (false, some checksum) else (
      true,
      some (if kind == checksum_null then 0 else checksum_update checksum offset octets len),
    )
