-- ===== src/Tlv/Filestore/FileNames.antt =====
-- The one or two file names of a filestore TLV: their octets, and that both directions agree.
use embedded_cfdp.Base.{
  ℕ, ◌+◌, ◌-◌, ◌≤◌, ◌≡◌, refl, ap, sym, ◌∙◌, arith, List, [], ◌++◌, append_assoc, none, some, Bool,
  true, false, deref, length, length-drop, drop, drop_behind,
}
use embedded_cfdp.Buffer.{contents, put_back}
use embedded_cfdp.Buffer.Overlay.{Wrote, Wrote-part, drop-overlay, overlay}
use embedded_cfdp.Tlv.Lv.{lv_octets, lv_serialize_lem}
use embedded_cfdp.Tlv.Lv.Within.{
  lv-Wrote, length-lv_octets, behind_lv, stored, contents-stored, lv_read,
}
use embedded_cfdp.Tlv.Filestore.{
  Names, no_names, filestore_names_serialize, filestore_names_deserialize,
}

-- Names whose pointers hold the octets that they announce; a name that the action does not
-- take is absent.
abbrev pub AreNames : Bool → Names → Type 0
AreNames true names =
    (names.first_len ≤ length (deref [] names.first))
    × (names.second_len ≤ length (deref [] names.second))
AreNames false names = (names.first_len ≤ length (deref [] names.first)) × (names.second_len ≡ 0)

unfoldable pub names_octets : Bool → Names → List ℕ
names_octets true names =
    lv_octets names.first names.first_len ++ lv_octets names.second names.second_len
names_octets false names = lv_octets names.first names.first_len

unfoldable pub names_size : Bool → Names → ℕ
names_size true names = names.first_len + 1 + (names.second_len + 1)
names_size false names = names.first_len + 1

names_serialize_lem :
    (has_second : Bool) (names : Names) (buf : List ℕ) (buf_len : ℕ)
    → AreNames has_second names
    → names_size has_second names ≤ buf_len
    → buf_len ≤ length buf
    → let (n, out) =
        filestore_names_serialize names.first names.first_len names.second names.second_len
          has_second buf buf_len in
      (n ≡ names_size has_second names)
      × Wrote buf (names_octets has_second names) (names_size has_second names) out
unfolding filestore_names_serialize names_octets names_size
names_serialize_lem true names buf buf_len ok room inside =
    let first : Wrote buf (lv_octets names.first names.first_len) (names.first_len + 1)
        (overlay (lv_octets names.first names.first_len) buf) =
      record {
        count = length-lv_octets names.first names.first_len ok.0;
        fits = omega arith;
        octets = refl;
      } in
    let (n, both) = lv-Wrote names.second names.second_len buf_len first ok.1 room inside in
    rw (lv_serialize_lem names.first names.first_len buf buf_len ok.0 (omega arith) inside, n)
      (ground (arith, both))
names_serialize_lem false names buf buf_len ok room inside =
    let first : Wrote buf (lv_octets names.first names.first_len) (names.first_len + 1)
        (overlay (lv_octets names.first names.first_len) buf) =
      record {
        count = length-lv_octets names.first names.first_len ok.0;
        fits = omega arith;
        octets = refl;
      } in
    rw (lv_serialize_lem names.first names.first_len buf buf_len ok.0 (omega arith) inside)
      (ground (arith, first))

-- The same in the middle of a buffer, behind what is written already.
pub names-Wrote :
    {buf front out : List ℕ} {n : ℕ} (has_second : Bool) (names : Names) (buf_len : ℕ)
    → Wrote buf front n out
    → AreNames has_second names
    → n + names_size has_second names ≤ buf_len
    → buf_len ≤ length buf
    → let (m, tail) =
        filestore_names_serialize names.first names.first_len names.second names.second_len
          has_second
          (drop n out)
          (buf_len - n) in
      (m ≡ names_size has_second names)
      × Wrote buf
          (front ++ names_octets has_second names)
          (n + names_size has_second names)
          (put_back out n (some tail))
unfolding put_back
names-Wrote {buf} {front} {out} {n} has_second names buf_len w ok room inside =
    let there : buf_len - n ≤ length (drop n out) =
      omega (arith, length-drop {0} n buf, ap length (drop-overlay w)) in
    let (m, written) =
      names_serialize_lem has_second names (drop n out) (buf_len - n) ok (omega arith) there in
    (m, Wrote-part (names_octets has_second names) _ (names_size has_second names) w written)

-- Names that say the same.
pub record SameNames (a b : Names) : Type 0 where
  pub first_len : a.first_len ≡ b.first_len
  pub first : contents a.first a.first_len ≡ contents b.first b.first_len
  pub second_len : a.second_len ≡ b.second_len
  pub second : contents a.second a.second_len ≡ contents b.second b.second_len

pub names_read :
    (has_second : Bool) (names : Names) (buf rest : List ℕ) (room : ℕ)
    → AreNames has_second names
    → buf ≡ names_octets has_second names ++ rest
    → names_size has_second names ≤ room
    → (got : Names) × (filestore_names_deserialize buf room has_second no_names
        ≡ (names_size has_second names, got))
      × SameNames got names
      × (drop (names_size has_second names) buf ≡ rest)
unfolding filestore_names_deserialize names_octets names_size
names_read true names buf rest room ok e fits =
    let second_octets = lv_octets names.second names.second_len in
    let whole : buf ≡ lv_octets names.first names.first_len ++ (second_octets ++ rest) =
      e ∙ simp append_assoc in
    let behind : drop (names.first_len + 1) buf ≡ second_octets ++ rest =
      drop_behind 0 (names.first_len + 1) buf (lv_octets names.first names.first_len)
        (second_octets ++ rest) whole
        (omega (arith, length-lv_octets names.first names.first_len ok.0)) in
    (
      record {
        first = stored names.first names.first_len (second_octets ++ rest);
        first_len = names.first_len;
        second = stored names.second names.second_len rest;
        second_len = names.second_len;
      },
      rw
          (
            lv_read buf (second_octets ++ rest) room names.first none names.first_len 0 whole
                (omega arith),
            lv_read (drop (names.first_len + 1) buf) rest (room - (names.first_len + 1))
                names.second none names.second_len 0 behind (omega arith),
          )
          (ground arith),
      record {
        first_len = refl;
        first = contents-stored names.first names.first_len (second_octets ++ rest) ok.0;
        second_len = refl;
        second = contents-stored names.second names.second_len rest ok.1;
      },
      behind_lv (names.first_len + 1) buf rest names.second names.second_len behind ok.1,
    )
names_read false names buf rest room ok e fits = (
  record {
    first = stored names.first names.first_len rest;
    first_len = names.first_len;
    second = none;
    second_len = 0;
  },
  rw (lv_read buf rest room names.first none names.first_len 0 e (omega arith)) (ground arith),
  record {
    first_len = refl;
    first = contents-stored names.first names.first_len rest ok.0;
    second_len = sym ok.1;
    second = ap (contents names.second) (sym ok.1);
  },
  drop_behind 0 (names.first_len + 1) buf (lv_octets names.first names.first_len) rest e
      (omega (arith, length-lv_octets names.first names.first_len ok.0)),
)

pub names_size_pos : (has_second : Bool) (names : Names) → 1 ≤ names_size has_second names
unfolding names_size
names_size_pos true names = omega arith
names_size_pos false names = omega arith
