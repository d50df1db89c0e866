-- ===== src/Tlv/Filestore/Accepted.antt =====
-- What the decoder of the file names of a filestore TLV accepts.
use embedded_cfdp.Base.{
  ℕ, ◌-◌, ◌≤◌, ◌≡◌, ◌⊎◌, inl, inr, refl, ap₂, sym, ◌∙◌, arith, List, ◌++◌, none, Bool, true, false,
  ◌==◌, length, length-drop, take, take-add, drop,
}
use embedded_cfdp.Tlv.Lv.Accepted.{lv_deserialize_cases}
use embedded_cfdp.Tlv.Filestore.{Names, no_names, filestore_names_deserialize}
use embedded_cfdp.Tlv.Filestore.FileNames.{AreNames, names_octets, names_size}

-- Names that the decoder stored, and that are laid out as the octets consumed.
pub record AcceptedNames (has_second : Bool) (buf : List ℕ) (buf_len n : ℕ) (names : Names)
    : Type 0 where
  pub size : n ≡ names_size has_second names
  pub inside : n ≤ buf_len
  pub held : AreNames has_second names
  pub layout : names_octets has_second names ≡ take n buf

pub names_cases :
    (has_second : Bool) (buf : List ℕ) (buf_len : ℕ)
    → buf_len ≤ length buf
    → let (n, names) = filestore_names_deserialize buf buf_len has_second no_names in
      (n ≡ 0) ⊎ AcceptedNames has_second buf buf_len n names
unfolding filestore_names_deserialize names_octets names_size
names_cases false buf buf_len inside = elim (lv_deserialize_cases buf buf_len none 0 inside) [
  | inl refused ↦ inl (rw refused refl)
  | inr (n, first, first_len, e, one) ↦
      let some_octets : (n == 0) ≡ false = ground (arith, one.size) in
      inr (
        rw (e, some_octets)
          (record {
            size = one.size;
            inside = one.inside;
            held = (one.held, refl);
            layout = one.layout;
          }))
]
names_cases true buf buf_len inside = elim (lv_deserialize_cases buf buf_len none 0 inside) [
  | inl refused ↦ inl (rw refused refl)
  | inr (n, first, first_len, e, one) ↦
      let some_octets : (n == 0) ≡ false = ground (arith, one.size) in
      elim (lv_deserialize_cases (drop n buf) (buf_len - n) none 0
        (omega (arith, one.inside, length-drop {0} n buf))) [
          | inl refused ↦ inl (rw (e, some_octets, refused) refl)
          | inr (m, second, second_len, e', two) ↦
              let more_octets : (m == 0) ≡ false = ground (arith, two.size) in
              inr (
                rw (e, some_octets, e', more_octets)
                  (record {
                    size = omega (arith, one.size, two.size);
                    inside = omega (arith, one.inside, two.inside);
                    held = (one.held, two.held);
                    layout = ap₂ (λ a b. a ++ b) one.layout two.layout ∙ sym (take-add n m buf);
                  }))
        ]
]
