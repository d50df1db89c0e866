-- ===== src/Directive/Finished/Fuel.antt =====
-- Fuel beyond what the loop over the TLV chain needs changes nothing.
use embedded_cfdp.Base.{
  ℕ, zero, suc, ◌+◌, ◌-◌, ◌≤◌, ◌<◌, ◌≡◌, inl, inr, bool_cases, refl, ap, sym, ◌∙◌, arith, List,
  Option, some, Bool, false, not, ltb, ◌==◌, if◌then◌else◌, deref, drop,
}
use embedded_cfdp.Tlv.{Tlv, blank_tlv, tlv_deserialize}
use embedded_cfdp.Directive.Finished.{Finished, finished_tlv, finished_parse_tlvs}

-- Behind the last octet the loop ends.
pub finished_parse_tlvs_end :
    (fuel : ℕ) (buf : List ℕ) (buf_len pos : ℕ) (fin : Finished)
    → buf_len ≤ pos
    → finished_parse_tlvs (suc fuel) buf buf_len pos fin ≡ (pos, fin)
unfolding finished_parse_tlvs
finished_parse_tlvs_end fuel buf buf_len pos fin h =
    let over : ltb pos buf_len ≡ false = ground arith in rw over refl

-- One round, where the rounds that follow agree.
step :
    (fuel fuel' : ℕ) (buf : List ℕ) (buf_len pos : ℕ) (fin : Finished)
    → ((n : ℕ) (next : Finished)
        → 0 < n
        → finished_parse_tlvs (suc fuel) buf buf_len (pos + n) next
          ≡ finished_parse_tlvs (suc fuel') buf buf_len (pos + n) next)
    → finished_parse_tlvs (suc (suc fuel)) buf buf_len pos fin
      ≡ finished_parse_tlvs (suc (suc fuel')) buf buf_len pos fin
step fuel fuel' buf buf_len pos fin later = elim (bool_cases (n == 0)) [
  | inl e ↦ unfold finished_parse_tlvs in rw e refl
  | inr e ↦
      unrolled fuel ∙ ap (λ rest. round rest) (later n next (ground arith)) ∙ sym (unrolled fuel')
]
  where
    tlv : ℕ × Option Tlv
    tlv = tlv_deserialize (some (drop pos buf)) (buf_len - pos) (some blank_tlv)

    n : ℕ
    n = tlv.0

    after : Bool × Finished
    after = finished_tlv buf buf_len pos n (deref blank_tlv tlv.1) fin

    next : Finished
    next = after.1

    round : ℕ × Finished → ℕ × Finished
    round rest =
        if not (ltb pos buf_len)
        then (pos, fin)
        else if n == 0
        then (0, fin)
        else if not after.0
        then (0, next)
        else rest

    unrolled :
        (fuel : ℕ)
        → finished_parse_tlvs (suc (suc fuel)) buf buf_len pos fin
          ≡ round (finished_parse_tlvs (suc fuel) buf buf_len (pos + n) next)
    unrolled fuel = unfold finished_parse_tlvs in refl

-- Any fuel above the number of octets left gives the same answer.
pub finished_parse_tlvs_fuel :
    (fuel fuel' : ℕ) (buf : List ℕ) (buf_len pos : ℕ) (fin : Finished)
    → buf_len ≤ fuel + pos
    → buf_len ≤ fuel' + pos
    → finished_parse_tlvs (suc fuel) buf buf_len pos fin
      ≡ finished_parse_tlvs (suc fuel') buf buf_len pos fin
finished_parse_tlvs_fuel zero fuel' buf buf_len pos fin h k =
    finished_parse_tlvs_end zero buf buf_len pos fin (omega arith)
    ∙ sym (finished_parse_tlvs_end fuel' buf buf_len pos fin (omega arith))
finished_parse_tlvs_fuel (suc fuel) zero buf buf_len pos fin h k =
    finished_parse_tlvs_end (suc fuel) buf buf_len pos fin (omega arith)
    ∙ sym (finished_parse_tlvs_end zero buf buf_len pos fin (omega arith))
finished_parse_tlvs_fuel (suc fuel) (suc fuel') buf buf_len pos fin h k =
    step fuel fuel' buf buf_len pos fin (λ n next some_octets.
      finished_parse_tlvs_fuel fuel fuel' buf buf_len (pos + n) next (omega arith) (omega arith))
