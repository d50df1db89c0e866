-- ===== src/Directive/Finished/Reading.antt =====
-- What the loop over the TLV chain of a Finished PDU gathers, field by field.
use native.Mathlib.Nat.{add-zero}
use mathlib.Core.Path.{subst}
use embedded_cfdp.Base.{
  ℕ, suc, ◌+◌, ◌-◌, ◌≤◌, ◌≡◌, refl, ap, sym, ◌∙◌, arith, List, [], ◌∷◌, ◌++◌, none, some, length,
  length-append, take, take_all, take-append, drop, get_or, bit_and, ◌>>◌,
}
use embedded_cfdp.Base.Bits.{bit_and-mask}
use embedded_cfdp.Buffer.{contents}
use embedded_cfdp.Directive.Finished.{Finished, finished_read}
use embedded_cfdp.Directive.Finished.Chain.{responses_octets, responded, after_responses}
use embedded_cfdp.Directive.Finished.Layout.{IsFinished, codes_of}

-- Two structures that say the same: equal fields, and equal octets behind the pointers.
pub record SameFinished (a b : Finished) : Type 0 where
  pub condition_code : a.condition_code ≡ b.condition_code
  pub delivery_code : a.delivery_code ≡ b.delivery_code
  pub file_status : a.file_status ≡ b.file_status
  pub filestore_responses_len : a.filestore_responses_len ≡ b.filestore_responses_len
  pub filestore_responses :
      contents a.filestore_responses a.filestore_responses_len
      ≡ contents b.filestore_responses b.filestore_responses_len
  pub fault_location_entity_id : a.fault_location_entity_id ≡ b.fault_location_entity_id
  pub fault_location_len : a.fault_location_len ≡ b.fault_location_len

pub fuel_suc : (fuel : ℕ) → 1 ≤ fuel → fuel ≡ suc (fuel - 1)
fuel_suc fuel h = omega arith

-- The structure before the chain is read.
abbrev pub fixed_of : Finished → Finished
fixed_of fin = record fin {
  filestore_responses = none;
  filestore_responses_len = 0;
  fault_location_entity_id = 0;
  fault_location_len = 0;
}

pub finished_read_lem :
    (fin : Finished) (buf body : List ℕ)
    → IsFinished fin
    → buf ≡ 5 ∷ codes_of fin ∷ body
    → finished_read buf ≡ fixed_of fin
unfolding finished_read
finished_read_lem fin buf body ok e =
    let codes = codes_of fin in
    let condition : bit_and (codes >> 4) 0xF ≡ fin.condition_code =
      ground
        (arith, ok.condition_code, ok.delivery_code, ok.file_status, bit_and-mask 4 (codes >> 4)) in
    let delivery : bit_and (codes >> 2) 0x1 ≡ fin.delivery_code =
      ground
        (arith, ok.condition_code, ok.delivery_code, ok.file_status, bit_and-mask 1 (codes >> 2)) in
    let status : bit_and codes 0x3 ≡ fin.file_status =
      ground (arith, ok.condition_code, ok.delivery_code, ok.file_status, bit_and-mask 2 codes) in
    let second : get_or buf 1 0 ≡ codes = ap (λ b. get_or b 1 0) e in
    rw (second, condition, delivery, status) refl

after_responses_lem :
    (buf : List ℕ) (pos : ℕ) (values : List (List ℕ)) (fin : Finished)
    → after_responses buf pos values (responded buf pos fin)
      ≡ responded buf (pos + length (responses_octets values)) fin
unfolding after_responses responses_octets
after_responses_lem buf pos [] fin = ap (λ p. responded buf p fin) (sym (add-zero pos))
after_responses_lem buf pos (value ∷ values) fin =
    let ends : pos + (length value + 2) + length (responses_octets values)
        ≡ pos + suc (suc (length (value ++ responses_octets values))) =
      omega (arith, length-append value (responses_octets values)) in
    after_responses_lem buf (pos + (length value + 2)) values fin
    ∙ ap (λ p. responded buf p fin) ends

-- The responses that have been read are those that were there.
unfoldable pub Holds : Finished → List (List ℕ) → Finished → Type 0
Holds fin values got = SameFinished got (record fin {
  filestore_responses = some (responses_octets values);
  filestore_responses_len = length (responses_octets values);
  fault_location_entity_id = 0;
  fault_location_len = 0;
})

pub after_Holds :
    (fin : Finished) (values : List (List ℕ)) (buf tail : List ℕ)
    → drop 2 buf ≡ responses_octets values ++ tail
    → Holds fin values (after_responses buf 2 values (fixed_of fin))
unfolding Holds after_responses responses_octets
after_Holds fin [] buf tail e = record {
  condition_code = refl;
  delivery_code = refl;
  file_status = refl;
  filestore_responses_len = refl;
  filestore_responses = refl;
  fault_location_entity_id = refl;
  fault_location_len = refl;
}
after_Holds fin (value ∷ values) buf tail e =
    let octets = responses_octets (value ∷ values) in
    let count : 2 + (length value + 2) + length (responses_octets values) - 2 ≡ length octets =
      omega (arith, length-append value (responses_octets values)) in
    let read : after_responses buf 2 (value ∷ values) (fixed_of fin) ≡ record (fixed_of fin) {
      filestore_responses = some (drop 2 buf);
      filestore_responses_len = length octets;
    } =
      after_responses_lem buf (2 + (length value + 2)) values (fixed_of fin) ∙ λ i.
      record (fixed_of fin) {
        filestore_responses = some (drop 2 buf);
        filestore_responses_len = count i;
      } in
    subst (λ got. Holds fin (value ∷ values) got) (sym read)
      (record {
        condition_code = refl;
        delivery_code = refl;
        file_status = refl;
        filestore_responses_len = refl;
        filestore_responses =
            ap (take (length octets)) e
            ∙ take-append (length octets) octets tail refl
            ∙ sym (take_all octets);
        fault_location_entity_id = refl;
        fault_location_len = refl;
      })
