-- ===== src/Directive/Finished/Parsing.antt =====
-- The loop over the TLV chain of a Finished PDU, run on octets that were written for it.
use embedded_cfdp.Base.{
  ℕ, suc, ◌+◌, ◌-◌, ◌≤◌, ◌≡◌, inl, inr, bool_cases, refl, ap, ap₂, sym, ◌∙◌, arith, List, [], ◌++◌,
  true, false, deref, length, length-take, take_all, drop, drop_behind,
}
use embedded_cfdp.Buffer.{contents}
use embedded_cfdp.Directive.FaultLocation.{IsFaultLocation, fault_location_octets}
use embedded_cfdp.Directive.Finished.{Finished, fault_location_required, finished_parse_tlvs}
use embedded_cfdp.Directive.Finished.Fuel.{finished_parse_tlvs_end}
use embedded_cfdp.Directive.Finished.Chain.{
  responses_octets, after_responses, one_location, chain_lem,
}
use embedded_cfdp.Directive.Finished.Layout.{IsFinished, finished_size}
use embedded_cfdp.Directive.Finished.Reading.{SameFinished, fuel_suc, fixed_of, Holds, after_Holds}

module _ (fin : Finished) (values : List (List ℕ)) (fuel : ℕ) (buf rest : List ℕ)
    (ok : IsFinished fin)
    (chain : contents fin.filestore_responses fin.filestore_responses_len ≡ responses_octets values)
    (e : drop 2 buf
      ≡ responses_octets values
        ++ (fault_location_octets
              (fault_location_required fin.condition_code)
              fin.fault_location_entity_id
              fin.fault_location_len
            ++ rest))
    (enough : finished_size fin ≤ fuel + 2) where
  abbrev octets : List ℕ
  octets = responses_octets values

  abbrev total : ℕ
  total = length octets

  count : total ≡ fin.filestore_responses_len
  count =
      sym (ap length chain)
      ∙ length-take fin.filestore_responses_len (deref [] fin.filestore_responses)
          ok.filestore_responses

  abbrev mid : Finished
  mid = after_responses buf 2 values (fixed_of fin)

  said : Holds fin values mid
  said = after_Holds fin values buf _ e

  abbrev located : Finished
  located = record mid {
    fault_location_entity_id = fin.fault_location_entity_id;
    fault_location_len = fin.fault_location_len;
  }

  to_location :
      finished_parse_tlvs (suc fuel) buf (finished_size fin) 2 (fixed_of fin)
      ≡ finished_parse_tlvs (suc fuel) buf (finished_size fin) (2 + total) mid
  unfolding finished_size
  to_location =
      chain_lem values fuel buf (finished_size fin) 2 _ (fixed_of fin) e (omega (arith, count))
        (omega (arith, count, ok.filestore_responses_len)) refl enough

  behind :
      drop (2 + total) buf
      ≡ fault_location_octets
          (fault_location_required fin.condition_code)
          fin.fault_location_entity_id
          fin.fault_location_len
        ++ rest
  behind = drop_behind 2 (2 + total) buf octets _ e refl

  same :
      (got : Finished)
      → got.condition_code ≡ mid.condition_code
      → got.delivery_code ≡ mid.delivery_code
      → got.file_status ≡ mid.file_status
      → got.filestore_responses ≡ mid.filestore_responses
      → got.filestore_responses_len ≡ mid.filestore_responses_len
      → got.fault_location_entity_id ≡ fin.fault_location_entity_id
      → got.fault_location_len ≡ fin.fault_location_len
      → SameFinished got fin
  unfolding Holds
  same got a b c p l i j = record {
    condition_code = a ∙ said.condition_code;
    delivery_code = b ∙ said.delivery_code;
    file_status = c ∙ said.file_status;
    filestore_responses_len = l ∙ said.filestore_responses_len ∙ count;
    filestore_responses = ap₂ contents p l ∙ said.filestore_responses ∙ take_all octets ∙ sym chain;
    fault_location_entity_id = i;
    fault_location_len = j;
  }

  ended :
      1 ≤ fuel
      → finished_size fin ≡ 2 + total + (fin.fault_location_len + 2)
      → finished_parse_tlvs fuel buf
          (finished_size fin)
          (2 + total + (fin.fault_location_len + 2))
          located
        ≡ (finished_size fin, located)
  ended some_fuel size =
      ap
        (λ f.
          finished_parse_tlvs f buf (finished_size fin) (2 + total + (fin.fault_location_len + 2))
            located)
        (fuel_suc fuel some_fuel)
      ∙ finished_parse_tlvs_end (fuel - 1) buf (finished_size fin)
          (2 + total + (fin.fault_location_len + 2)) located (omega arith)
      ∙ ap (λ n. (n, located)) (sym size)

  -- The chain is read to its end, and the structure then says what the one that was sent says.
  pub parse_lem :
      (got : Finished) × (finished_parse_tlvs (suc fuel) buf (finished_size fin) 2 (fixed_of fin)
        ≡ (finished_size fin, got))
      × SameFinished got fin
  unfolding finished_size Holds
  parse_lem = elim (bool_cases (fault_location_required fin.condition_code)) [
    | inr none_due ↦
        let loc : IsFaultLocation false fin.fault_location_entity_id fin.fault_location_len =
          rw none_due at ok.fault_location in
        (
          mid,
          to_location
              ∙ finished_parse_tlvs_end fuel buf (finished_size fin) (2 + total) mid
                  (rw none_due (omega (arith, count)))
              ∙ ap (λ n. (n, mid)) (rw none_due (omega (arith, count))),
          same mid refl refl refl refl refl (said.fault_location_entity_id ∙ sym loc.0)
              (said.fault_location_len ∙ sym loc.1),
        )
    | inl due ↦
        let loc : IsFaultLocation true fin.fault_location_entity_id fin.fault_location_len =
          rw due at ok.fault_location in
        let size : finished_size fin ≡ 2 + total + (fin.fault_location_len + 2) =
          rw due (omega (arith, count)) in
        (
          located,
          to_location
              ∙ one_location fuel buf (finished_size fin) (2 + total) fin.fault_location_entity_id
                  fin.fault_location_len rest mid (behind ∙ rw due refl) (omega arith) loc.0 loc.1
              ∙ ended (omega arith) size,
          same located refl refl refl refl refl refl refl,
        )
  ]
