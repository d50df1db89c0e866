-- ===== src/Directive/Finished/Rounds.antt =====
-- The loop over the TLV chain of a Finished PDU as a step relation, and what holds in each of
-- its states.
use native.Mathlib.Decide.{dec_le, ℕ_discrete}
use mathlib.Core.Path.{subst}
use embedded_cfdp.Base.{
  ℕ, suc, ◌+◌, ◌-◌, ◌^◌, ◌≤◌, ◌<◌, ◌≡◌, ◌⊎◌, inl, inr, refl, ap, sym, ◌∙◌, arith, List, [], ◌∷◌,
  ◌++◌, some, true, false, ltb, leb, ◌&&◌, bool_cases, ◌==◌, ◌≢◌, length, length-drop, drop, get_or,
  take-drop, All, IsByte, drop-All,
}
use embedded_cfdp.Common.{IsIdLen}
use embedded_cfdp.Endian.{read_uint}
use embedded_cfdp.Endian.Octets.{be_octets}
use embedded_cfdp.Endian.Read.{read_uint-lt, be_octets-read_uint}
use embedded_cfdp.Tlv.{blank_tlv}
use embedded_cfdp.Tlv.Object.{tlv_deserialize_lem, too_short}
use embedded_cfdp.Tlv.EntityId.{entity_id_tlv_deserialize}
use embedded_cfdp.Tlv.EntityId.RoundTrip.{entity_id_octets}
use embedded_cfdp.Directive.Finished.{Finished, finished_tlv, finished_parse_tlvs}
use embedded_cfdp.Directive.Finished.Chain.{responded, one_response, one_location}

abbrev pub State : Type 0
State = ℕ × Finished

abbrev pub located : ℕ → ℕ → Finished → Finished
located entity_id id_len fin = record fin {
  fault_location_entity_id = entity_id;
  fault_location_len = id_len;
}

-- One round on the octets of `buf`, from the position and structure before to those after.
pub data Round (buf : List ℕ) (buf_len : ℕ) : State → State → Type 0 where
  response :
      (pos k : ℕ) (value : List ℕ) (fin : Finished)
      → drop pos buf ≡ 1 ∷ k ∷ value
      → pos + (k + 2) ≤ buf_len
      → fin.fault_location_len ≡ 0
      → Round buf buf_len (pos, fin) (pos + (k + 2), responded buf (pos + (k + 2)) fin)
  location :
      (pos entity_id id_len : ℕ) (rest : List ℕ) (fin : Finished)
      → drop pos buf ≡ entity_id_octets entity_id id_len ++ rest
      → pos + (id_len + 2) ≤ buf_len
      → IsIdLen id_len
      → entity_id < 256 ^ id_len
      → Round buf buf_len (pos, fin) (pos + (id_len + 2), located entity_id id_len fin)

pub data Rounds (buf : List ℕ) (buf_len : ℕ) : State → State → Type 0 where
  stop : (s : State) → Rounds buf buf_len s s
  go : {s t u : State} → Round buf buf_len s t → Rounds buf buf_len t u → Rounds buf buf_len s u

-- What stands at the position where a round starts.
pub record Starts (buf : List ℕ) (buf_len : ℕ) (s : State) : Type 0 where
  kind : ℕ
  k : ℕ
  value : List ℕ
  pub octets : drop s.0 buf ≡ kind ∷ k ∷ value
  pub fits : s.0 + (k + 2) ≤ buf_len
  pub admitted : ((kind ≡ 1) × (s.1.fault_location_len ≡ 0)) ⊎ ((kind ≡ 6) × IsIdLen k)

pub Round-Starts :
    {buf : List ℕ} {buf_len : ℕ} {s t : State} → Round buf buf_len s t → Starts buf buf_len s
unfolding entity_id_octets
Round-Starts (response pos k value fin e fits unlocated) = record {
  kind = 1;
  k = k;
  value = value;
  octets = e;
  fits = fits;
  admitted = inl (refl, unlocated);
}
Round-Starts (location pos entity_id id_len rest fin e fits ok bound) = record {
  kind = 6;
  k = id_len;
  value = be_octets id_len entity_id ++ rest;
  octets = e;
  fits = fits;
  admitted = inr (refl, ok);
}

-- No round starts in this state.
unfoldable pub IsStuck : List ℕ → ℕ → State → Type 0
IsStuck buf buf_len s = (t : State) → ¬ Round buf buf_len s t

-- The loop gives up where no round starts, or takes a round.
abbrev Next : List ℕ → ℕ → ℕ → Finished → Type 0
Next buf buf_len pos fin =
    (IsStuck buf buf_len (pos, fin)
      × ((fuel : ℕ) → finished_parse_tlvs (suc fuel) buf buf_len pos fin ≡ (0, fin)))
    ⊎ ((t : State) × Round buf buf_len (pos, fin) t
        × ((fuel : ℕ)
            → finished_parse_tlvs (suc fuel) buf buf_len pos fin
              ≡ finished_parse_tlvs fuel buf buf_len t.0 t.1))

module _ (buf : List ℕ) (buf_len : ℕ) (inside : buf_len ≤ length buf) (bytes : All IsByte buf)
    (small : buf_len < 2 ^ 16) where
  cut :
      (pos : ℕ) (fin : Finished)
      → pos < buf_len
      → buf_len - pos < get_or (drop pos buf) 1 0 + 2
      → Next buf buf_len pos fin
  unfolding finished_parse_tlvs IsStuck
  cut pos fin more short =
      let going : ltb pos buf_len ≡ true = ground arith in
      let e = too_short (drop pos buf) (buf_len - pos) blank_tlv short in
      inl (
        λ t round.
            let s = Round-Starts round in omega (arith, s.fits, ap (λ o. get_or o 1 0) s.octets),
        λ fuel. rw (going, e) refl,
      )

  -- Octets that start no round: neither a response before the fault location, nor a location.
  stuck :
      (pos kind k : ℕ) (value : List ℕ) (fin : Finished)
      → drop pos buf ≡ kind ∷ k ∷ value
      → (kind ≡ 1 → 1 ≤ fin.fault_location_len)
      → (kind ≡ 6 → ¬ (IsIdLen k))
      → IsStuck buf buf_len (pos, fin)
  unfolding IsStuck
  stuck pos kind k value fin e no_response no_location t round =
      let s = Round-Starts round in
      let same : kind ∷ k ∷ value ≡ s.kind ∷ s.k ∷ s.value = sym e ∙ s.octets in
      let kinds : kind ≡ s.kind = ap (λ o. get_or o 0 0) same in
      let lengths : k ≡ s.k = ap (λ o. get_or o 1 0) same in
      elim s.admitted [
        | inl (is, unlocated) ↦ omega (arith, no_response (kinds ∙ is), unlocated)
        | inr (is, ok) ↦
            no_location (kinds ∙ is) (omega (arith, lengths, ok.0), omega (arith, lengths, ok.1))
      ]

  response-Next :
      (pos k : ℕ) (value : List ℕ) (fin : Finished)
      → pos < buf_len
      → drop pos buf ≡ 1 ∷ k ∷ value
      → pos + (k + 2) ≤ buf_len
      → Next buf buf_len pos fin
  unfolding finished_parse_tlvs finished_tlv
  response-Next pos k value fin more e fits = elim (dec_le 1 fin.fault_location_len) [
    | no none_yet ↦
        let unlocated : fin.fault_location_len ≡ 0 = omega arith in
        inr (
          (pos + (k + 2), responded buf (pos + (k + 2)) fin),
          response pos k value fin e fits unlocated,
          λ fuel. one_response fuel buf buf_len pos k value fin e fits (omega arith) unlocated,
        )
    | yes there ↦
        let going : ltb pos buf_len ≡ true = ground arith in
        let read =
          tlv_deserialize_lem (drop pos buf) (buf_len - pos) 1 k value blank_tlv e (omega arith) in
        let refused : ltb 0 fin.fault_location_len ≡ true = ground arith in
        let some_octets : (k + 2 == 0) ≡ false = ground arith in
        inl (
          stuck pos 1 k value fin e (λ is. there) (λ is. absurd (omega arith)),
          λ fuel. rw (going, read, refused, some_octets) refl,
        )
  ]

  entity_id_refused :
      (pos k : ℕ) (value : List ℕ) (old old_len : ℕ)
      → drop pos buf ≡ 6 ∷ k ∷ value
      → pos + (k + 2) ≤ buf_len
      → ¬ (IsIdLen k)
      → entity_id_tlv_deserialize (some (drop pos buf)) (buf_len - pos) (some old) (some old_len)
        ≡ (0, some old, some old_len)
  unfolding entity_id_tlv_deserialize
  entity_id_refused pos k value old old_len e fits bad =
      rw (tlv_deserialize_lem (drop pos buf) (buf_len - pos) 6 k value blank_tlv e (omega arith))
        (ground arith)

  -- The identifier that stands in the value of an Entity ID TLV.
  identifier :
      (pos k : ℕ) (value : List ℕ)
      → drop pos buf ≡ 6 ∷ k ∷ value
      → pos + (k + 2) ≤ buf_len
      → k ≤ 8
      → (drop pos buf ≡ entity_id_octets (read_uint value k) k ++ drop k value)
        × (read_uint value k < 256 ^ k)
  unfolding entity_id_octets
  identifier pos k value e fits small_len =
      let count : k ≤ length value = omega (arith, length-drop {0} pos buf, ap length e) in
      let octets : All IsByte value = (subst (All IsByte) e (drop-All IsByte pos buf bytes)).1.1 in
      (
        e
            ∙ ap (λ r. 6 ∷ k ∷ r)
                (sym (take-drop k value)
                  ∙ ap (λ r. r ++ drop k value)
                      (sym (be_octets-read_uint value k count small_len octets))),
        read_uint-lt value k count small_len octets,
      )

  location-Next :
      (pos k : ℕ) (value : List ℕ) (fin : Finished)
      → pos < buf_len
      → drop pos buf ≡ 6 ∷ k ∷ value
      → pos + (k + 2) ≤ buf_len
      → Next buf buf_len pos fin
  unfolding finished_parse_tlvs finished_tlv
  location-Next pos k value fin more e fits = elim (bool_cases (leb 1 k && leb k 8)) [
    | inl within ↦
        let ok : IsIdLen k = (ground arith, ground arith) in
        let (octets, bound) = identifier pos k value e fits ok.1 in
        inr (
          (pos + (k + 2), located (read_uint value k) k fin),
          location pos (read_uint value k) k (drop k value) fin octets fits ok bound,
          λ fuel.
              one_location fuel buf buf_len pos (read_uint value k) k (drop k value) fin octets fits
                ok bound,
        )
    | inr outside ↦
        let bad : ¬ (IsIdLen k) = λ ok. ground arith in
        let going : ltb pos buf_len ≡ true = ground arith in
        let read =
          tlv_deserialize_lem (drop pos buf) (buf_len - pos) 6 k value blank_tlv e (omega arith) in
        let refused =
          entity_id_refused pos k value fin.fault_location_entity_id fin.fault_location_len e fits
            bad in
        let some_octets : (k + 2 == 0) ≡ false = ground arith in
        inl (
          stuck pos 6 k value fin e (λ is. absurd (omega arith)) (λ is. bad),
          λ fuel. rw (going, read, refused, some_octets) refl,
        )
  ]

  other-Next :
      (pos kind k : ℕ) (value : List ℕ) (fin : Finished)
      → pos < buf_len
      → drop pos buf ≡ kind ∷ k ∷ value
      → pos + (k + 2) ≤ buf_len
      → kind ≢ 1
      → kind ≢ 6
      → Next buf buf_len pos fin
  unfolding finished_parse_tlvs finished_tlv
  other-Next pos kind k value fin more e fits no_response no_location =
      let going : ltb pos buf_len ≡ true = ground arith in
      let read =
        tlv_deserialize_lem (drop pos buf) (buf_len - pos) kind k value blank_tlv e (omega arith) in
      let some_octets : (k + 2 == 0) ≡ false = ground arith in
      let unresponsive : (kind == 1) ≡ false = ground arith in
      let unlocated : (kind == 6) ≡ false = ground arith in
      inl (
        stuck pos kind k value fin e (λ is. absurd (no_response is))
            (λ is. absurd (no_location is)),
        λ fuel. rw (going, read, some_octets, unresponsive, unlocated) refl,
      )

  pub any-Next :
      (pos : ℕ) (fin : Finished) (octets : List ℕ)
      → pos < buf_len
      → drop pos buf ≡ octets
      → Next buf buf_len pos fin
  any-Next pos fin [] more e = absurd (omega (arith, length-drop {0} pos buf, ap length e))
  any-Next pos fin (kind ∷ []) more e =
      cut pos fin more (rw e (omega (arith, length-drop {0} pos buf, ap length e)))
  any-Next pos fin (kind ∷ k ∷ value) more e = elim (dec_le (pos + (k + 2)) buf_len) [
    | no long ↦ cut pos fin more (rw e (omega arith))
    | yes fits ↦ elim (ℕ_discrete kind 1) [
      | yes is ↦ response-Next pos k value fin more (e ∙ ap (λ t. t ∷ k ∷ value) is) fits
      | no no_response ↦ elim (ℕ_discrete kind 6) [
        | yes is ↦ location-Next pos k value fin more (e ∙ ap (λ t. t ∷ k ∷ value) is) fits
        | no no_location ↦ other-Next pos kind k value fin more e fits no_response no_location
      ]
    ]
  ]
