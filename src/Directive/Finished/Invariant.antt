-- ===== src/Directive/Finished/Invariant.antt =====
-- What holds of the structure in every state of the loop over the TLV chain, and so of every
-- structure that `cfdp_finished_deserialize` hands out.
use mathlib.Core.Path.{subst}
use embedded_cfdp.Base.{
  ℕ, ◌+◌, ◌^◌, ◌≤◌, ◌<◌, ◌≡◌, ◌≢◌, ◌⊎◌, inl, inr, refl, ap, ap₂, sym, ◌∙◌, arith, List, [], ◌∷◌,
  ◌++◌, append_assoc, append-nil, Option, none, some, length, length-append, length-take,
  length-drop, get_or, take, drop, take-drop, drop_behind, All, IsByte,
}
use embedded_cfdp.Common.{IsIdLen}
use embedded_cfdp.Directive.Finished.{Finished, finished_read, finished_deserialize}
use embedded_cfdp.Directive.Finished.Chain.{responses_octets, responded}
use embedded_cfdp.Directive.Finished.Rounds.{State, Round, response, location, Rounds, stop, go}
use embedded_cfdp.Directive.Finished.Accepted.{finished_deserialize-Rounds}

-- The octets of a further response.
responses_octets-append :
    (values : List (List ℕ)) (value : List ℕ)
    → responses_octets (values ++ (value ∷ []))
      ≡ responses_octets values ++ (1 ∷ length value ∷ value)
unfolding responses_octets
responses_octets-append [] value = ap (λ r. 1 ∷ length value ∷ r) (append-nil value)
responses_octets-append (v ∷ values) value =
    ap (λ r. 1 ∷ length v ∷ (v ++ r)) (responses_octets-append values value) ∙ simp append_assoc

-- The responses that the structure reports, behind the two fixed octets.
pub record Reported (buf : List ℕ) (fin : Finished) : Type 0 where
  pub values : List (List ℕ)
  pub rest : List ℕ
  pub whole : drop 2 buf ≡ responses_octets values ++ rest
  pub count : length (responses_octets values) ≡ fin.filestore_responses_len

-- A state of the loop on `buf`.
pub record IsState (buf : List ℕ) (buf_len : ℕ) (s : State) : Type 0 where
  pub inside : (2 ≤ s.0) × (s.0 ≤ buf_len)
  pub fixed :
      (s.1.condition_code ≡ (finished_read buf).condition_code)
      × (s.1.delivery_code ≡ (finished_read buf).delivery_code)
      × (s.1.file_status ≡ (finished_read buf).file_status)
  pub fault_location :
      ((s.1.fault_location_len ≡ 0) × (s.1.fault_location_entity_id ≡ 0))
      ⊎ (IsIdLen s.1.fault_location_len
          × (s.1.fault_location_entity_id < 256 ^ s.1.fault_location_len))
  pub responses :
      ((s.1.filestore_responses ≡ none) × (s.1.filestore_responses_len ≡ 0))
      ⊎ (s.1.filestore_responses ≡ some (drop 2 buf))
  pub reported : Reported buf s.1
  pub span :
      (2 + s.1.filestore_responses_len ≤ s.0)
      × (s.1.fault_location_len ≡ 0 → 2 + s.1.filestore_responses_len ≡ s.0)

start-IsState :
    (buf : List ℕ) (buf_len : ℕ) → 2 ≤ buf_len → IsState buf buf_len (2, finished_read buf)
unfolding finished_read
start-IsState buf buf_len long = record {
  inside = (omega arith, long);
  fixed = (refl, refl, refl);
  fault_location = inl (refl, refl);
  responses = inl (refl, refl);
  reported = record {
    values = [];
    rest = drop 2 buf;
    whole = unfold responses_octets in refl;
    count = unfold responses_octets in refl;
  };
  span = (omega arith, λ _. omega arith);
}

-- A response joins those that are reported.
further_response :
    (buf : List ℕ) (buf_len pos k : ℕ) (value : List ℕ) (fin : Finished)
    → drop pos buf ≡ 1 ∷ k ∷ value
    → pos + (k + 2) ≤ length buf
    → 2 + fin.filestore_responses_len ≡ pos
    → Reported buf fin
    → Reported buf (responded buf (pos + (k + 2)) fin)
further_response buf buf_len pos k value fin e fits spans r =
    let have : k ≤ length value = omega (arith, length-drop {0} pos buf, ap length e) in
    let size : length (take k value) ≡ k = length-take k value have in
    let here : r.rest ≡ 1 ∷ k ∷ value =
      sym
        (drop_behind 2 pos buf (responses_octets r.values) r.rest r.whole (omega (arith, r.count)))
      ∙ e in
    let grown = responses_octets-append r.values (take k value) in
    record {
      values = r.values ++ (take k value ∷ []);
      rest = drop k value;
      whole =
          r.whole
          ∙ ap (λ t. responses_octets r.values ++ t)
              (here ∙ ap₂ (λ n t. 1 ∷ n ∷ t) (sym size) (sym (take-drop k value)))
          ∙ sym (
              append_assoc (responses_octets r.values) (1 ∷ length (take k value) ∷ take k value)
                (drop k value))
          ∙ ap (λ t. t ++ drop k value) (sym grown);
      count = omega (
        arith,
        ap length grown,
        length-append {0} (responses_octets r.values) (1 ∷ length (take k value) ∷ take k value),
        size,
        r.count,
      );
    }

Round-IsState :
    {buf : List ℕ} {buf_len : ℕ} {s t : State}
    → buf_len ≤ length buf
    → Round buf buf_len s t
    → IsState buf buf_len s
    → IsState buf buf_len t
Round-IsState {buf} {buf_len} room (response pos k value fin e fits unlocated) i =
    let spans = i.span.1 unlocated in
    record {
      inside = (omega (arith, i.inside), fits);
      fixed = i.fixed;
      fault_location = i.fault_location;
      responses = inr refl;
      reported = further_response buf buf_len pos k value fin e (omega arith) spans i.reported;
      span = (omega (arith, i.inside), λ _. omega (arith, i.inside));
    }
Round-IsState room (location pos entity_id id_len rest fin e fits ok bound) i = record {
  inside = (omega (arith, i.inside), fits);
  fixed = i.fixed;
  fault_location = inr (ok, bound);
  responses = i.responses;
  reported = record {
    values = i.reported.values;
    rest = i.reported.rest;
    whole = i.reported.whole;
    count = i.reported.count;
  };
  span = (omega (arith, i.span), λ absent. absurd (omega (arith, ok)));
}

-- A buffer that has its octets: what is well formed in one state of the loop is well formed in
-- every state that rounds lead to.
pub Rounds-IsState :
    {buf : List ℕ} {buf_len : ℕ} {s t : State}
    → buf_len ≤ length buf
    → Rounds buf buf_len s t
    → IsState buf buf_len s
    → IsState buf buf_len t
Rounds-IsState room (stop s) i = i
Rounds-IsState room (go r rs) i = Rounds-IsState room rs (Round-IsState room r i)

read_something :
    (buf : List ℕ) (buf_len : ℕ) (old : Finished) (n : ℕ) (out : Option Finished)
    → finished_deserialize (some buf) buf_len (some old) ≡ (n, out)
    → n ≢ 0
    → (2 ≤ buf_len) × (get_or buf 0 0 ≡ 5)
unfolding finished_deserialize
read_something buf buf_len old n out e ne = ground arith

-- Octets, `buf_len` of which are in the buffer, fewer than 2 ^ 16: where the decoder does not
-- answer 0 it consumes all of them; the responses stored are whole Filestore Response TLVs that
-- stand behind the two fixed octets and inside the data field, and reach to its end where there
-- is no fault location; and a fault location stored has a length of 1 to 8 octets, which it fits.
pub finished_deserialize-IsState :
    (buf : List ℕ) (buf_len : ℕ) (old fin : Finished) (n : ℕ)
    → buf_len ≤ length buf
    → All IsByte buf
    → buf_len < 2 ^ 16
    → finished_deserialize (some buf) buf_len (some old) ≡ (n, some fin)
    → n ≢ 0
    → (n ≡ buf_len) × IsState buf buf_len (n, fin)
finished_deserialize-IsState buf buf_len old fin n inside bytes small e ne =
    let (long, code) = read_something buf buf_len old n (some fin) e ne in
    let (iff, consumed) =
      finished_deserialize-Rounds buf buf_len old fin inside bytes long small code in
    let all : n ≡ buf_len = elim consumed [
      | inl none_read ↦ absurd (ne (ap (λ r. r.0) (sym e) ∙ none_read))
      | inr whole ↦ ap (λ r. r.0) (sym e) ∙ whole
    ] in
    let rs = iff.0 (e ∙ ap (λ k. (k, some fin)) all) in
    (
      all,
      subst (λ k. IsState buf buf_len (k, fin)) (sym all)
          (Rounds-IsState inside rs (start-IsState buf buf_len long)),
    )
