-- ===== src/Directive/Finished/Accepted.antt =====
-- Which octets `cfdp_finished_deserialize` accepts, and what it stores for them.
use native.Mathlib.Decide.{dec_lt, ℕ_discrete}
use mathlib.Core.Path.{subst}
use embedded_cfdp.Base.{
  ℕ, zero, suc, ◌+◌, ◌-◌, ◌^◌, ◌≤◌, ◌<◌, ◌≡◌, ◌≢◌, ◌⊎◌, ◌↔◌, inl, inr, refl, ap, sym, ◌∙◌, arith,
  List, some, deref, length, get_or, drop, All, IsByte,
}
use embedded_cfdp.Directive.Finished.{
  Finished, finished_parse_tlvs, finished_read, finished_deserialize,
}
use embedded_cfdp.Directive.Finished.Fuel.{finished_parse_tlvs_end}
use embedded_cfdp.Directive.Finished.Chain.{one_response, one_location}
use embedded_cfdp.Directive.Finished.Rounds.{
  State, Round, response, location, Rounds, stop, go, any-Next,
}

-- A round goes on by at least two octets, and not past the last one.
pub Round-inside :
    {buf : List ℕ} {buf_len : ℕ} {s t : State}
    → Round buf buf_len s t
    → (s.0 + 2 ≤ t.0) × (t.0 ≤ buf_len)
Round-inside (response pos k value fin e fits unlocated) = (omega arith, fits)
Round-inside (location pos entity_id id_len rest fin e fits ok bound) = (omega arith, fits)

Round-runs :
    {buf : List ℕ} {buf_len : ℕ} {s t : State} (fuel : ℕ)
    → buf_len < 2 ^ 16
    → Round buf buf_len s t
    → finished_parse_tlvs (suc fuel) buf buf_len s.0 s.1
      ≡ finished_parse_tlvs fuel buf buf_len t.0 t.1
Round-runs {buf} {buf_len} fuel small (response pos k value fin e fits unlocated) =
    one_response fuel buf buf_len pos k value fin e fits (omega arith) unlocated
Round-runs {buf} {buf_len} fuel small (location pos entity_id id_len rest fin e fits ok bound) =
    one_location fuel buf buf_len pos entity_id id_len rest fin e fits ok bound

Rounds-runs :
    {buf : List ℕ} {buf_len : ℕ} {s t : State} (fuel : ℕ)
    → buf_len < 2 ^ 16
    → Rounds buf buf_len s t
    → t.0 ≡ buf_len
    → buf_len ≤ fuel + s.0
    → finished_parse_tlvs (suc fuel) buf buf_len s.0 s.1 ≡ t
Rounds-runs {buf} {buf_len} fuel small (stop s) e enough =
    finished_parse_tlvs_end fuel buf buf_len s.0 s.1 (omega arith)
Rounds-runs zero small (go r rs) e enough =
    let (on, inside) = Round-inside r in absurd (omega arith)
Rounds-runs (suc fuel) small (go r rs) e enough =
    let (on, inside) = Round-inside r in
    Round-runs (suc fuel) small r ∙ Rounds-runs fuel small rs e (omega arith)

module _ (buf : List ℕ) (buf_len : ℕ) (inside : buf_len ≤ length buf) (bytes : All IsByte buf)
    (small : buf_len < 2 ^ 16) where
  runs-Rounds :
      (fuel pos : ℕ) (fin : Finished) (n : ℕ) (out : Finished)
      → pos ≤ buf_len
      → finished_parse_tlvs fuel buf buf_len pos fin ≡ (n, out)
      → n ≢ 0
      → (n ≡ buf_len) × Rounds buf buf_len (pos, fin) (n, out)
  unfolding finished_parse_tlvs
  runs-Rounds zero pos fin n out h e ne = absurd (ne (sym (ap (λ r. r.0) e)))
  runs-Rounds (suc fuel) pos fin n out h e ne = elim (dec_lt pos buf_len) [
    | no over ↦
        let ended = finished_parse_tlvs_end fuel buf buf_len pos fin (omega arith) in
        let whole = sym ended ∙ e in
        (
          omega (arith, ap (λ r. r.0) whole),
          subst (λ s. Rounds buf buf_len (pos, fin) s) whole (stop (pos, fin)),
        )
    | yes more ↦ elim (any-Next buf buf_len inside bytes small pos fin (drop pos buf) more refl) [
      | inl gave_up ↦ absurd (ne (ap (λ r. r.0) (sym e ∙ gave_up.1 fuel)))
      | inr went ↦
          let (t, r, run) = went in
          let (all, rs) =
            runs-Rounds fuel t.0 t.1 n out (Round-inside r).1 (sym (run fuel) ∙ e) ne in
          (all, go r rs)
    ]
  ]

  abbrev run : ℕ × Finished
  run = finished_parse_tlvs buf_len buf buf_len 2 (finished_read buf)

  entered :
      (old : Finished)
      → 2 ≤ buf_len
      → get_or buf 0 0 ≡ 5
      → finished_deserialize (some buf) buf_len (some old) ≡ (run.0, some run.1)
  unfolding finished_deserialize
  entered old long code = rw code (ground arith)

  accepted_run :
      (old fin : Finished)
      → 2 ≤ buf_len
      → get_or buf 0 0 ≡ 5
      → finished_deserialize (some buf) buf_len (some old) ≡ (buf_len, some fin)
      → run ≡ (buf_len, fin)
  accepted_run old fin long code e =
      let stored = sym (entered old long code) ∙ e in
      let all = ap (λ r. r.0) stored in
      let same = ap (λ r. deref fin r.1) stored in λ i. (all i, same i)

  consumed : 2 ≤ buf_len → (run.0 ≡ 0) ⊎ (run.0 ≡ buf_len)
  consumed long = elim (ℕ_discrete run.0 0) [
    | yes none_read ↦ inl none_read
    | no ne ↦ inr (runs-Rounds buf_len 2 (finished_read buf) run.0 run.1 long refl ne).0
  ]

  run-Rounds :
      (fin : Finished)
      → 2 ≤ buf_len
      → Rounds buf buf_len (2, finished_read buf) (buf_len, fin)
      → run ≡ (buf_len, fin)
  run-Rounds fin long rs =
      let fuel : suc (buf_len - 1) ≡ buf_len = omega arith in
      ap (λ k. finished_parse_tlvs k buf buf_len 2 (finished_read buf)) (sym fuel)
      ∙ Rounds-runs (buf_len - 1) small rs refl (omega arith)

-- Octets, `buf_len` of which are in the buffer, fewer than 2 ^ 16, with the directive code of a
-- Finished PDU: the decoder consumes all of them and stores `fin` exactly when rounds of Filestore
-- Response TLVs, and then of Entity ID TLVs, lead from the fixed fields to the end and to `fin`;
-- otherwise it answers 0.
pub finished_deserialize-Rounds :
    (buf : List ℕ) (buf_len : ℕ) (old fin : Finished)
    → buf_len ≤ length buf
    → All IsByte buf
    → 2 ≤ buf_len
    → buf_len < 2 ^ 16
    → get_or buf 0 0 ≡ 5
    → ((finished_deserialize (some buf) buf_len (some old) ≡ (buf_len, some fin))
        ↔ Rounds buf buf_len (2, finished_read buf) (buf_len, fin))
      × (let n = (finished_deserialize (some buf) buf_len (some old)).0 in (n ≡ 0) ⊎ (n ≡ buf_len))
finished_deserialize-Rounds buf buf_len old fin inside bytes long small code =
    let e = entered buf buf_len inside bytes small old long code in
    (
      (
        λ h.
            (runs-Rounds buf buf_len inside bytes small buf_len 2 (finished_read buf) buf_len fin
              long (accepted_run buf buf_len inside bytes small old fin long code h)
              (omega arith)).1,
        λ rs. e ∙ ap (λ r. (r.0, some r.1)) (run-Rounds buf buf_len inside bytes small fin long rs),
      ),
      rw e (consumed buf buf_len inside bytes small long),
    )
