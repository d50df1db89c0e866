-- ===== src/Directive/Finished/Termination.antt =====
-- The loop over the TLV chain ends: how many rounds it takes, and where and with what it stops.
use native.Mathlib.Decide.{dec_lt}
use embedded_cfdp.Base.{
  ℕ, zero, suc, ◌+◌, ◌*◌, ◌^◌, ◌≤◌, ◌<◌, ◌≡◌, refl, inl, inr, ◌∙◌, arith, List, ◌==◌, true, false,
  length, drop, All, IsByte, if◌then◌else◌,
}
use embedded_cfdp.Directive.Finished.{Finished, finished_parse_tlvs}
use embedded_cfdp.Directive.Finished.Fuel.{finished_parse_tlvs_end}
use embedded_cfdp.Directive.Finished.Rounds.{
  State, Round, Round-Starts, Rounds, stop, go, IsStuck, any-Next,
}
use embedded_cfdp.Directive.Finished.Accepted.{Round-inside}

pub count : {buf : List ℕ} {buf_len : ℕ} {s t : State} → Rounds buf buf_len s t → ℕ
count (stop s) = 0
count (go r rs) = suc (count rs)

-- Rounds that lead from a state to one in which no round starts, each of them over at least two
-- octets; the answer is the end of the octets where they lead there, and 0 elsewhere, with the
-- structure that the rounds gathered.
pub record Ended (buf : List ℕ) (buf_len : ℕ) (s : State) (answer : ℕ × Finished) : Type 0 where
  pub last : State
  pub rounds : Rounds buf buf_len s last
  pub few : s.0 + 2 * count rounds ≤ last.0
  pub inside : last.0 ≤ buf_len
  pub stuck : IsStuck buf buf_len last
  pub answered : answer ≡ (if last.0 == buf_len then buf_len else 0, last.1)

end-IsStuck :
    (buf : List ℕ) (buf_len pos : ℕ) (fin : Finished)
    → buf_len ≤ pos
    → IsStuck buf buf_len (pos, fin)
unfolding IsStuck
end-IsStuck buf buf_len pos fin h t round = let s = Round-Starts round in omega (arith, s.fits)

at_once :
    (buf : List ℕ) (buf_len pos : ℕ) (fin : Finished) (answer : ℕ × Finished)
    → pos ≤ buf_len
    → IsStuck buf buf_len (pos, fin)
    → answer ≡ (if pos == buf_len then buf_len else 0, fin)
    → Ended buf buf_len (pos, fin) answer
unfolding count
at_once buf buf_len pos fin answer within stuck e = record {
  last = (pos, fin);
  rounds = stop (pos, fin);
  few = omega arith;
  inside = within;
  stuck = stuck;
  answered = e;
}

go-Ended :
    {buf : List ℕ} {buf_len : ℕ} {s t : State} {answer rest : ℕ × Finished}
    → Round buf buf_len s t
    → answer ≡ rest
    → Ended buf buf_len t rest
    → Ended buf buf_len s answer
unfolding count
go-Ended round e ended = record {
  last = ended.last;
  rounds = go round ended.rounds;
  few = omega (arith, ended.few, (Round-inside round).0);
  inside = ended.inside;
  stuck = ended.stuck;
  answered = e ∙ ended.answered;
}

parse-Ended :
    (fuel : ℕ) (buf : List ℕ) (buf_len pos : ℕ) (fin : Finished)
    → buf_len ≤ length buf
    → All IsByte buf
    → buf_len < 2 ^ 16
    → pos ≤ buf_len
    → ((t : State)
        → Round buf buf_len (pos, fin) t
        → Ended buf buf_len t (finished_parse_tlvs fuel buf buf_len t.0 t.1))
    → Ended buf buf_len (pos, fin) (finished_parse_tlvs (suc fuel) buf buf_len pos fin)
parse-Ended fuel buf buf_len pos fin inside bytes small within later = elim (dec_lt pos buf_len) [
  | no over ↦
      let here : (pos == buf_len) ≡ true = ground arith in
      let all : pos ≡ buf_len = omega arith in
      let e : (pos, fin) ≡ (if pos == buf_len then buf_len else 0, fin) =
        rw here (λ i. (all i, fin)) in
      at_once buf buf_len pos fin _ within (end-IsStuck buf buf_len pos fin (omega arith))
        (finished_parse_tlvs_end fuel buf buf_len pos fin (omega arith) ∙ e)
  | yes more ↦ elim (any-Next buf buf_len inside bytes small pos fin (drop pos buf) more refl) [
    | inl (stuck, gives_up) ↦
        let short : (pos == buf_len) ≡ false = ground arith in
        at_once buf buf_len pos fin _ within stuck (gives_up fuel ∙ rw short refl)
    | inr (t, round, run) ↦ go-Ended round (run fuel) (later t round)
  ]
]

-- Octets, `buf_len` of which are in the buffer, fewer than 2 ^ 16, and fuel for half of the
-- octets behind `pos`: the loop of `cfdp_finished_parse_tlvs` ends after rounds over at least two
-- octets each, in a state in which no Filestore Response TLV before a fault location and no
-- Entity ID TLV starts; it answers `buf_len` when that is the end of the octets and 0 otherwise,
-- and the structure that these rounds gathered.
pub finished_parse_tlvs_ends :
    (fuel : ℕ) (buf : List ℕ) (buf_len pos : ℕ) (fin : Finished)
    → buf_len ≤ length buf
    → All IsByte buf
    → buf_len < 2 ^ 16
    → pos ≤ buf_len
    → buf_len ≤ pos + 2 * fuel + 1
    → Ended buf buf_len (pos, fin) (finished_parse_tlvs (suc fuel) buf buf_len pos fin)
finished_parse_tlvs_ends zero buf buf_len pos fin inside bytes small within enough =
    parse-Ended zero buf buf_len pos fin inside bytes small within
      (λ t round. absurd (omega (arith, Round-inside round)))
finished_parse_tlvs_ends (suc fuel) buf buf_len pos fin inside bytes small within enough =
    parse-Ended (suc fuel) buf buf_len pos fin inside bytes small within (λ t round.
      let (on, kept) = Round-inside round in
      finished_parse_tlvs_ends fuel buf buf_len t.0 t.1 inside bytes small kept (omega arith))
