-- ===== src/Buffer/Overlay.antt =====
-- What sequences of writes leave behind: a front, and the old octets after it.
use mathlib.Core.Path.{subst₂}
use embedded_cfdp.Base.{
  ℕ, zero, suc, ◌+◌, ◌≤◌, ◌<◌, ◌≡◌, refl, sym, ap, ap₂, ◌∙◌, arith, List, [], ◌∷◌, ◌++◌,
  append_assoc, append-nil, deref, ltb, ltb-true, if◌then◌else◌, is_null, ◌&&◌, none, some, false,
}
use embedded_cfdp.Base.{
  length, take, drop, set, length-append, length-drop, drop-drop, drop-append, take-append,
  drop-cons, set-append, get_or, length-take, take-drop,
}
use embedded_cfdp.Endian.{write_uint}
use embedded_cfdp.Endian.Octets.{be_octets, length-be_octets}
use embedded_cfdp.Endian.Write.{write_uint-be_octets}
use embedded_cfdp.Buffer.{Pointer, contents, splice, memcpy, put_uint, put_octets}

-- `buf` with its first octets replaced by `front`.
unfoldable pub overlay : List ℕ → List ℕ → List ℕ
overlay front buf = front ++ drop (length front) buf

-- `out` is `buf` with exactly `front`, of `n` octets, written over its start.
pub record Wrote (buf front : List ℕ) (n : ℕ) (out : List ℕ) : Type 0 where
  pub count : length front ≡ n
  pub fits : n ≤ length buf
  pub octets : out ≡ overlay front buf

pub memcpy-take :
    (dst src : List ℕ) (n : ℕ)
    → n ≤ length dst
    → n ≤ length src
    → memcpy dst src n ≡ take n src ++ drop n dst
unfolding memcpy
memcpy-take dst src zero h k = refl
memcpy-take [] src (suc n) h k = absurd (omega arith)
memcpy-take (d ∷ dst) [] (suc n) h k = absurd (omega arith)
memcpy-take (d ∷ dst) (s ∷ src) (suc n) h k =
    ap (λ r. s ∷ r) (memcpy-take dst src n (omega arith) (omega arith))

-- Nothing is written yet.
pub Wrote-nothing : (buf : List ℕ) → Wrote buf [] 0 buf
unfolding overlay
Wrote-nothing buf = record { count = refl; fits = omega arith; octets = refl }

-- What stands behind the front.
pub drop-overlay :
    {buf front out : List ℕ} {n : ℕ} → Wrote buf front n out → drop n out ≡ drop n buf
unfolding overlay
drop-overlay {buf} {front} {n = n} w =
    ap (drop n) w.octets
    ∙ drop-append n front (drop (length front) buf) w.count
    ∙ ap (λ k. drop k buf) w.count

-- A call that writes `more` from `&out[n]` on.
pub Wrote-part :
    {buf front out : List ℕ} {n : ℕ} (more tail : List ℕ) (m : ℕ)
    → Wrote buf front n out
    → Wrote (drop n out) more m tail
    → Wrote buf (front ++ more) (n + m) (splice out n tail)
unfolding overlay splice
Wrote-part {buf} {front} {out} {n} more tail m w v = record {
  count = omega (arith, length-append {0} front more, w.count, v.count);
  fits = omega (arith, v.fits, length-drop {0} n buf, ap length (drop-overlay w), w.fits);
  octets =
      ap₂ ◌++◌ kept (v.octets ∙ ap (λ r. more ++ r) behind)
      ∙ sym (append_assoc front more (drop (length (front ++ more)) buf));
}
  where
    kept : take n out ≡ front
    kept = ap (take n) w.octets ∙ take-append n front (drop (length front) buf) w.count

    behind : drop (length more) (drop n out) ≡ drop (length (front ++ more)) buf
    behind =
        ap (drop (length more)) (drop-overlay w)
        ∙ drop-drop (length more) n (length (front ++ more)) buf
            (omega (arith, w.count, length-append {0} front more))

-- `out[n] = v`
pub Wrote-octet :
    {buf front out : List ℕ} {n : ℕ} (v : ℕ)
    → Wrote buf front n out
    → n < length buf
    → Wrote buf (front ++ (v ∷ [])) (n + 1) (set out n v)
unfolding overlay
Wrote-octet {buf} {front} {out} {n} v w h = record {
  count = omega (arith, length-append {0} front (v ∷ []), w.count);
  fits = omega arith;
  octets =
      ap (λ b. set b n v) (w.octets ∙ ap (λ r. front ++ r) here)
      ∙ set-append n front (get_or buf n 0) (drop (suc n) buf) v w.count
      ∙ ap (λ k. front ++ (v ∷ drop k buf)) next
      ∙ sym (append_assoc front (v ∷ []) (drop (length (front ++ (v ∷ []))) buf));
}
  where
    here : drop (length front) buf ≡ get_or buf n 0 ∷ drop (suc n) buf
    here = ap (λ k. drop k buf) w.count ∙ drop-cons n buf 0 h

    next : suc n ≡ length (front ++ (v ∷ []))
    next = omega (arith, length-append {0} front (v ∷ []), w.count)

-- `cfdp_write_uint(&out[n], v, k)`
pub Wrote-uint :
    {buf front out : List ℕ} {n : ℕ} (v k : ℕ)
    → Wrote buf front n out
    → n + k ≤ length buf
    → Wrote buf (front ++ be_octets k v) (n + k) (put_uint out n v k)
unfolding put_uint overlay
Wrote-uint {buf} {front} {out} {n} v k w h =
    Wrote-part (be_octets k v) (write_uint (drop n out) v k) k w (record {
      count = length-be_octets k v;
      fits = room;
      octets =
          write_uint-be_octets (drop n out) v k room
          ∙ ap (λ j. be_octets k v ++ drop j (drop n out)) (sym (length-be_octets k v));
    })
  where
    room : k ≤ length (drop n out)
    room = omega (arith, length-drop {0} n buf, ap length (drop-overlay w))

-- `memcpy(&out[n], src, k)`
pub Wrote-octets :
    {buf front out : List ℕ} {n : ℕ} (src : List ℕ) (k : ℕ)
    → Wrote buf front n out
    → n + k ≤ length buf
    → k ≤ length src
    → Wrote buf (front ++ take k src) (n + k) (put_octets out n src k)
unfolding put_octets overlay
Wrote-octets {buf} {front} {out} {n} src k w h l =
    Wrote-part (take k src) (memcpy (drop n out) src k) k w (record {
      count = length-take k src l;
      fits = room;
      octets =
          memcpy-take (drop n out) src k room l
          ∙ ap (λ j. take k src ++ drop j (drop n out)) (sym (length-take k src l));
    })
  where
    room : k ≤ length (drop n out)
    room = omega (arith, length-drop {0} n buf, ap length (drop-overlay w))

-- Octets that are there already count as written.
pub Wrote-self : (buf : List ℕ) (n : ℕ) → n ≤ length buf → Wrote buf (take n buf) n buf
unfolding overlay
Wrote-self buf n h = record {
  count = length-take n buf h;
  fits = h;
  octets = sym (take-drop n buf) ∙ ap (λ k. take n buf ++ drop k buf) (sym (length-take n buf h));
}

-- `if (k > 0) { memcpy(&out[n], p, k); }`, where a NULL `p` comes with no octets.
pub Wrote-contents :
    {buf front out : List ℕ} {n : ℕ} (p : Pointer) (k : ℕ)
    → Wrote buf front n out
    → n + k ≤ length buf
    → k ≤ length (deref [] p)
    → Wrote buf
        (front ++ contents p k)
        (n + k)
        (if ltb 0 k then put_octets out n (deref [] p) k else out)
Wrote-contents {buf} {front} {out} {n} p zero w h l = record {
  count = omega (arith, ap length (append-nil front), w.count);
  fits = omega arith;
  octets = w.octets ∙ ap (λ f. overlay f buf) (sym (append-nil front));
}
Wrote-contents p (suc k) w h l =
    rw (ltb-true 0 (suc k) (omega arith)) (Wrote-octets (deref [] p) (suc k) w h l)

-- A pointer to octets that are there is not NULL.
pub null_with_octets :
    (p : Pointer) (n : ℕ) → n ≤ length (deref [] p) → (is_null p && ltb 0 n) ≡ false
null_with_octets none n h = ground arith
null_with_octets (some octets) n h = refl

-- The pointer that a deserialiser stores for a value of `n` octets.
abbrev pub pointer_to : List ℕ → ℕ → Pointer
pointer_to octets n = if ltb 0 n then some octets else none

pub contents-pointer_to :
    (octets : List ℕ) (n : ℕ) → contents (pointer_to octets n) n ≡ take n octets
contents-pointer_to octets zero = refl
contents-pointer_to octets (suc n) = ground arith

-- The same front and count, written otherwise.
pub Wrote-same :
    {buf front front' out : List ℕ} {n n' : ℕ}
    → Wrote buf front n out
    → front ≡ front'
    → n ≡ n'
    → Wrote buf front' n' out
Wrote-same {buf} {out = out} w e f = subst₂ (λ g m. Wrote buf g m out) e f w

-- Writing inside a buffer leaves its length.
pub Wrote-length :
    {buf front out : List ℕ} {n : ℕ} → Wrote buf front n out → length out ≡ length buf
unfolding overlay
Wrote-length {buf} {front} w = omega (
  arith,
  ap length w.octets,
  length-append {0} front (drop (length front) buf),
  length-drop {0} (length front) buf,
  w.count,
  w.fits,
)

pub pointer_to-length :
    (octets : List ℕ) (n : ℕ) → n ≤ length octets → n ≤ length (deref [] (pointer_to octets n))
pointer_to-length octets zero h = omega arith
pointer_to-length octets (suc n) h = ground arith
