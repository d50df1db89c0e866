-- ===== src/Tlv/Lv/Within.antt =====
-- An LV within a longer layout: written behind what is written, read in front of what follows.
use embedded_cfdp.Base.{
  ℕ, ◌+◌, ◌-◌, ◌≤◌, ◌≡◌, refl, ap, ◌∙◌, arith, List, [], ◌++◌, some, deref, length, length-drop,
  length-take, take-append, drop, drop_behind,
}
use embedded_cfdp.Buffer.{Pointer, contents, put_back}
use embedded_cfdp.Buffer.Overlay.{
  Wrote, Wrote-part, drop-overlay, overlay, pointer_to, contents-pointer_to,
}
use embedded_cfdp.Tlv.{lv_serialize, lv_deserialize}
use embedded_cfdp.Tlv.Lv.{lv_octets, lv_serialize_lem, lv_deserialize_lem}

pub length-lv_octets :
    (value : Pointer) (len : ℕ)
    → len ≤ length (deref [] value)
    → length (lv_octets value len) ≡ len + 1
unfolding lv_octets
length-lv_octets value len h = omega (arith, length-take len (deref [] value) h)

pub lv-Wrote :
    {buf front out : List ℕ} {n : ℕ} (value : Pointer) (len buf_len : ℕ)
    → Wrote buf front n out
    → len ≤ length (deref [] value)
    → n + (len + 1) ≤ buf_len
    → buf_len ≤ length buf
    → let (m, tail) = lv_serialize value len (some (drop n out)) (buf_len - n) in
      (m ≡ len + 1) × Wrote buf (front ++ lv_octets value len) (n + (len + 1)) (put_back out n tail)
unfolding put_back
lv-Wrote {buf} {front} {out} {n} value len buf_len w h room inside =
    let there : buf_len - n ≤ length (drop n out) =
      omega (arith, length-drop {0} n buf, ap length (drop-overlay w)) in
    rw (lv_serialize_lem value len (drop n out) (buf_len - n) h (omega arith) there) (
      refl,
      Wrote-part (lv_octets value len) (overlay (lv_octets value len) (drop n out)) (len + 1) w
          (record { count = length-lv_octets value len h; fits = omega arith; octets = refl }),
    )

-- What stands behind an LV.
pub behind_lv :
    (n : ℕ) (buf rest : List ℕ) (value : Pointer) (len : ℕ)
    → drop n buf ≡ lv_octets value len ++ rest
    → len ≤ length (deref [] value)
    → drop (n + (len + 1)) buf ≡ rest
behind_lv n buf rest value len e h =
    drop_behind n (n + (len + 1)) buf (lv_octets value len) rest e
      (ap (λ k. n + k) (length-lv_octets value len h))

-- The pointer that is stored for it.
abbrev pub stored : Pointer → ℕ → List ℕ → Pointer
stored value len rest = pointer_to (contents value len ++ rest) len

pub contents-stored :
    (value : Pointer) (len : ℕ) (rest : List ℕ)
    → len ≤ length (deref [] value)
    → contents (stored value len rest) len ≡ contents value len
contents-stored value len rest h =
    contents-pointer_to (contents value len ++ rest) len
    ∙ take-append len (contents value len) rest (length-take len (deref [] value) h)

pub lv_read :
    (buf rest : List ℕ) (room : ℕ) (value old : Pointer) (len old_len : ℕ)
    → buf ≡ lv_octets value len ++ rest
    → len + 1 ≤ room
    → lv_deserialize (some buf) room (some old) (some old_len)
      ≡ (len + 1, some (stored value len rest), some len)
unfolding lv_octets
lv_read buf rest room value old len old_len e h =
    lv_deserialize_lem buf room len (contents value len ++ rest) old old_len e h
