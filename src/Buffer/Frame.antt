-- ===== src/Buffer/Frame.antt =====
-- Writes that stay inside the first `k` octets of a buffer.
use embedded_cfdp.Base.{
  ℕ, zero, suc, ◌+◌, ◌-◌, ◌≤◌, ◌<◌, ◌≡◌, refl, ap, sym, ◌∙◌, arith, List, [], ◌∷◌, ◌++◌, some, Bool,
  true, false, if◌then◌else◌, deref, length, take, drop, set, length-append, length-take,
  length-drop, length-set, drop-append, drop-drop,
}
use embedded_cfdp.Endian.{write_uint}
use embedded_cfdp.Buffer.{Pointer, splice, memcpy, put_uint, put_octets, put_back}

-- `out` is `buf` but for its first `k` octets.
pub record Frame (k : ℕ) (buf out : List ℕ) : Type 0 where
  pub size : length out ≡ length buf
  pub behind : drop k out ≡ drop k buf

pub Frame-same : (k : ℕ) (buf : List ℕ) → Frame k buf buf
Frame-same k buf = record { size = refl; behind = refl }

Frame-then : {k : ℕ} {a b c : List ℕ} → Frame k a b → Frame k b c → Frame k a c
Frame-then f g = record { size = g.size ∙ f.size; behind = g.behind ∙ f.behind }

drop-set : (k i v : ℕ) (xs : List ℕ) → i < k → drop k (set xs i v) ≡ drop k xs
drop-set k i v [] h = refl
drop-set zero i v (x ∷ xs) h = absurd (omega arith)
drop-set (suc k) zero v (x ∷ xs) h = refl
drop-set (suc k) (suc i) v (x ∷ xs) h = drop-set k i v xs (omega arith)

-- `out[i] = v`
pub Frame-set :
    {k : ℕ} {buf out : List ℕ} (i v : ℕ) → Frame k buf out → i < k → Frame k buf (set out i v)
Frame-set {k} {buf} {out} i v f h =
    Frame-then f (record { size = length-set out i v; behind = drop-set k i v out h })

-- A call that is given the memory from `pos` on, and leaves `tail` there.
pub Frame-splice :
    {k : ℕ} {buf out : List ℕ} (pos : ℕ) (tail : List ℕ)
    → Frame k buf out
    → pos ≤ k
    → k ≤ length buf
    → Frame (k - pos) (drop pos out) tail
    → Frame k buf (splice out pos tail)
unfolding splice
Frame-splice {k} {buf} {out} pos tail f h inside g =
    let front = length-take pos out (omega (arith, f.size)) in
    Frame-then f (record {
      size = omega (
        arith,
        length-append {0} (take pos out) tail,
        front,
        g.size,
        length-drop {0} pos out,
        f.size,
      );
      behind =
          sym (drop-drop (k - pos) pos k (take pos out ++ tail) (omega arith))
          ∙ ap (drop (k - pos)) (drop-append pos (take pos out) tail front)
          ∙ g.behind
          ∙ drop-drop (k - pos) pos k out (omega arith);
    })

Frame-write_uint : (k n v : ℕ) (buf : List ℕ) → n ≤ k → Frame k buf (write_uint buf v n)
unfolding write_uint
Frame-write_uint k zero v buf h = Frame-same k buf
Frame-write_uint k (suc left) v buf h =
    Frame-then (Frame-set left _ (Frame-same k buf) (omega arith))
      (Frame-write_uint k left _ _ (omega arith))

Frame-memcpy : (k n : ℕ) (dst src : List ℕ) → n ≤ k → Frame k dst (memcpy dst src n)
unfolding memcpy
Frame-memcpy k zero dst src h = Frame-same k dst
Frame-memcpy k (suc n) [] src h = Frame-same k []
Frame-memcpy k (suc n) (d ∷ dst) [] h = Frame-same k (d ∷ dst)
Frame-memcpy zero (suc n) (d ∷ dst) (s ∷ src) h = absurd (omega arith)
Frame-memcpy (suc k) (suc n) (d ∷ dst) (s ∷ src) h =
    let f = Frame-memcpy k n dst src (omega arith) in
    record { size = ap suc f.size; behind = f.behind }

-- `cfdp_write_uint(&out[pos], v, n)`
pub Frame-put_uint :
    {k : ℕ} {buf out : List ℕ} (pos v n : ℕ)
    → Frame k buf out
    → pos + n ≤ k
    → k ≤ length buf
    → Frame k buf (put_uint out pos v n)
unfolding put_uint
Frame-put_uint {k} {buf} {out} pos v n f h inside =
    Frame-splice pos _ f (omega arith) inside
      (Frame-write_uint (k - pos) n v (drop pos out) (omega arith))

-- `memcpy(&out[pos], src, n)`
pub Frame-put_octets :
    {k : ℕ} {buf out : List ℕ} (pos : ℕ) (src : List ℕ) (n : ℕ)
    → Frame k buf out
    → pos + n ≤ k
    → k ≤ length buf
    → Frame k buf (put_octets out pos src n)
unfolding put_octets
Frame-put_octets {k} {buf} {out} pos src n f h inside =
    Frame-splice pos _ f (omega arith) inside
      (Frame-memcpy (k - pos) n (drop pos out) src (omega arith))

pub Frame-if :
    {k : ℕ} {buf a b : List ℕ} (c : Bool)
    → Frame k buf a
    → Frame k buf b
    → Frame k buf (if c then a else b)
Frame-if true f g = f
Frame-if false f g = g

-- What a serialiser given `buf_len` octets at `buf` may do: it answers no more than it was
-- given, and leaves the memory behind alone.
pub record Contained (buf_len : ℕ) (buf : List ℕ) (r : ℕ × Pointer) : Type 0 where
  pub answer : r.0 ≤ buf_len
  pub memory : List ℕ
  pub stored : r.1 ≡ some memory
  pub frame : Frame buf_len buf memory

pub done :
    {buf_len : ℕ} {buf : List ℕ} (n : ℕ) (out : List ℕ)
    → n ≤ buf_len
    → Frame buf_len buf out
    → Contained buf_len buf (n, some out)
done n out h f = record { answer = h; memory = out; stored = refl; frame = f }

-- An early return, and what follows it.
pub refused :
    {buf_len : ℕ} {buf out : List ℕ} {s : ℕ × Pointer} (c : Bool)
    → Frame buf_len buf out
    → (c ≡ false → Contained buf_len buf s)
    → Contained buf_len buf (if c then (0, some out) else s)
refused {out = out} true f h = done 0 out (omega arith) f
refused false f h = h refl

-- What a call on the memory from `pos` on has left.
pub Frame-put_back :
    {k : ℕ} {buf out : List ℕ} (pos : ℕ) (r : ℕ × Pointer)
    → Frame k buf out
    → pos ≤ k
    → k ≤ length buf
    → Contained (k - pos) (drop pos out) r
    → Frame k buf (put_back out pos r.1)
unfolding put_back
Frame-put_back {out = out} pos r f h inside c =
    rw c.stored (Frame-splice pos c.memory f h inside c.frame)

-- The same of a helper that returns the memory itself.
pub record Kept (buf_len : ℕ) (buf : List ℕ) (r : ℕ × List ℕ) : Type 0 where
  pub answer : r.0 ≤ buf_len
  pub frame : Frame buf_len buf r.1

pub Kept-if :
    {buf_len : ℕ} {buf : List ℕ} {r s : ℕ × List ℕ} (c : Bool)
    → Kept buf_len buf r
    → (c ≡ false → Kept buf_len buf s)
    → Kept buf_len buf (if c then r else s)
Kept-if true h k = h
Kept-if false h k = k refl

pub Kept-Contained :
    {buf_len : ℕ} {buf : List ℕ} {r : ℕ × List ℕ}
    → Kept buf_len buf r
    → Contained buf_len buf (r.0, some r.1)
Kept-Contained {r = r} h = done r.0 r.1 h.answer h.frame

-- What a call has left, where its result is put into the rest of the memory.
pub Frame-deref :
    {k : ℕ} {buf : List ℕ} {r : ℕ × Pointer} (old : List ℕ)
    → Contained k buf r
    → Frame k buf (deref old r.1)
Frame-deref old c = rw c.stored c.frame

-- What is left of a buffer behind its first `pos` octets.
pub room_behind :
    {k : ℕ} {buf out : List ℕ} (pos : ℕ)
    → Frame k buf out
    → k ≤ length buf
    → k - pos ≤ length (drop pos out)
room_behind {out = out} pos f inside = omega (arith, length-drop {0} pos out, f.size)
