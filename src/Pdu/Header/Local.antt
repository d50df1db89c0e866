-- ===== src/Pdu/Header/Local.antt =====
-- The header decoder reads the octets that it is given, and none behind the header.
use native.Mathlib.Decide.{dec_le}
use embedded_cfdp.Base.{ℕ, ◌+◌, ◌*◌, ◌≤◌, ◌≡◌, ◌≢◌, ap, sym, ◌∙◌, arith, List, some, deref}
use embedded_cfdp.Buffer.Agree.{Agree, get_uint-Agree, Agree-le}
use embedded_cfdp.Pdu.Header.RoundTrip.{header_deserialize_accepts}
use embedded_cfdp.Pdu.Header.{
  Header, header_size, id_len_valid, header_deserialize, unpack_flags, read_ids,
}

unpack_flags-Agree :
    (xs ys : List ℕ) (old : Header) → Agree 4 xs ys → unpack_flags xs old ≡ unpack_flags ys old
unfolding unpack_flags
unpack_flags-Agree xs ys old same =
    rw (same 0 (omega arith), same 3 (omega arith), get_uint-Agree 1 2 4 xs ys same (omega arith))

read_ids-Agree :
    (xs ys : List ℕ) (h : Header)
    → Agree (4 + 2 * h.entity_id_length + h.transaction_seq_length) xs ys
    → read_ids xs h ≡ read_ids ys h
unfolding read_ids
read_ids-Agree xs ys h same = rw (
  get_uint-Agree 4 e _ xs ys same (omega arith),
  get_uint-Agree (4 + e) t _ xs ys same (omega arith),
  get_uint-Agree (4 + e + t) e _ xs ys same (omega arith),
)
  where
    open h use {entity_id_length as e, transaction_seq_length as t}

-- On memory that agrees in the first `buf_len` octets the decoder gives one answer.
pub header_deserialize_bounded :
    (xs ys : List ℕ) (buf_len : ℕ) (old : Header)
    → Agree buf_len xs ys
    → header_deserialize (some xs) buf_len (some old)
      ≡ header_deserialize (some ys) buf_len (some old)
unfolding header_deserialize header_size id_len_valid
header_deserialize_bounded xs ys buf_len old same = elim (dec_le 4 buf_len) [
  | no short ↦ ground arith
  | yes long ↦
      rw (unpack_flags-Agree xs ys old (Agree-le 4 buf_len xs ys same long))
        (elim (dec_le
          (4
            + 2 * (unpack_flags ys old).entity_id_length
            + (unpack_flags ys old).transaction_seq_length)
          buf_len) [
            | no cut ↦ ground arith
            | yes fits ↦
                rw (read_ids-Agree xs ys (unpack_flags ys old) (Agree-le _ buf_len xs ys same fits))
          ])
]

pub accepted :
    (buf : List ℕ) (buf_len n : ℕ) (old h : Header)
    → header_deserialize (some buf) buf_len (some old) ≡ (n, some h)
    → n ≢ 0
    → let flags = unpack_flags buf old in
      (flags.version ≡ 1)
      × (header_size (some flags) ≡ n)
      × (4 + 2 * flags.entity_id_length + flags.transaction_seq_length ≡ n)
      × (read_ids buf flags ≡ h)
      × (n ≤ buf_len)
unfolding header_deserialize header_size id_len_valid
accepted buf buf_len n old h e ne = ground arith

-- A header that was decoded is decoded the same from any memory that agrees in the octets
-- consumed, and with any length that covers them.
pub header_deserialize_stable :
    (xs ys : List ℕ) (buf_len buf_len' n : ℕ) (old h : Header)
    → header_deserialize (some xs) buf_len (some old) ≡ (n, some h)
    → n ≢ 0
    → Agree n xs ys
    → n ≤ buf_len'
    → header_deserialize (some ys) buf_len' (some old) ≡ (n, some h)
header_deserialize_stable xs ys buf_len buf_len' n old h e ne same fits =
    let (v, size, big, stored, _) = accepted xs buf_len n old h e ne in
    let flags = unpack_flags xs old in
    header_deserialize_accepts ys buf_len' n old flags
      (sym (unpack_flags-Agree xs ys old (Agree-le 4 n xs ys same (omega arith)))) v size
      (omega arith) fits
    ∙ ap (λ k. (n, some k))
        (sym (read_ids-Agree xs ys flags (Agree-le _ n xs ys same (omega arith))) ∙ stored)

-- An accepted header says how long it is, and fits the octets given.
pub header_deserialize-size :
    (buf : List ℕ) (buf_len n : ℕ) (old h : Header)
    → header_deserialize (some buf) buf_len (some old) ≡ (n, some h)
    → n ≢ 0
    → (header_size (some h) ≡ n) × (n ≤ buf_len)
unfolding read_ids header_size
header_deserialize-size buf buf_len n old h e ne =
    let (v, size, big, stored, room) = accepted buf buf_len n old h e ne in
    (ap (λ k. header_size (some k)) (sym stored) ∙ size, room)

-- The decoder stores a header whenever it is given one.
pub header_deserialize_stores :
    (buf : List ℕ) (buf_len : ℕ) (old : Header)
    → let r = header_deserialize (some buf) buf_len (some old) in r ≡ (r.0, some (deref old r.1))
unfolding header_deserialize
header_deserialize_stores buf buf_len old = ground arith
