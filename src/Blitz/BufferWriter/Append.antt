-- ===== src/Blitz/BufferWriter/Append.antt =====
-- A `BufferWriter` holds what has been written, in its order.
use mlsimgsearch.Prelude.{
  leb, lt→ltb, le→leb, length, length-append, All, concat, Outcome, ◌>>=◌, ok, ℕ, ◌+◌, ◌≤◌, ◌<◌,
  ◌≡◌, refl, sym, ap, ◌∙◌, subst, true, List, [], ◌∷◌, ◌++◌, append-nil, append_assoc, arith,
}
use mlsimgsearch.Prelude.Int.{ℤ, pos_part, neg_part}
use mlsimgsearch.Blitz.BufferWriter.{
  BufferWriter, extend, store, write_byte, write_i16, write_i32, write_i64, write_data,
  write_string, write_binary, int_text, print_int,
}
use mlsimgsearch.Blitz.BufferWriter.Bytes.{
  to_be, length-to_be, to_le-ntohs, to_le-ntohl, reversed_bytes,
}
use mlsimgsearch.Blitz.BufferWriter.Decimal.{read_int, int_text_lem}

-- A call of the writer.
pub data Write : Type 0 where
  byte : ℕ → Write
  i16 : ℕ → Write
  i32 : ℕ → Write
  i64 : ℕ → Write
  plain : List ℕ → Write
  string : List ℕ → Write
  binary : List ℕ → Write
  number : ℤ → ℕ → Write

unfoldable pub write : Write → BufferWriter → Outcome (ℕ × BufferWriter)
write (byte b) = write_byte b
write (i16 n) = write_i16 n
write (i32 n) = write_i32 n
write (i64 n) = write_i64 n
write (plain bytes) = write_data bytes
write (string str) = write_string str
write (binary bytes) = write_binary bytes
write (number v end_) = print_int v end_

-- One call after the other: how many bytes they say they have written, and the writer.
unfoldable pub write_all : List Write → BufferWriter → Outcome (ℕ × BufferWriter)
unfolding write
write_all [] w = ok (0, w)
write_all (c ∷ calls) w = do (n, w1) ← write c w; (m, w2) ← write_all calls w1; ok (n + m, w2)

-- The argument is of the call's type.
abbrev pub IsArgument : Write → Type 0
IsArgument (byte b) = Unit {0}
IsArgument (i16 n) = n < 0x1_0000
IsArgument (i32 n) = n < 0x1_0000_0000
IsArgument (i64 n) = Unit {0}
IsArgument (plain bytes) = length bytes < 0x8000_0000
IsArgument (string str) = length str < 0x8000_0000
IsArgument (binary bytes) = length bytes < 0x8000_0000
IsArgument (number v end_) = pos_part v + neg_part v < 0x8000_0000_0000_0000

-- How many bytes a call writes at most. A number has 20 characters at most before its end.
abbrev pub size_of : Write → ℕ
size_of (byte b) = 1
size_of (i16 n) = 2
size_of (i32 n) = 4
size_of (i64 n) = 8
size_of (plain bytes) = length bytes
size_of (string str) = length str + 4
size_of (binary bytes) = length bytes + 4
size_of (number v end_) = 21

abbrev pub sizes : List Write → ℕ
sizes [] = 0
sizes (c ∷ calls) = size_of c + sizes calls

-- The bytes of a call: integers by their bytes, the highest first; texts behind their length; a
-- number by a text that is read back as the number.
abbrev pub Encodes : Write → List ℕ → Type 0
Encodes (byte b) bytes = bytes ≡ b ∷ []
Encodes (i16 n) bytes = bytes ≡ to_be 2 n
Encodes (i32 n) bytes = bytes ≡ to_be 4 n
Encodes (i64 n) bytes = bytes ≡ to_be 8 n
Encodes (plain given) bytes = bytes ≡ given
Encodes (string str) bytes = bytes ≡ to_be 4 (length str) ++ str
Encodes (binary given) bytes = bytes ≡ to_be 4 (length given) ++ given
Encodes (number v end_) bytes =
    (text : List ℕ) × (int_text v end_ ≡ ok bytes)
    × (bytes ≡ text ++ end_ ∷ [])
    × (read_int text ≡ v)

-- Bytes have been put behind the data, within the buffer, and counted.
abbrev pub Appended : List ℕ → BufferWriter → Outcome (ℕ × BufferWriter) → Type 0
Appended bytes w o =
    (w' : BufferWriter) × (o ≡ ok (length bytes, w'))
    × (w'.data_ ≡ w.data_ ++ bytes)
    × (length w'.data_ ≤ w'.capacity)

extend_data : (len : ℕ) (w : BufferWriter) → (extend len w).data_ ≡ w.data_
unfolding extend
extend_data len w = ground arith

extend_room :
    (len : ℕ) (w : BufferWriter)
    → length w.data_ < 0x8000_0000
    → length w.data_ + len ≤ (extend len w).capacity
unfolding extend
extend_room len w s = ground arith

-- A store within the buffer.
store_lem :
    (bytes : List ℕ) (w : BufferWriter)
    → length w.data_ + length bytes ≤ w.capacity
    → Appended bytes w (store bytes w)
unfolding store
store_lem bytes w h = (
  record w { data_ = w.data_ ++ bytes },
  rw (le→leb _ _ h) refl,
  refl,
  omega (arith, length-append w.data_ bytes),
)

store-extend :
    (len : ℕ) (bytes : List ℕ) (w : BufferWriter)
    → length bytes ≡ len
    → length w.data_ < 0x8000_0000
    → Appended bytes w (store bytes (extend len w))
store-extend len bytes w e s =
    let same = extend_data len w in
    let (w', done_, data', room) =
      store_lem bytes (extend len w) (omega (arith, ap length same, extend_room len w s, e)) in
    (w', done_, data' ∙ ap (λ d. d ++ bytes) same, room)

write_i32_lem :
    (n : ℕ) (w : BufferWriter)
    → n < 0x1_0000_0000
    → length w.data_ < 0x8000_0000
    → Appended (to_be 4 n) w (write_i32 n w)
unfolding write_i32
write_i32_lem n w h s =
    subst (λ bytes. Appended (to_be 4 n) w (store bytes (extend 4 w))) (sym (to_le-ntohl n h))
      (store-extend 4 (to_be 4 n) w (length-to_be 4 n) s)

then_bytes :
    (a b : List ℕ) (w w1 w2 : BufferWriter)
    → w1.data_ ≡ w.data_ ++ a
    → w2.data_ ≡ w1.data_ ++ b
    → w2.data_ ≡ w.data_ ++ (a ++ b)
then_bytes a b w w1 w2 p q = q ∙ ap (λ d. d ++ b) p ∙ append_assoc w.data_ a b

counted : (bytes : List ℕ) → length (to_be 4 (length bytes) ++ bytes) ≡ length bytes + 4
counted bytes =
    omega (arith, length-append (to_be 4 (length bytes)) bytes, length-to_be 4 (length bytes))

write_string_lem :
    (str : List ℕ) (w : BufferWriter)
    → length w.data_ + (length str + 4) < 0x8000_0000
    → Appended (to_be 4 (length str) ++ str) w (write_string str w)
unfolding write_string write_data
write_string_lem str w h =
    let n = length str in
    let same = extend_data (n + 4) w in
    let (w1, e1, d1, r1) =
      write_i32_lem n (extend (n + 4) w) (omega arith) (omega (arith, ap length same)) in
    let (w2, e2, d2, r2) = store-extend n str w1 refl (
      omega (
        arith,
        ap length same,
        ap length d1,
        length-append (extend (n + 4) w).data_ (to_be 4 n),
        length-to_be 4 n,
      )) in
    (
      w2,
      rw (lt→ltb (n + 4) 0x8000_0000 (omega arith), e1, e2)
          (ap (λ (k : ℕ). ok (k, w2)) (sym (counted str))),
      then_bytes (to_be 4 n) str (extend (n + 4) w) w1 w2 d1 d2
          ∙ ap (λ d. d ++ (to_be 4 n ++ str)) (extend_data (n + 4) w),
      r2,
    )

extend_mono :
    (len : ℕ) (w : BufferWriter)
    → length w.data_ < 0x8000_0000
    → w.capacity ≤ (extend len w).capacity
unfolding extend
extend_mono len w s = ground arith

-- The length of a binary, and the writer that has it.
abbrev with_length : ℕ → BufferWriter → BufferWriter
with_length n w = record {
  capacity = (extend 4 w).capacity;
  data_ = (extend 4 w).data_ ++ to_be 4 n;
}

write_i32_full :
    (n : ℕ) (w : BufferWriter)
    → n < 0x1_0000_0000
    → length w.data_ < 0x8000_0000
    → write_i32 n w ≡ ok (length (to_be 4 n), with_length n w)
unfolding write_i32 store
write_i32_full n w h s =
    let room : leb (length (extend 4 w).data_ + length (to_be 4 n)) (extend 4 w).capacity ≡ true =
      le→leb _ _
        (omega (arith, ap length (extend_data 4 w), extend_room 4 w s, length-to_be 4 n)) in
    rw (to_le-ntohl n h, room) refl

write_binary_lem :
    (bytes : List ℕ) (w : BufferWriter)
    → length w.data_ + (length bytes + 4) < 0x8000_0000
    → Appended (to_be 4 (length bytes) ++ bytes) w (write_binary bytes w)
unfolding write_binary
write_binary_lem bytes w h =
    let n = length bytes in
    let w0 = extend (n + 4) w in
    let same = extend_data (n + 4) w in
    let s : length w.data_ < 0x8000_0000 = omega arith in
    let s0 : length w0.data_ < 0x8000_0000 = omega (arith, ap length same) in
    let w1 = with_length n w0 in
    let start = extend_data 4 w0 in
    let room : length w1.data_ + n ≤ w1.capacity = omega (
      arith,
      extend_room (n + 4) w s,
      extend_mono 4 w0 s0,
      ap length (extend_data (n + 4) w),
      ap length start,
      length-append (extend 4 w0).data_ (to_be 4 n),
      length-to_be 4 n,
    ) in
    let (w2, e2, d2, r2) = store_lem bytes w1 room in
    (
      w2,
      rw (lt→ltb (n + 4) 0x8000_0000 (omega arith), write_i32_full n w0 (omega arith) s0, e2)
          (ap (λ (k : ℕ). ok (k, w2)) (sym (counted bytes))),
      then_bytes (to_be 4 n) bytes w0 w1 w2 (ap (λ d. d ++ to_be 4 n) start) d2
          ∙ ap (λ d. d ++ (to_be 4 n ++ bytes)) (extend_data (n + 4) w),
      r2,
    )

-- What one call comes to.
abbrev Written : Write → BufferWriter → Outcome (ℕ × BufferWriter) → Type 0
Written call w o =
    (bytes : List ℕ) × Encodes call bytes × Appended bytes w o × (length bytes ≤ size_of call)

write_lem :
    (call : Write) (w : BufferWriter)
    → IsArgument call
    → length w.data_ + size_of call < 0x8000_0000
    → Written call w (write call w)
unfolding write write_byte write_i16 write_i64 write_data print_int
write_lem (byte b) w h s = (b ∷ [], refl, store-extend 1 (b ∷ []) w refl (omega arith), omega arith)
write_lem (i16 n) w h s = (
  to_be 2 n,
  refl,
  subst (λ bytes. Appended (to_be 2 n) w (store bytes (extend 2 w))) (sym (to_le-ntohs n h))
      (store-extend 2 (to_be 2 n) w (length-to_be 2 n) (omega arith)),
  omega (arith, length-to_be 2 n),
)
write_lem (i32 n) w h s =
    (to_be 4 n, refl, write_i32_lem n w h (omega arith), omega (arith, length-to_be 4 n))
write_lem (i64 n) w h s = (
  to_be 8 n,
  refl,
  subst (λ bytes. Appended (to_be 8 n) w (store bytes (extend 8 w))) (sym (reversed_bytes n))
      (store-extend 8 (to_be 8 n) w (length-to_be 8 n) (omega arith)),
  omega (arith, length-to_be 8 n),
)
write_lem (plain bytes) w h s =
    (bytes, refl, store-extend (length bytes) bytes w refl (omega arith), omega arith)
write_lem (string str) w h s =
    (to_be 4 (length str) ++ str, refl, write_string_lem str w s, omega (arith, counted str))
write_lem (binary bytes) w h s = (
  to_be 4 (length bytes) ++ bytes,
  refl,
  write_binary_lem bytes w s,
  omega (arith, counted bytes),
)
write_lem (number v end_) w h s =
    let (text, e, value, few) = int_text_lem v end_ h in
    let bytes = text ++ end_ ∷ [] in
    let (w', e', d', r') = store-extend (length bytes) bytes w refl (omega arith) in
    (
      bytes,
      (text, e, refl, value),
      (w', rw (e) e', d', r'),
      omega (arith, few, length-append text (end_ ∷ [])),
    )

-- The bytes of the calls, each with its own.
abbrev pub EncodesAll : List Write → List (List ℕ) → Type 0
EncodesAll [] [] = Unit {0}
EncodesAll [] (b ∷ bytes) = ⊥
EncodesAll (c ∷ calls) [] = ⊥
EncodesAll (c ∷ calls) (b ∷ bytes) = Encodes c b × EncodesAll calls bytes

-- A sequence of calls with arguments of their types succeeds, from a writer whose data is within its
-- buffer and shorter than 2 ^ 31 with all that the calls write: what is in the buffer stays, the bytes
-- of each call stand behind it in the order of the calls, a string behind its length and with no NUL
-- behind it, the values returned add up to their number, and the data is within the buffer again.
pub write_all_lem :
    (calls : List Write) (w : BufferWriter)
    → All IsArgument calls
    → length w.data_ ≤ w.capacity
    → length w.data_ + sizes calls < 0x8000_0000
    → (w' : BufferWriter) × (bytes : List (List ℕ)) × EncodesAll calls bytes
      × (write_all calls w ≡ ok (length (concat bytes), w'))
      × (w'.data_ ≡ w.data_ ++ concat bytes)
      × (length w'.data_ ≤ w'.capacity)
unfolding write_all
write_all_lem [] w h fits s = (w, [], tt, refl, sym (append-nil w.data_), fits)
write_all_lem (c ∷ calls) w (h, hs) fits s =
    let (b, enc, (w1, e1, d1, r1), few) = write_lem c w h (omega arith) in
    let (w2, bytes, encs, e2, d2, r2) =
      write_all_lem calls w1 hs r1 (omega (arith, ap length d1, length-append w.data_ b, few)) in
    (
      w2,
      b ∷ bytes,
      (enc, encs),
      rw (e1, e2) (ap (λ (k : ℕ). ok (k, w2)) (sym (length-append b (concat bytes)))),
      then_bytes b (concat bytes) w w1 w2 d1 d2,
      r2,
    )
