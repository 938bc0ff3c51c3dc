-- ===== src/Blitz/BufferWriter.antt =====
-- libsrc/blitz2/include/blitz2/buffer_writer.h and libsrc/blitz2/src/buffer.cc: BufferWriter, on a
-- machine that stores the lowest byte first. The allocation of a buffer succeeds. An integer of the
-- source is its pattern; `PrintInt` takes the number itself.
pub mod Bytes
pub mod Decimal
pub mod Append
use mlsimgsearch.Prelude.{
  ltb, leb, ◌==◌, if◌then◌else◌, length, get_or, Outcome, ◌>>=◌, ◌>>◌, must, ok, fault, ℕ, zero,
  suc, ◌+◌, ◌*◌, ◌/◌, ◌%◌, List, [], ◌∷◌, ◌++◌,
}
use mlsimgsearch.Prelude.Int.{ℤ, pos, negsuc}
use mlsimgsearch.Search.Serializer.Bytes.{to_le}

-- `data_` are the first `length()` bytes of the buffer.
pub record BufferWriter : Type 0 where
  pub capacity : ℕ
  pub data_ : List ℕ

abbrev pub new_writer : BufferWriter
new_writer = record { capacity = 0; data_ = [] }

-- `Extend`. `orig_len` is an `int`: a longer length becomes negative, and as the length of the new
-- buffer greater than all, so that no write fits any more, for which a capacity of 0 stands.
unfoldable pub extend : ℕ → BufferWriter → BufferWriter
extend len w =
    if ltb (length w.data_ + len) w.capacity
    then w
    else if ltb (length w.data_) 0x8000_0000
    then record w { capacity = length w.data_ + len }
    else record w { capacity = 0 }

-- `Reserve`. A buffer that is too small is given up with its bytes.
unfoldable pub reserve : ℕ → BufferWriter → BufferWriter
reserve hint_length w =
    if leb hint_length w.capacity then w else record { capacity = hint_length; data_ = [] }

-- `Free`. Nothing is done to a buffer without memory, which has no bytes.
unfoldable pub free : BufferWriter → BufferWriter
free w = record { capacity = 0; data_ = [] }

-- Bytes are stored behind the data, within the buffer, and counted.
unfoldable pub store : List ℕ → BufferWriter → Outcome (ℕ × BufferWriter)
store bytes w = do
  must (leb (length w.data_ + length bytes) w.capacity)
  ok (length bytes, record w { data_ = w.data_ ++ bytes })

unfoldable pub write_byte : ℕ → BufferWriter → Outcome (ℕ × BufferWriter)
unfolding extend store
write_byte b w = store (b ∷ []) (extend 1 w)

-- `ntohs` and `ntohl`
abbrev pub ntohs : ℕ → ℕ
ntohs n = (n % 256) * 256 + n / 256 % 256

abbrev pub ntohl : ℕ → ℕ
ntohl n =
    (n % 256) * 0x100_0000
    + (n / 256 % 256) * 0x1_0000
    + (n / 0x1_0000 % 256) * 256
    + n / 0x100_0000 % 256

unfoldable pub write_i16 : ℕ → BufferWriter → Outcome (ℕ × BufferWriter)
unfolding extend store
write_i16 i16 w = store (to_le 2 (ntohs i16)) (extend 2 w)

unfoldable pub write_i32 : ℕ → BufferWriter → Outcome (ℕ × BufferWriter)
unfolding extend store
write_i32 val w = store (to_le 4 (ntohl val)) (extend 4 w)

-- The bytes of the number, from the last to the first.
unfoldable pub write_i64 : ℕ → BufferWriter → Outcome (ℕ × BufferWriter)
unfolding extend store
write_i64 val w =
    let byte = λ (i : ℕ). get_or (to_le 8 val) i 0 in
    store (byte 7 ∷ byte 6 ∷ byte 5 ∷ byte 4 ∷ byte 3 ∷ byte 2 ∷ byte 1 ∷ byte 0 ∷ []) (extend 8 w)

-- `WriteData` of the bytes of an array.
unfoldable pub write_data : List ℕ → BufferWriter → Outcome (ℕ × BufferWriter)
unfolding extend store
write_data bytes w = store bytes (extend (length bytes) w)

-- `WriteString`. A length is an `int32_t`, and so is the sum with 4.
unfoldable pub write_string : List ℕ → BufferWriter → Outcome (ℕ × BufferWriter)
unfolding write_i32 write_data
write_string str w = do
  must (ltb (length str + 4) 0x8000_0000)
  (n, w1) ← write_i32 (length str) (extend (length str + 4) w)
  (m, w2) ← write_data str w1
  ok (length str + 4, w2)

-- `WriteBinary`
unfoldable pub write_binary : List ℕ → BufferWriter → Outcome (ℕ × BufferWriter)
unfolding write_i32 store
write_binary bytes w = do
  must (ltb (length bytes + 4) 0x8000_0000)
  (n, w1) ← write_i32 (length bytes) (extend (length bytes + 4) w)
  (m, w2) ← store bytes w1
  ok (length bytes + 4, w2)

-- The loop of `PrintInt`, with `room` bytes of `buf` in front of `text`: what is left of them, and
-- the text.
unfoldable pub print_digits : ℕ → ℕ → List ℕ → Outcome (ℕ × List ℕ)
print_digits zero val text = fault
print_digits (suc room) val text =
    let text' = (val % 10 + b'0') ∷ text in
    let more = print_digits room (val / 10) text' in
    if val / 10 == 0 then ok (room, text') else more

-- The sign is written if there is room for it.
abbrev pub with_sign : ℕ × List ℕ → Outcome (List ℕ)
with_sign (zero, text) = fault
with_sign (suc room, text) = ok (b'-' ∷ text)

-- What `PrintInt` makes in `buf`, which has 32 bytes with the end. `abs` of the least number is not
-- defined.
unfoldable pub int_text : ℤ → ℕ → Outcome (List ℕ)
unfolding print_digits
int_text (pos n) end_ = do (room, text) ← print_digits 31 n (end_ ∷ []); ok text
int_text (negsuc n) end_ = do
  must (ltb n 0x7FFF_FFFF_FFFF_FFFF)
  printed ← print_digits 31 (suc n) (end_ ∷ [])
  with_sign printed

unfoldable pub print_int : ℤ → ℕ → BufferWriter → Outcome (ℕ × BufferWriter)
unfolding int_text write_data
print_int v end_ w = do text ← int_text v end_; write_data text w
