-- ===== src/Blitz/LineMsg.antt =====
-- libsrc/blitz2/include/blitz2/line_msg.h: a byte stream is cut into lines. The allocation of a
-- buffer succeeds.
pub mod Stream
use mlsimgsearch.Prelude.{
  ltb, leb, ◌==◌, if◌then◌else◌, length, take, Outcome, ok, err, ℕ, ◌-◌, Bool, true, false, List,
  [], ◌∷◌, ◌++◌,
}

-- `prefix` are the first `data_length_` bytes of the buffer.
pub record LineMsgDecoder : Type 0 where
  pub max_length : ℕ
  pub prefix : List ℕ

unfoldable pub init : ℕ → LineMsgDecoder
init max_length = record { max_length = max_length; prefix = [] }

unfoldable pub uninit : LineMsgDecoder → LineMsgDecoder
uninit d = record { max_length = d.max_length; prefix = [] }

-- `GetBuffer`: how many bytes there is room for. A buffer has `max_length_` bytes.
unfoldable pub get_buffer : LineMsgDecoder → Outcome ℕ
get_buffer d =
    if leb d.max_length (length d.prefix) then err 1 else ok (d.max_length - length d.prefix)

-- The loop of `Feed`: `line` is what lies between `prev` and `iter`. The lines that are reported,
-- and what lies between `prev` and `end` at last.
unfoldable pub scan : List ℕ → List ℕ → List (List ℕ) × List ℕ
scan line [] = ([], line)
scan line (c ∷ bytes) =
    let next = scan [] bytes in
    let longer = scan (line ++ c ∷ []) bytes in
    if c == b'\n' then ((line ++ c ∷ []) ∷ next.0, next.1) else longer

abbrev pub is_empty : List ℕ → Bool
is_empty [] = true
is_empty (x ∷ xs) = false

abbrev pub empty_lines : List (List ℕ) → Bool
empty_lines [] = true
empty_lines (x ∷ xs) = false

abbrev pub with_prefix : LineMsgDecoder → List ℕ → LineMsgDecoder
with_prefix d prefix = record { max_length = d.max_length; prefix = prefix }

-- `Feed` of the bytes that stand behind the data: the reported lines, the decoder, and whether the
-- value returned is 0 (it is -1 otherwise). When the last line is complete, `data_length_` keeps its value, and that many bytes of
-- the new buffer are taken for data: `unset` are the bytes that a new buffer has.
unfoldable pub feed : List ℕ → LineMsgDecoder → List ℕ → List (List ℕ) × LineMsgDecoder × Bool
unfolding scan
feed unset d bytes =
    let (lines, rest) = scan d.prefix bytes in
    let stale = with_prefix d (take (length d.prefix) unset) in
    let kept = with_prefix d rest in
    let more = with_prefix d (d.prefix ++ bytes) in
    if empty_lines lines
    then ([], more, ltb (length more.prefix) d.max_length)
    else if is_empty rest
    then (lines, stale, true)
    else (lines, kept, true)
