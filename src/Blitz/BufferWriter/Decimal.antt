-- ===== src/Blitz/BufferWriter/Decimal.antt =====
-- The text of `PrintInt` is read back as the number.
use mlsimgsearch.Prelude.{
  ltb, ◌==◌, if◌then◌else◌, lt→ltb, ==_iff, ne→==, Bool-cases, length, length-append, All, Outcome,
  ok, ℕ, zero, suc, ◌+◌, ◌-◌, ◌*◌, ◌/◌, ◌%◌, ◌≤◌, ◌<◌, ◌≡◌, refl, sym, ap, ◌∙◌, inl, inr, true,
  false, List, [], ◌∷◌, ◌++◌, append_assoc, arith,
}
use mlsimgsearch.Prelude.Int.{ℤ, pos, negsuc, pos_part, neg_part}
use mlsimgsearch.Blitz.BufferWriter.{print_digits, with_sign, int_text}

-- The number that digits stand for.
unfoldable pub read_digits : ℕ → List ℕ → ℕ
read_digits n [] = n
read_digits n (c ∷ cs) = read_digits (10 * n + (c - b'0')) cs

abbrev pub negated : ℕ → ℤ
negated zero = pos 0
negated (suc n) = negsuc n

-- A number with its sign.
unfoldable pub read_int : List ℕ → ℤ
unfolding read_digits
read_int [] = pos 0
read_int (c ∷ cs) = if c == b'-' then negated (read_digits 0 cs) else pos (read_digits 0 (c ∷ cs))

-- 10 to the power `k`.
abbrev ten_to : ℕ → ℕ
ten_to zero = 1
ten_to (suc k) = 10 * ten_to k

read_digits-snoc :
    (n c : ℕ) (cs : List ℕ) → read_digits n (cs ++ c ∷ []) ≡ 10 * read_digits n cs + (c - b'0')
unfolding read_digits
read_digits-snoc n c [] = refl
read_digits-snoc n c (d ∷ cs) = read_digits-snoc (10 * n + (d - b'0')) c cs

abbrev pub IsDigit : ℕ → Type 0
IsDigit c = (b'0' ≤ c) × (c ≤ b'9')

-- Digits of a number, at most `k` of them.
record Printed (k room val : ℕ) (text : List ℕ) (o : Outcome (ℕ × List ℕ)) : Type 0 where
  left : ℕ
  first : ℕ
  others : List ℕ
  printed : o ≡ ok (left, (first ∷ others) ++ text)
  value : read_digits 0 (first ∷ others) ≡ val
  room_used : left + suc (length others) ≡ room
  few : suc (length others) ≤ k
  digits : All IsDigit (first ∷ others)

digits-snoc : (cs : List ℕ) (c : ℕ) → All IsDigit cs → IsDigit c → All IsDigit (cs ++ c ∷ [])
digits-snoc [] c hs h = (h, tt)
digits-snoc (d ∷ cs) c (hd, hs) h = (hd, digits-snoc cs c hs h)

one_digit :
    (k room val : ℕ) (text : List ℕ)
    → (val / 10 == 0) ≡ true
    → Printed (suc k) (suc room) val text (print_digits (suc room) val text)
unfolding print_digits read_digits
one_digit k room val text h =
    let small : val / 10 ≡ 0 = (==_iff _ _).0 h in
    record {
      left = room;
      first = val % 10 + b'0';
      others = [];
      printed = rw h refl;
      value = omega (arith, small);
      room_used = omega arith;
      few = omega arith;
      digits = ((omega arith, omega arith), tt);
    }

more_digits :
    (k room val : ℕ) (text : List ℕ)
    → (val / 10 == 0) ≡ false
    → Printed
        (suc k)
        room
        (val / 10)
        ((val % 10 + b'0') ∷ text)
        (print_digits room (val / 10) ((val % 10 + b'0') ∷ text))
    → Printed (suc (suc k)) (suc room) val text (print_digits (suc room) val text)
unfolding print_digits
more_digits k room val text h v =
    let c = val % 10 + b'0' in
    let longer = length-append v.others (c ∷ []) in
    record {
      left = v.left;
      first = v.first;
      others = v.others ++ c ∷ [];
      printed =
          rw h v.printed
          ∙ ap (λ (t : List ℕ). ok (v.left, v.first ∷ t))
              (sym (append_assoc v.others (c ∷ []) text));
      value = omega (arith, read_digits-snoc 0 c (v.first ∷ v.others), v.value);
      room_used = omega (arith, longer, v.room_used);
      few = omega (arith, longer, v.few);
      digits = digits-snoc (v.first ∷ v.others) c v.digits (omega arith, omega arith);
    }

print_digits_lem :
    (k room val : ℕ) (text : List ℕ)
    → val < ten_to (suc k)
    → suc k ≤ room
    → Printed (suc k) room val text (print_digits room val text)
print_digits_lem k zero val text h r = absurd (omega arith)
print_digits_lem zero (suc room) val text h r =
    one_digit zero room val text ((==_iff _ _).1 (omega arith))
print_digits_lem (suc k) (suc room) val text h r = elim (Bool-cases (val / 10 == 0)) [
  | inl last ↦ one_digit (suc k) room val text last
  | inr more ↦
      more_digits k room val text more
        (print_digits_lem k room (val / 10) ((val % 10 + b'0') ∷ text) (omega arith) (omega arith))
]

-- Every number that fits 64 bits, but for the least one, has room in `buf`, and is read back from
-- the text, which has 20 characters at most.
pub int_text_lem :
    (v : ℤ) (end_ : ℕ)
    → pos_part v + neg_part v < 0x8000_0000_0000_0000
    → (text : List ℕ) × (int_text v end_ ≡ ok (text ++ end_ ∷ []))
      × (read_int text ≡ v)
      × (length text ≤ 20)
unfolding int_text read_int
int_text_lem (pos n) end_ h =
    let v = print_digits_lem 18 31 n (end_ ∷ []) (omega arith) (omega arith) in
    let unsigned : (v.first == b'-') ≡ false = ne→== _ _ (λ e. omega (arith, v.digits.0.0, e)) in
    (v.first ∷ v.others, rw v.printed refl, rw unsigned (ap pos v.value), omega (arith, v.few))
int_text_lem (negsuc n) end_ h =
    let v = print_digits_lem 18 31 (suc n) (end_ ∷ []) (omega arith) (omega arith) in
    let defined : ltb n 0x7FFF_FFFF_FFFF_FFFF ≡ true = lt→ltb _ _ (omega arith) in
    let some_left : v.left ≡ suc (v.left - 1) = omega (arith, v.few, v.room_used) in
    (
      b'-' ∷ v.first ∷ v.others,
      rw (defined, v.printed)
          (ap (λ room. with_sign (room, (v.first ∷ v.others) ++ end_ ∷ [])) some_left),
      ap negated v.value,
      omega (arith, v.few),
    )

-- A number without a sign is made of digits.
pub int_text_digits :
    (n end_ : ℕ)
    → n < 0x8000_0000_0000_0000
    → (first : ℕ) × (others : List ℕ) × (int_text (pos n) end_ ≡ ok ((first ∷ others) ++ end_ ∷ []))
      × All IsDigit (first ∷ others)
      × (read_digits 0 (first ∷ others) ≡ n)
unfolding int_text
int_text_digits n end_ h =
    let v = print_digits_lem 18 31 n (end_ ∷ []) (omega arith) (omega arith) in
    (v.first, v.others, rw v.printed refl, v.digits, v.value)
