-- ===== src/Search/Wgc.antt =====
-- image_search/bof_core/src/weak_geometry_consistency.cc: the histogram of angle differences. The
-- array of 18 counters is the list of its elements.
pub mod Histogram
use mlsimgsearch.Prelude.{
  ltb, if◌then◌else◌, get_elem?, set, drop, replicate, Outcome, ◌>>=◌, ◌>>◌, or_fault, must, unless,
  ok, err, ℕ, ◌+◌, ◌*◌, ◌/◌, Bool, true, false, not, ◌&&◌, ◌||◌, List, [], ◌∷◌, ◌++◌,
}
use mlsimgsearch.Prelude.Int.{ℤ, pos, negsuc, pos_part, neg_part, ◌-ℤ◌}

pub record BofWgc : Type 0 where
  pub angle_bin : ℕ
  pub angle_histogram : List ℕ
  pub histogram_max_num : ℕ
  pub histogram_total : ℕ

-- `Init`. An `int` below 20 is refused, so the bin is a number.
unfoldable pub init : ℤ → BofWgc → Outcome BofWgc
init (negsuc n) w = err 1
init (pos angle_bin) w =
    let num = 360 / angle_bin in
    if ltb angle_bin 20
    then err 1
    else ok (record {
      angle_bin = angle_bin;
      angle_histogram = replicate num 0 ++ drop num w.angle_histogram;
      histogram_max_num = w.histogram_max_num;
      histogram_total = w.histogram_total;
    })

-- `BuildAngleHistogram` of a difference. A bin of 0 divides by zero, and to count past the greatest
-- `int` is not defined.
unfoldable pub count_angle : ℕ → BofWgc → Outcome BofWgc
count_angle angle w = do
  must (ltb 0 w.angle_bin)
  let bin = angle / w.angle_bin
  n ← or_fault (get_elem? w.angle_histogram bin)
  must (ltb n 0x7FFF_FFFF && ltb w.histogram_total 0x7FFF_FFFF)
  let max_num = if ltb w.histogram_max_num (n + 1) then n + 1 else w.histogram_max_num
  ok (record {
    angle_bin = w.angle_bin;
    angle_histogram = set w.angle_histogram bin (n + 1);
    histogram_max_num = max_num;
    histogram_total = w.histogram_total + 1;
  })

-- What a `char`, which is signed, has less than its byte.
abbrev pub below : ℕ → ℕ
below c = if ltb c 128 then 0 else 256

-- Three characters from the front of a text are an angle.
unfoldable pub text_angles : List ℕ → List ℤ
text_angles (a ∷ b ∷ c ∷ text) =
    (pos (a * 100 + b * 10 + c) -ℤ pos (b'0' * 111 + below a * 100 + below b * 10 + below c))
    ∷ text_angles text
text_angles (a ∷ b ∷ []) = []
text_angles (a ∷ []) = []
text_angles [] = []

abbrev pub abs : ℤ → ℕ
abs z = pos_part z + neg_part z

unfoldable pub count_row : ℤ → List ℤ → BofWgc → Outcome BofWgc
unfolding count_angle
count_row angle1 [] w = ok w
count_row angle1 (angle2 ∷ angles2) w = do
  w' ← count_angle (abs (angle1 -ℤ angle2)) w
  count_row angle1 angles2 w'

unfoldable pub count_rows : List ℤ → List ℤ → BofWgc → Outcome BofWgc
unfolding count_row
count_rows [] angles2 w = ok w
count_rows (angle1 ∷ angles1) angles2 w = do
  w' ← count_row angle1 angles2 w
  count_rows angles1 angles2 w'

abbrev pub is_nil : List ℤ → Bool
is_nil [] = true
is_nil (x ∷ xs) = false

-- `BuildAngleHistogram` of two texts.
unfoldable pub build_angle_histogram : List ℕ → List ℕ → BofWgc → Outcome BofWgc
unfolding count_rows text_angles
build_angle_histogram str1 str2 w = do
  let angles1 = text_angles str1
  let angles2 = text_angles str2
  unless (not (is_nil angles1 || is_nil angles2)) 1
  count_rows angles1 angles2 w

-- `Wgc`, whose call of `AverageHistogram` is commented out.
unfoldable pub wgc : BofWgc → ℕ
wgc w = w.histogram_max_num
