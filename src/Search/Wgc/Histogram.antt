-- ===== src/Search/Wgc/Histogram.antt =====
-- The counters of the histogram.
use mlsimgsearch.Prelude.{
  ltb, if◌then◌else◌, length, set, drop, replicate, drop-append_left, All, Outcome, ok, ℕ, ◌+◌, ◌≤◌,
  ◌<◌, ◌≡◌, refl, sym, ap, ◌∙◌, List, [], ◌∷◌, append-nil, arith,
}
use mlsimgsearch.Prelude.Int.{ℤ, pos, pos_part, neg_part}
use mlsimgsearch.Search.Wgc.{BofWgc, init}

abbrev pub sum : List ℕ → ℕ
sum [] = 0
sum (x ∷ xs) = x + sum xs

-- The histogram of 18 bins of 20 degrees counts as many differences as it is said to, and no
-- counter is above the maximum.
pub record IsCounted (w : BofWgc) : Type 0 where
  pub bins : w.angle_bin ≡ 20
  pub size : length w.angle_histogram ≡ 18
  pub total : sum w.angle_histogram ≡ w.histogram_total
  pub bounded : All (λ n. n ≤ w.histogram_max_num) w.angle_histogram
  pub reached : w.histogram_max_num ≤ w.histogram_total

abbrev counted : BofWgc → ℕ → ℕ → BofWgc
counted w bin n = record {
  angle_bin = w.angle_bin;
  angle_histogram = set w.angle_histogram bin (n + 1);
  histogram_max_num = if ltb w.histogram_max_num (n + 1) then n + 1 else w.histogram_max_num;
  histogram_total = w.histogram_total + 1;
}

abbrev Counts : BofWgc → ℕ → Outcome BofWgc → Type 0
Counts w n o =
    (w' : BofWgc) × (o ≡ ok w') × IsCounted w' × (w'.histogram_total ≡ w.histogram_total + n)

-- An angle in degrees.
abbrev pub InCircle : ℤ → Type 0
InCircle z = (pos_part z < 360) × (neg_part z ≡ 0)

-- A histogram that nothing has been counted in is well formed after `Init(20)`.
pub init-IsCounted :
    (histogram : List ℕ)
    → length histogram ≡ 18
    → (w : BofWgc) × (init (pos 20) (record {
      angle_bin = 0;
      angle_histogram = histogram;
      histogram_max_num = 0;
      histogram_total = 0;
    })
        ≡ ok w)
      × IsCounted w
unfolding init
init-IsCounted histogram h =
    let gone : drop 18 histogram ≡ [] =
      ap (λ n. drop n histogram) (sym h)
      ∙ ap (drop (length histogram)) (sym (append-nil histogram))
      ∙ drop-append_left histogram [] in
    (
      record {
        angle_bin = 20;
        angle_histogram = replicate 18 0;
        histogram_max_num = 0;
        histogram_total = 0;
      },
      rw (gone) refl,
      record {
        bins = refl;
        size = refl;
        total = refl;
        bounded = ground arith;
        reached = omega arith;
      },
    )
