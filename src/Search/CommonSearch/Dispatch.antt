-- ===== src/Search/CommonSearch/Dispatch.antt =====
-- `DispatchData` gives every word of the query to a server of its range.
use mlsimgsearch.Prelude.{
  if◌then◌else◌, Bool-cases, All, All-weaken, Outcome, ◌>>=◌, ok, ◌+◌, ◌<◌, ◌≡◌, refl, sym, ap, ◌∙◌,
  subst, ◌⊎◌, inl, inr, true, false, ◌&&◌, List, [], ◌∷◌, ◌++◌, append-nil, append_assoc, arith,
}
use mlsimgsearch.Prelude.Int.{ℤ, ◌≤ℤ◌, pos_part, neg_part}
use mlsimgsearch.Search.Searcher.{QueryWord}
use mlsimgsearch.Search.CommonSearch.{
  MergeConf, ServerToData, leb_ℤ, is_nil, nothing_yet, push_part, add_word, close_part, after_close,
  dispatch_from, dispatch_data,
}

-- `a < b`
abbrev pub Below : ℤ → ℤ → Type 0
Below a b = pos_part a + neg_part b < pos_part b + neg_part a

abbrev pub InRange : MergeConf → ℤ → Type 0
InRange conf id = (conf.begin_id ≤ℤ id) × (id ≤ℤ conf.end_id)

-- The ranges are not empty, have servers, and follow one another.
abbrev pub Ranges : List MergeConf → Type 0
Ranges [] = Unit {0}
Ranges (conf ∷ confs) =
    (conf.begin_id ≤ℤ conf.end_id)
    × (is_nil conf.servers ≡ false)
    × All (λ next. Below conf.end_id next.begin_id) confs
    × Ranges confs

-- A range has the word.
abbrev pub Covered : List MergeConf → ℤ → Type 0
Covered [] id = ⊥
Covered (conf ∷ confs) id = InRange conf id ⊎ Covered confs id

abbrev pub RisingWords : List (ℤ × QueryWord) → Type 0
RisingWords [] = Unit {0}
RisingWords ((id, word) ∷ words) = All (λ (id', word'). Below id id') words × RisingWords words

-- The part has words, all of one range, and goes to the servers of that range.
abbrev pub Served : List MergeConf → ServerToData → Type 0
Served [] part = ⊥
Served (conf ∷ confs) part =
    ((part.servers ≡ conf.servers)
      × (is_nil part.img_qdata ≡ false)
      × All (λ (id, word). InRange conf id) part.img_qdata)
    ⊎ Served confs part

abbrev pub words_of : List ServerToData → List (ℤ × QueryWord)
words_of [] = []
words_of (part ∷ parts) = part.img_qdata ++ words_of parts

InRange-true :
    (conf : MergeConf) (id : ℤ)
    → InRange conf id
    → (leb_ℤ conf.begin_id id && leb_ℤ id conf.end_id) ≡ true
InRange-true conf id h = ground arith

InRange-false :
    (conf : MergeConf) (id : ℤ)
    → (leb_ℤ conf.begin_id id && leb_ℤ id conf.end_id) ≡ false
    → ¬ (InRange conf id)
InRange-false conf id e h = ground arith

InRange-of :
    (conf : MergeConf) (id : ℤ)
    → (leb_ℤ conf.begin_id id && leb_ℤ id conf.end_id) ≡ true
    → InRange conf id
InRange-of conf id e = (ground arith, ground arith)

-- A word that a later range has is behind the range.
later_above :
    (conf : MergeConf) (confs : List MergeConf) (id : ℤ)
    → Ranges confs
    → All (λ next. Below conf.end_id next.begin_id) confs
    → Covered confs id
    → Below conf.end_id id
later_above conf [] id r b c = absurd c
later_above conf (next ∷ confs) id (le, s, bs, r) (b, b') (inl h) = omega arith
later_above conf (next ∷ confs) id (le, s, bs, r) (b, b') (inr c) = later_above conf confs id r b' c

-- Behind a range, a word is in a later one.
Covered-later :
    (conf : MergeConf) (confs : List MergeConf) (id : ℤ)
    → Covered (conf ∷ confs) id
    → Below conf.end_id id
    → Covered confs id
Covered-later conf confs id (inl h) b = absurd (omega arith)
Covered-later conf confs id (inr c) b = c

All-Covered_later :
    (conf : MergeConf) (confs : List MergeConf) (id : ℤ) (words : List (ℤ × QueryWord))
    → Below conf.end_id id
    → All (λ (id', word'). Below id id') words
    → All (λ (id', word'). Covered (conf ∷ confs) id') words
    → All (λ (id', word'). Covered confs id') words
All-Covered_later conf confs id [] b a c = tt
All-Covered_later conf confs id ((id', word') ∷ words) b (a, as_) (c, cs) =
    (Covered-later conf confs id' c (omega arith), All-Covered_later conf confs id words b as_ cs)

-- A part with words of the range, for its servers.
abbrev Working : MergeConf → ServerToData → Type 0
Working conf part =
    (part.servers ≡ conf.servers)
    × (is_nil part.img_qdata ≡ false)
    × All (λ (id, word). InRange conf id) part.img_qdata

All-snoc {ℓ κ} :
    {A : Type ℓ} (P : A → Type κ) (xs : List A) (x : A) → All P xs → P x → All P (xs ++ x ∷ [])
All-snoc P [] x ps p = (p, tt)
All-snoc P (y ∷ xs) x (py, ps) p = (py, All-snoc P xs x ps p)

is_nil-snoc {ℓ} : {A : Type ℓ} (xs : List A) (x : A) → is_nil (xs ++ x ∷ []) ≡ false
is_nil-snoc [] x = refl
is_nil-snoc (y ∷ xs) x = refl

module _ (conf : MergeConf) (id : ℤ) (word : QueryWord) where
  add_first : InRange conf id → Working conf (add_word conf nothing_yet (id, word))
  unfolding add_word
  add_first h = (refl, refl, (h, tt))

  add_more :
      (part : ServerToData)
      → is_nil conf.servers ≡ false
      → Working conf part
      → InRange conf id
      → Working conf (add_word conf part (id, word))
  unfolding add_word
  add_more part s (e, n, a) h = (
    rw (e, s) refl,
    is_nil-snoc part.img_qdata (id, word),
    All-snoc (λ (id, word). InRange conf id) part.img_qdata (id, word) a h,
  )

  add-Working :
      (part : ServerToData)
      → is_nil conf.servers ≡ false
      → (part ≡ nothing_yet) ⊎ Working conf part
      → InRange conf id
      → Working conf (add_word conf part (id, word))
  add-Working part s (inl e) h =
      subst (λ p. Working conf (add_word conf p (id, word))) (sym e) (add_first h)
  add-Working part s (inr w) h = add_more part s w h

push-Working :
    (conf : MergeConf) (part : ServerToData) (parts : List ServerToData)
    → is_nil conf.servers ≡ false
    → Working conf part
    → push_part part parts ≡ ok (part ∷ parts)
unfolding push_part
push-Working conf part parts s (e, n, a) = rw (e, s) refl

-- What `dispatch_from` comes to.
abbrev Dispatched : List MergeConf → List (ℤ × QueryWord) → Outcome (List ServerToData) → Type 0
Dispatched confs words o =
    (parts : List ServerToData) × (o ≡ ok parts)
    × (words_of parts ≡ words)
    × All (Served confs) parts

All-Served_later :
    (conf : MergeConf) (confs : List MergeConf) (parts : List ServerToData)
    → All (Served confs) parts
    → All (Served (conf ∷ confs)) parts
All-Served_later conf confs parts = All-weaken (λ p s. inr s) parts

-- The part in work is left, and later ranges have given `parts` to the words.
close_lem :
    (conf : MergeConf) (confs : List MergeConf) (part : ServerToData) (words : List (ℤ × QueryWord))
    (parts : List ServerToData)
    → is_nil conf.servers ≡ false
    → (part ≡ nothing_yet) ⊎ Working conf part
    → words_of parts ≡ words
    → All (Served confs) parts
    → Dispatched (conf ∷ confs) (part.img_qdata ++ words) (close_part part parts)
unfolding close_part
close_lem conf confs part words parts s (inl e) w a = (
  parts,
  ap (λ (p : ServerToData). if is_nil p.img_qdata then ok parts else push_part p parts) e,
  w ∙ sym (ap (λ (p : ServerToData). p.img_qdata ++ words) e),
  All-Served_later conf confs parts a,
)
close_lem conf confs part words parts s (inr (e, n, r)) w a = (
  part ∷ parts,
  rw n (push-Working conf part parts s (e, n, r)),
  ap (λ ws. part.img_qdata ++ ws) w,
  (inl (e, n, r), All-Served_later conf confs parts a),
)

after_close_lem :
    (conf : MergeConf) (part : ServerToData)
    → (part ≡ nothing_yet) ⊎ Working conf part
    → after_close part ≡ nothing_yet
unfolding after_close
after_close_lem conf part (inl e) =
    ap (λ (p : ServerToData). if is_nil p.img_qdata then p else nothing_yet) e
after_close_lem conf part (inr (e, n, r)) = rw n refl

-- The last word of all is in the range.
last_word :
    (conf : MergeConf) (confs : List MergeConf) (part : ServerToData) (id : ℤ) (word : QueryWord)
    → is_nil conf.servers ≡ false
    → (part ≡ nothing_yet) ⊎ Working conf part
    → InRange conf id
    → Dispatched
        (conf ∷ confs)
        (part.img_qdata ++ (id, word) ∷ [])
        (push_part (add_word conf part (id, word)) [])
last_word conf confs part id word s i h =
    let v = add-Working conf id word part s i h in
    let part' = add_word conf part (id, word) in
    (part' ∷ [], push-Working conf part' [] s v, add_last, (inl v, tt))
  where
    add_last : words_of (add_word conf part (id, word) ∷ []) ≡ part.img_qdata ++ (id, word) ∷ []
    add_last = unfold add_word in append-nil (part.img_qdata ++ (id, word) ∷ [])

module _ (conf : MergeConf) (part : ServerToData) (id : ℤ) (word : QueryWord) where
  step_last :
      (confs : List MergeConf)
      → InRange conf id
      → dispatch_from conf confs part ((id, word) ∷ [])
        ≡ push_part (add_word conf part (id, word)) []
  unfolding dispatch_from
  step_last [] h = rw (InRange-true conf id h) refl
  step_last (next ∷ confs) h = rw (InRange-true conf id h) refl

  step_in :
      (confs : List MergeConf) (other : ℤ × QueryWord) (words : List (ℤ × QueryWord))
      → InRange conf id
      → dispatch_from conf confs part ((id, word) ∷ other ∷ words)
        ≡ dispatch_from conf confs (add_word conf part (id, word)) (other ∷ words)
  unfolding dispatch_from
  step_in [] other words h = rw (InRange-true conf id h) refl
  step_in (next ∷ confs) other words h = rw (InRange-true conf id h) refl

  step_out :
      (next : MergeConf) (confs : List MergeConf) (words : List (ℤ × QueryWord))
      → (leb_ℤ conf.begin_id id && leb_ℤ id conf.end_id) ≡ false
      → dispatch_from conf (next ∷ confs) part ((id, word) ∷ words)
        ≡ (dispatch_from next confs (after_close part) ((id, word) ∷ words) >>= close_part part)
  unfolding dispatch_from
  step_out next confs words h = rw h refl

-- The range, and what is known of the words from it on.
record Ahead (conf : MergeConf) (confs : List MergeConf) (part : ServerToData)
    (words : List (ℤ × QueryWord)) : Type 0 where
  ranges : Ranges (conf ∷ confs)
  rising : RisingWords words
  covered : All (λ (id, word). Covered (conf ∷ confs) id) words
  in_work : (part ≡ nothing_yet) ⊎ Working conf part

-- The words are behind the range, and go to the next one.
Ahead-next :
    (conf next : MergeConf) (confs : List MergeConf) (part : ServerToData) (id : ℤ)
    (word : QueryWord) (words : List (ℤ × QueryWord))
    → Ahead conf (next ∷ confs) part ((id, word) ∷ words)
    → ¬ (InRange conf id)
    → Ahead next confs nothing_yet ((id, word) ∷ words)
Ahead-next conf next confs part id word words v out =
    let later : Covered (next ∷ confs) id = elim v.covered.0 [
      | inl h ↦ absurd (out h)
      | inr c ↦ c
    ] in
    let above = later_above conf (next ∷ confs) id v.ranges.3 v.ranges.2 later in
    record {
      ranges = v.ranges.3;
      rising = v.rising;
      covered =
          (later, All-Covered_later conf (next ∷ confs) id words above v.rising.0 v.covered.1);
      in_work = inl refl;
    }

not-Covered : (conf : MergeConf) (id : ℤ) → Covered (conf ∷ []) id → ¬ (InRange conf id) → ⊥
not-Covered conf id (inl h) out = out h
not-Covered conf id (inr c) out = c

leave :
    (conf next : MergeConf) (confs : List MergeConf) (part : ServerToData) (id : ℤ)
    (word : QueryWord) (words : List (ℤ × QueryWord))
    → Ahead conf (next ∷ confs) part ((id, word) ∷ words)
    → (leb_ℤ conf.begin_id id && leb_ℤ id conf.end_id) ≡ false
    → Dispatched
        (next ∷ confs)
        ((id, word) ∷ words)
        (dispatch_from next confs nothing_yet ((id, word) ∷ words))
    → Dispatched
        (conf ∷ next ∷ confs)
        (part.img_qdata ++ (id, word) ∷ words)
        (dispatch_from conf (next ∷ confs) part ((id, word) ∷ words))
leave conf next confs part id word words v out (parts, e, w, a) =
    let (parts', e', w', a') =
      close_lem conf (next ∷ confs) part ((id, word) ∷ words) parts v.ranges.1 v.in_work w a in
    (
      parts',
      step_out conf part id word next confs words out
          ∙ rw (after_close_lem conf part v.in_work, e) e',
      w',
      a',
    )

-- The word is the last one and in the range.
stay_last :
    (conf : MergeConf) (confs : List MergeConf) (part : ServerToData) (id : ℤ) (word : QueryWord)
    → Ahead conf confs part ((id, word) ∷ [])
    → InRange conf id
    → Dispatched
        (conf ∷ confs)
        (part.img_qdata ++ (id, word) ∷ [])
        (dispatch_from conf confs part ((id, word) ∷ []))
stay_last conf confs part id word v h =
    let (parts, e, w, a) = last_word conf confs part id word v.ranges.1 v.in_work h in
    (parts, step_last conf part id word confs h ∙ e, w, a)

Ahead-more :
    (conf : MergeConf) (confs : List MergeConf) (part : ServerToData) (id : ℤ) (word : QueryWord)
    (words : List (ℤ × QueryWord))
    → Ahead conf confs part ((id, word) ∷ words)
    → InRange conf id
    → Ahead conf confs (add_word conf part (id, word)) words
Ahead-more conf confs part id word words v h = record {
  ranges = v.ranges;
  rising = v.rising.1;
  covered = v.covered.1;
  in_work = inr (add-Working conf id word part v.ranges.1 v.in_work h);
}

-- The word is in the range, and others follow.
stay :
    (conf : MergeConf) (confs : List MergeConf) (part : ServerToData) (id : ℤ) (word : QueryWord)
    (other : ℤ × QueryWord) (words : List (ℤ × QueryWord))
    → InRange conf id
    → Dispatched
        (conf ∷ confs)
        ((add_word conf part (id, word)).img_qdata ++ other ∷ words)
        (dispatch_from conf confs (add_word conf part (id, word)) (other ∷ words))
    → Dispatched
        (conf ∷ confs)
        (part.img_qdata ++ (id, word) ∷ other ∷ words)
        (dispatch_from conf confs part ((id, word) ∷ other ∷ words))
unfolding add_word
stay conf confs part id word other words h (parts, e, w, a) = (
  parts,
  step_in conf part id word confs other words h ∙ e,
  w ∙ append_assoc part.img_qdata ((id, word) ∷ []) (other ∷ words),
  a,
)

dispatch_from_lem :
    (conf : MergeConf) (confs : List MergeConf) (part : ServerToData) (id : ℤ) (word : QueryWord)
    (words : List (ℤ × QueryWord))
    → Ahead conf confs part ((id, word) ∷ words)
    → Dispatched
        (conf ∷ confs)
        (part.img_qdata ++ (id, word) ∷ words)
        (dispatch_from conf confs part ((id, word) ∷ words))
dispatch_from_lem conf [] part id word [] v = elim (Bool-cases _) [
  | inl t ↦ stay_last conf [] part id word v (InRange-of conf id t)
  | inr f ↦ absurd (not-Covered conf id v.covered.0 (InRange-false conf id f))
]
dispatch_from_lem conf (next ∷ confs) part id word [] v = elim (Bool-cases _) [
  | inl t ↦ stay_last conf (next ∷ confs) part id word v (InRange-of conf id t)
  | inr f ↦ leave conf next confs part id word [] v f (
      dispatch_from_lem next confs nothing_yet id word []
        (Ahead-next conf next confs part id word [] v (InRange-false conf id f)))
]
dispatch_from_lem conf [] part id word ((id', word') ∷ words) v = elim (Bool-cases _) [
  | inl t ↦
      let h = InRange-of conf id t in
      stay conf [] part id word (id', word') words h
        (dispatch_from_lem conf [] (add_word conf part (id, word)) id' word' words
          (Ahead-more conf [] part id word ((id', word') ∷ words) v h))
  | inr f ↦ absurd (not-Covered conf id v.covered.0 (InRange-false conf id f))
]
dispatch_from_lem conf (next ∷ confs) part id word ((id', word') ∷ words) v = elim (Bool-cases _) [
  | inl t ↦
      let h = InRange-of conf id t in
      stay conf (next ∷ confs) part id word (id', word') words h
        (dispatch_from_lem conf (next ∷ confs) (add_word conf part (id, word)) id' word' words
          (Ahead-more conf (next ∷ confs) part id word ((id', word') ∷ words) v h))
  | inr f ↦ leave conf next confs part id word ((id', word') ∷ words) v f (
      dispatch_from_lem next confs nothing_yet id word ((id', word') ∷ words) (
        Ahead-next conf next confs part id word ((id', word') ∷ words) v (InRange-false conf id f)))
]

-- When the ranges are not empty, have servers and follow one another, and every word of a query
-- with rising ids is in one of them, `DispatchData` succeeds: its parts hold the words in their
-- order, and each part has words, all of one range, and that range's servers.
pub dispatch_data_lem :
    (conf : MergeConf) (confs : List MergeConf) (id : ℤ) (word : QueryWord)
    (words : List (ℤ × QueryWord))
    → Ranges (conf ∷ confs)
    → RisingWords ((id, word) ∷ words)
    → All (λ (id, word). Covered (conf ∷ confs) id) ((id, word) ∷ words)
    → (parts : List ServerToData) × (dispatch_data (conf ∷ confs) ((id, word) ∷ words) ≡ ok parts)
      × (words_of parts ≡ (id, word) ∷ words)
      × All (Served (conf ∷ confs)) parts
unfolding dispatch_data
dispatch_data_lem conf confs id word words r w c =
    dispatch_from_lem conf confs nothing_yet id word words
      (record { ranges = r; rising = w; covered = c; in_work = inl refl })
