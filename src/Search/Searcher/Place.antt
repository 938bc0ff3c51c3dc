-- ===== src/Search/Searcher/Place.antt =====
-- The rounds of the loop of `MergeBucketResult` for one item.
use mlsimgsearch.Prelude.{
  ltb, ◌==◌, if◌then◌else◌, ltb→lt, ==_iff, Bool-cases, if_cases, Outcome, ◌>>=◌, ok, ℕ, ◌^◌, ◌<◌,
  ◌≡◌, refl, sym, ap, subst, ◌≢◌, ◌⊎◌, inl, inr, false, not, ◌||◌, Option, none, some, List, [],
  ◌∷◌, arith,
}
use mlsimgsearch.Search.Serializer.{IndexItem, signed_key}
use mlsimgsearch.Search.Index.Merge.{key_injective, or_else}
use mlsimgsearch.Search.Searcher.{
  MergeSimilarInfo, FloatOps, he_similar_num, add_to, first_info, to_list, place,
}
use mlsimgsearch.Search.Searcher.Rising.{
  Behind, Behind-weaken, UpTo, RisingResults, find_result, find_result-Behind,
}

-- The item, if the picture is its own.
abbrev pub one : ℕ → IndexItem → Option IndexItem
one id item = if item.pic_id == id then some item else none

module _ (fl : FloatOps) (threshold query_weight : ℕ) (query_he : List ℕ) where
  -- What `place` makes of a picture with the item and the result that it has.
  unfoldable pub placed_info : Option IndexItem → Option MergeSimilarInfo → Option MergeSimilarInfo
  placed_info none r = r
  placed_info (some item) none = first_info fl threshold query_weight query_he item
  placed_info (some item) (some r) = some (add_to fl threshold query_weight query_he item r)

  -- The outcome of placing an item among rising results.
  pub record Placed (item : IndexItem) (rest : List MergeSimilarInfo)
      (o : Outcome (List MergeSimilarInfo × List MergeSimilarInfo)) : Type 0 where
    pub before : List MergeSimilarInfo
    pub after : List MergeSimilarInfo
    pub result : o ≡ ok (before, after)
    pub rises : RisingResults before
    pub up_to : UpTo (signed_key item.pic_id) before
    pub rises_after : RisingResults after
    pub behind : Behind (signed_key item.pic_id) after
    pub lower : (k : ℕ) → k < signed_key item.pic_id → Behind k rest → Behind k before
    pub found :
        (id : ℕ)
        → or_else (find_result id before) (find_result id after)
          ≡ placed_info (one id item) (find_result id rest)

  first_cases :
      (item : IndexItem)
      → (first_info fl threshold query_weight query_he item ≡ none)
        ⊎ ((info : MergeSimilarInfo) × (first_info fl threshold query_weight query_he item
              ≡ some info)
            × (info.pic_id ≡ item.pic_id))
  unfolding first_info
  first_cases item =
      let Cases : Option MergeSimilarInfo → Type 0 = λ o.
        (o ≡ none) ⊎ ((info : MergeSimilarInfo) × (o ≡ some info) × (info.pic_id ≡ item.pic_id)) in
      let info : MergeSimilarInfo = record {
        pic_id = item.pic_id;
        sim = fl.add_product 0 item.weight query_weight;
        pow = fl.add_square 0 item.weight;
      } in
      if_cases Cases (he_similar_num threshold query_he item == 0) (λ _. inl refl)
        (λ _.
          if_cases Cases (fl.is_positive info.pow) (λ _. inr (info, refl, refl)) (λ _. inl refl))

  place_new :
      (item : IndexItem) (rest : List MergeSimilarInfo)
      → item.pic_id < 2 ^ 64
      → RisingResults rest
      → Behind (signed_key item.pic_id) rest
      → Placed item rest (ok (to_list (first_info fl threshold query_weight query_he item), rest))
  unfolding placed_info find_result
  place_new item rest h p b = elim (first_cases item) [
    | inl e ↦
        subst (λ o. Placed item rest (ok (to_list o, rest))) (sym e)
          (record {
            before = [];
            after = rest;
            result = refl;
            rises = tt;
            up_to = tt;
            rises_after = p;
            behind = b;
            lower = λ k h q. tt;
            found = λ id.
                if_cases (λ o. find_result id rest ≡ placed_info o (find_result id rest))
                  (item.pic_id == id)
                  (λ t.
                    rw
                      (find_result-Behind (signed_key item.pic_id) id rest b
                        (omega (arith, ap signed_key ((==_iff _ _).0 t))))
                      (sym e))
                  (λ f. refl);
          })
    | inr (info, e, same) ↦
        subst (λ o. Placed item rest (ok (to_list o, rest))) (sym e)
          (record {
            before = info ∷ [];
            after = rest;
            result = refl;
            rises = (omega (arith, same), tt, tt);
            up_to = (omega (arith, ap signed_key same), tt);
            rises_after = p;
            behind = b;
            lower = λ k h q. (omega (arith, h, ap signed_key same), tt);
            found = λ id.
                if_cases
                  (λ o.
                    or_else (if info.pic_id == id then some info else none) (find_result id rest)
                    ≡ placed_info o (find_result id rest))
                  (item.pic_id == id)
                  (λ t. ground (
                    arith,
                    find_result-Behind (signed_key item.pic_id) id rest b
                        (omega (arith, ap signed_key ((==_iff _ _).0 t))),
                    e,
                    same,
                  ))
                  (λ f. ground (arith, f, same));
          })
  ]

  add_to_pic :
      (item : IndexItem) (r : MergeSimilarInfo)
      → (add_to fl threshold query_weight query_he item r).pic_id ≡ r.pic_id
  unfolding add_to
  add_to_pic item r =
      if_cases (λ (s : MergeSimilarInfo). s.pic_id ≡ r.pic_id)
        (he_similar_num threshold query_he item == 0) (λ _. refl) (λ _. refl)

  place_same :
      (item : IndexItem) (r : MergeSimilarInfo) (rest : List MergeSimilarInfo)
      → item.pic_id < 2 ^ 64
      → item.pic_id ≡ r.pic_id
      → r.pic_id < 2 ^ 64
      → Behind (signed_key r.pic_id) rest
      → RisingResults rest
      → Placed item (r ∷ rest) (ok (add_to fl threshold query_weight query_he item r ∷ [], rest))
  unfolding placed_info find_result
  place_same item r rest h same hr br p =
      let s = add_to fl threshold query_weight query_he item r in
      let pic = add_to_pic item r in
      let key : signed_key item.pic_id ≡ signed_key r.pic_id = ap signed_key same in
      let key' : signed_key s.pic_id ≡ signed_key r.pic_id = ap signed_key pic in
      record {
        before = s ∷ [];
        after = rest;
        result = refl;
        rises = (omega (arith, pic), tt, tt);
        up_to = (omega arith, tt);
        rises_after = p;
        behind = Behind-weaken (signed_key item.pic_id) (signed_key r.pic_id) rest (omega arith) br;
        lower = λ k l q. (omega (arith, l), tt);
        found = λ id. elim (Bool-cases (r.pic_id == id)) [
          | inl t ↦ ground (arith, pic, t)
          | inr f ↦ ground (arith, pic, f)
        ];
      }

  key_after :
      (item : IndexItem) (r : MergeSimilarInfo)
      → item.pic_id < 2 ^ 64
      → r.pic_id < 2 ^ 64
      → (item.pic_id == r.pic_id) ≡ false
      → ltb (signed_key item.pic_id) (signed_key r.pic_id) ≡ false
      → signed_key r.pic_id < signed_key item.pic_id
  key_after item r h k f g = ground (arith, key_injective item.pic_id r.pic_id h k)

  place_later :
      (item : IndexItem) (r : MergeSimilarInfo) (rest : List MergeSimilarInfo)
      (o : Outcome (List MergeSimilarInfo × List MergeSimilarInfo))
      → signed_key r.pic_id < signed_key item.pic_id
      → r.pic_id < 2 ^ 64
      → Behind (signed_key r.pic_id) rest
      → Placed item rest o
      → Placed item (r ∷ rest) (o >>= λ (before, after). ok (r ∷ before, after))
  unfolding placed_info find_result
  place_later item r rest o l hr br v = record {
    before = r ∷ v.before;
    after = v.after;
    result = rw (v.result) refl;
    rises = (hr, v.lower (signed_key r.pic_id) l br, v.rises);
    up_to = (omega (arith, l), v.up_to);
    rises_after = v.rises_after;
    behind = v.behind;
    lower = λ k k_lt (q, qs). (q, v.lower k k_lt qs);
    found = λ id.
        if_cases
          (λ c.
            or_else c (find_result id v.after)
            ≡ placed_info (one id item) (if r.pic_id == id then some r else find_result id rest))
          (r.pic_id == id)
          (λ t.
            let other : item.pic_id ≢ id =
              λ e. omega (arith, l, ap signed_key e, ap signed_key ((==_iff _ _).0 t)) in
            ground (arith, t, other))
          (λ f. ground (arith, f, v.found id));
  }

  pub place_lem :
      (end_id : ℕ) (item : IndexItem) (rest : List MergeSimilarInfo)
      → item.pic_id < 2 ^ 64
      → item.pic_id ≢ end_id
      → RisingResults rest
      → Placed item rest (place fl threshold query_weight query_he end_id item rest)
  unfolding place
  place_lem end_id item [] h ne p =
      if_cases (Placed item []) (item.pic_id == end_id) (λ t. absurd (ne ((==_iff _ _).0 t)))
        (λ _. place_new item [] h tt tt)
  place_lem end_id item (r ∷ rest) h ne (hr, br, p) =
      if_cases (Placed item (r ∷ rest)) (item.pic_id == r.pic_id)
        (λ t. place_same item r rest h ((==_iff _ _).0 t) hr br p)
        (λ f.
          if_cases (Placed item (r ∷ rest)) (ltb (signed_key item.pic_id) (signed_key r.pic_id))
            (λ t.
              let lt = ltb→lt _ _ t in
              place_new item (r ∷ rest) h (hr, br, p)
                (
                  lt,
                  Behind-weaken (signed_key item.pic_id) (signed_key r.pic_id) rest
                      (omega (arith, lt)) br,
                ))
            (λ g.
              place_later item r rest (place fl threshold query_weight query_he end_id item rest)
                (key_after item r h hr f g) hr br (place_lem end_id item rest h ne p)))

  -- What becomes of a picture with the item and the result that it has. Without a signature near to
  -- one of the query the item adds nothing; else the product of the weights is added to the
  -- similarity and the square of the item's weight to the power, from 0 on for a new picture, which
  -- is dropped if its power is not positive.
  unfoldable pub merged : Option IndexItem → Option MergeSimilarInfo → Option MergeSimilarInfo
  merged none r = r
  merged (some item) none =
      let pow = fl.add_square 0 item.weight in
      if he_similar_num threshold query_he item == 0 || not (fl.is_positive pow)
      then none
      else some (record {
        pic_id = item.pic_id;
        sim = fl.add_product 0 item.weight query_weight;
        pow = pow;
      })
  merged (some item) (some r) =
      if he_similar_num threshold query_he item == 0
      then some r
      else some (record {
        pic_id = r.pic_id;
        sim = fl.add_product r.sim item.weight query_weight;
        pow = fl.add_square r.pow item.weight;
      })

  pub placed_info-merged :
      (item : Option IndexItem) (r : Option MergeSimilarInfo) → placed_info item r ≡ merged item r
  unfolding placed_info merged first_info add_to
  placed_info-merged none r = refl
  placed_info-merged (some item) none =
      elim (Bool-cases (he_similar_num threshold query_he item == 0)) [
        | inl e ↦ rw e refl
        | inr e ↦ elim (Bool-cases (fl.is_positive (fl.add_square 0 item.weight))) [
          | inl k ↦ rw (e, k) refl
          | inr k ↦ rw (e, k) refl
        ]
      ]
  placed_info-merged (some item) (some r) =
      elim (Bool-cases (he_similar_num threshold query_he item == 0)) [
        | inl e ↦ rw e refl
        | inr e ↦ rw e refl
      ]
