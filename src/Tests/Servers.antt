-- ===== src/Tests/Servers.antt =====
-- The containers and decoders of libsrc/blitz2, buckets and histograms.
use mlsimgsearch.Prelude.{
  get_elem?, replicate, concat, ok, ℕ, ◌+◌, ◌≡◌, refl, Bool, true, Option, none, some, List, [],
  ◌∷◌, ◌++◌, map, arith,
}
use mlsimgsearch.Prelude.Int.{ℤ, pos, negsuc}
use mlsimgsearch.Search.Bucket.{convert_item}
use mlsimgsearch.Search.Hamming.Text.{signature_text, signature_word}
use mlsimgsearch.Search.Bucket.Texts.{three_digits, convert_item_lem}
use mlsimgsearch.Search.Wgc.{BofWgc}
use mlsimgsearch.Blitz.TokenMgr.{
  TokenItem, TokenMgr, set_index, new_salt, init_items, get_index, get_data, alloc, dealloc,
}
use mlsimgsearch.Blitz.TokenMgr.Slots.{HasFree}
use mlsimgsearch.Blitz.TokenMgr.Stack.{alloc-HasFree, dealloc-HasFree}
use mlsimgsearch.Blitz.TokenMgr.Start.{started, started-HasFree}
use mlsimgsearch.Blitz.LineMsg.{LineMsgDecoder, scan, feed}
use mlsimgsearch.Blitz.LineMsg.Stream.{feed-append}
use mlsimgsearch.Blitz.FixHeadMsg.{Params, empty_decoder, feed_all}
use mlsimgsearch.Blitz.FixHeadMsg.Messages.{then_message, feed_all_message}
use mlsimgsearch.Blitz.Selector.{SelectNode, RandomSelector, select, update_all_mark}
use mlsimgsearch.Blitz.Selector.Select.{GoodOutcome, select_good}
use mlsimgsearch.Blitz.Selector.Marks.{Marked, changed, update_all_mark_lem}

abbrev one_signature : List (List Bool)
one_signature = replicate 64 true ∷ []

convert_item_lem_example :
    convert_item (record {
      pic_id = 7;
      bof_info = record {
        q = 3;
        he_text = concat (map signature_text one_signature);
        angle_text = concat (map three_digits (145 ∷ []));
      };
    })
    ≡ ok (record {
      pic_id = 7;
      weight = 3;
      length_ = 1;
      he = map signature_word one_signature;
      angle = 145 ∷ [];
    })
convert_item_lem_example =
    convert_item_lem 7 3 one_signature (145 ∷ []) (refl, tt) (omega arith, tt) refl (omega arith)

abbrev new_wgc : BofWgc
new_wgc = record {
  angle_bin = 0;
  angle_histogram = replicate 18 5;
  histogram_max_num = 0;
  histogram_total = 0;
}

abbrev wgc_one : BofWgc
wgc_one = record {
  angle_bin = 20;
  angle_histogram = 1 ∷ replicate 17 0;
  histogram_max_num = 1;
  histogram_total = 1;
}

-- The angles 45 and 350, and 90.
abbrev text_two : List ℕ
text_two = b'0' ∷ b'4' ∷ b'5' ∷ b'3' ∷ b'5' ∷ b'0' ∷ []

abbrev text_one : List ℕ
text_one = b'0' ∷ b'9' ∷ b'0' ∷ []

alloc-HasFree_example :
    (token : ℕ) × (m' : TokenMgr ℕ) × (slot : TokenItem ℕ) × (alloc (some (started 0 3 2))
      ≡ ok (token, m'))
    × HasFree m' (2 ∷ [])
    × (get_index token ≡ 1)
    × (get_elem? (started 0 3 2).items 1 ≡ some slot)
    × (get_data (some m') token ≡ some slot.data_)
alloc-HasFree_example =
    alloc-HasFree (started 0 3 2) 1 (2 ∷ []) (started-HasFree 0 3 2 (omega arith) (omega arith))

-- Slot 3, which is in use.
abbrev slot_three : TokenItem ℕ
slot_three = record { token = 0x3_0001; data_ = 0; next = 4 }

slot_three_found : get_elem? (started 0 3 2).items 3 ≡ some slot_three
unfolding init_items set_index new_salt
slot_three_found = refl

dealloc-HasFree_example :
    (m' : TokenMgr ℕ) × (dealloc (some (started 0 3 2)) slot_three.token ≡ ok m')
    × HasFree m' (3 ∷ 1 ∷ 2 ∷ [])
    × (get_data (some m') slot_three.token ≡ none)
dealloc-HasFree_example =
    dealloc-HasFree (started 0 3 2) 3 (1 ∷ 2 ∷ []) slot_three
      (started-HasFree 0 3 2 (omega arith) (omega arith)) (omega arith) (omega arith) (omega arith)
      ((λ e. omega (arith, e)), ((λ e. omega (arith, e)), tt)) slot_three_found

-- A decoder that has the bytes of "ab".
abbrev ab_decoder : LineMsgDecoder
ab_decoder = record { max_length = 100; prefix = b'a' ∷ b'b' ∷ [] }

abbrev zeros : List ℕ
zeros = replicate 100 0

-- "c", a line end and "d".
abbrev first_piece : List ℕ
first_piece = b'c' ∷ b'\n' ∷ b'd' ∷ []

abbrev second_piece : List ℕ
second_piece = b'e' ∷ b'\n' ∷ []

feed-append_example :
    (feed zeros ab_decoder (first_piece ++ second_piece)).0
    ≡ (feed zeros ab_decoder first_piece).0
      ++ (feed zeros (feed zeros ab_decoder first_piece).1 second_piece).0
unfolding scan
feed-append_example = feed-append zeros ab_decoder first_piece second_piece refl

-- Heads of two bytes, the second of which is the length of the body.
abbrev second_byte : List ℕ → Option ℕ
second_byte (a ∷ b ∷ bytes) = some b
second_byte (a ∷ []) = none
second_byte [] = none

abbrev short_heads : Params
short_heads = record {
  head_len = 2;
  buf_start_len = 4;
  buf_max_len = 64;
  get_body_len = second_byte;
}

feed_all_message_example :
    feed_all short_heads
      (empty_decoder short_heads)
      ((0 ∷ 3 ∷ []) ∷ ((5 ∷ []) ∷ (6 ∷ 7 ∷ []) ∷ []) ++ [])
    ≡ then_message
        ((0 ∷ 3 ∷ []) ++ ((5 ∷ []) ++ concat ((6 ∷ 7 ∷ []) ∷ [])))
        (feed_all short_heads (empty_decoder short_heads) [])
feed_all_message_example =
    feed_all_message short_heads (0 ∷ 3 ∷ []) (5 ∷ []) ((6 ∷ 7 ∷ []) ∷ []) [] (omega arith) refl
      refl (omega arith) (omega arith) (omega arith) (omega arith, (omega arith, tt))

abbrev node : ℕ → ℤ → SelectNode ℕ
node id mark = record { id = id; mark = mark; weight = pos 1; data_ = 8000 + id }

-- The first node has had its turn, and the second one is marked down.
abbrev three_nodes : RandomSelector ℕ
three_nodes = record {
  nodes = node 0 (pos 100) ∷ node 1 (negsuc 4) ∷ node 2 (pos 50) ∷ [];
  curnode_used_count = 1;
  select_idx = 0;
}

select_good_example : GoodOutcome (select three_nodes)
select_good_example =
    select_good three_nodes 2 (omega arith) (omega arith) (λ e. omega (arith, e))
      (node 2 (pos 50), refl, refl)

update_all_mark_lem_example :
    (s' : RandomSelector ℕ) × (update_all_mark three_nodes (negsuc 149) ≡ ok s')
    × (s'.nodes ≡ map (changed (negsuc 149)) three_nodes.nodes)
    × Marked s'
update_all_mark_lem_example =
    update_all_mark_lem three_nodes (negsuc 149)
      ((omega arith, omega arith), ((omega arith, omega arith), ((omega arith, omega arith), tt)))
      (omega arith, omega arith)
