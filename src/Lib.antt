-- ===== src/Lib.antt =====
-- mlsimgsearch: a search for similar images, and the server library under it.
--
-- A picture is described by visual words. An indexer turns buckets of pictures into inverted lists,
-- one for each word, in a data file with a table of hints. A searcher loads the lists of the words
-- of a query and adds up what each picture shares with it; the merging server does this for the
-- words of one request. The search daemon cuts a query into the parts that the merging servers
-- answer, merges their answers and ranks the pictures. The servers stand on libsrc/blitz2, with its tokens, message decoders and
-- selectors.
--
-- Search: image_search/bof_core and image_search/indexer.
--   Search/Hamming is hamming_embedding_descriptor.cc: coder_loop, he_string2int and he_distance are
--     the loops of HammingCoder, HeString2Int and HeDistance. Count, Text and Distance are its laws.
--   Search/Serializer is indexer_serializer.cc: serialize and unserialize. Bytes has the moves of
--     memory, RoundTrip and Size the laws.
--   Search/Hints is index_hinter.cc, Search/Index LoadWord of indexer.cc and the writers of an index
--     in image_search/indexer/src (reducer_result.cc, merger.cc).
--   Search/Bucket is the first part of indexer.cc, ConvertB2W among it.
--   Search/Searcher is searcher.cc: place and merge_results are the loop of MergeBucketResult, merge
--     and merge_by_thread the operations of the class.
--   Search/Ranking is its Rank with the setters before it, as CommonSearch calls them.
--   Search/CommonSearch is image_search/searchd/src/common_search.cc: dispatch_from is the loop of
--     DispatchData, merge_from that of MergeThreadsResult, exec_merge is ExecMerge behind the call
--     of the server, and process_query what Process does from DispatchData to GetResult. Dispatch,
--     Combine and Threads have the laws of the three steps, Whole those of a query.
--   Search/Wgc is weak_geometry_consistency.cc.
-- Compute: image_search/parallel_compute/src/merge_processor.cc, whose process is Merge.
-- Blitz: libsrc/blitz2/include/blitz2.
--   Blitz/TokenMgr is token_mgr.h, Blitz/LineMsg line_msg.h, Blitz/FixHeadMsg fix_head_msg.h and
--     Blitz/Selector service_selector.h. feed of the two decoders is Feed.
--   Blitz/ArrayList is array_list.h. Rep says that an array holds a sequence; Refine and Splice have
--     the operations that change it, Reads and Start the others.
--   Blitz/ActionArcs and Blitz/StateMachine are state_machine.h with src/state_machine.cc: goto_state is
--     InternalGotoState, and settle what its callers do with its result. Reachable is the relation of
--     all that can happen to a machine. An action is a function of the context that does not call
--     the machine; callbacks are the list of the contexts that were passed to them.
--   Blitz/Uri is the first part of src/http/http_common.cc: Url::Parse and ParseUri. Blitz/HttpReq
--     is HttpReqDecoder there: search_eol, first_line and header_round are SearchEOL, ParseFirstLine
--     and a round of ParseHeader. Lines, FirstLine and Whole have requests that arrive in one
--     read, Split one that does not.
--   Blitz/HttpResponse is HttpResponse in the same file: create_out_msg is CreateOutMsg, as a
--     sequence of calls of Blitz/BufferWriter. What sprintf makes of a number is a parameter.
--   Blitz/HttpResp and Blitz/HttpChunks are HttpRespDecoder there, the second the reading of a body
--     in chunks: header_round is a round of ParseHeader, with_length its end by the content length,
--     read_chunk_trailer, chunk_data and chunk_size_round are ReadChunkTrailer, ReadChunkData and
--     ReadChunkSize, and chunks their calls of each other. strtol16 is strtol to the base 16.
--   Blitz/Memcached is memcached/memcached_common.h, Blitz/MemcachedReq memcached_req.h and
--     Blitz/MemcachedResp memcached_resp.h: by_command and by_name are ProcessFirstLine, process_set
--     and process_get the rest of a message. Pieces has messages in any pieces.
--   Blitz/BufferWriter is buffer_writer.h with src/buffer.cc: extend is Extend, store the writes
--     behind the data, and print_digits the loop of PrintInt.
--   Blitz/ThriftMsg is thrift/thrift_msg.h: write_virt, flush and detach are those of the transport
--     that writes to memory, create_outmsg is CreateOutmsgFromThriftStruct with the writes that a
--     structure makes, and read_virt and read_all_virt read from memory. The decoder of frames is
--     that of Blitz/FixHeadMsg with get_body_len.
-- Prelude has the names that all share, lists, maps and integers over native numbers, and laws of
-- words.
-- Tests has each theorem at a concrete input.
--
-- A call is an Outcome: ok with its value, err n for the return value -n (in Blitz/TokenMgr for the
-- pattern n of an int), fault for an access out of bounds or another use that the language leaves
-- undefined. Numbers of a machine type are natural numbers with the wrap-around written out; signed
-- ones stand as their patterns, or as integers. A float is its pattern and its operations are a
-- parameter; so are the archives and lexical_cast of the boost library and the length function of a
-- message's head. The threads that merge answers are the order in which they do it, since each holds
-- the lock while it merges; the query power, to which they add without the lock, is the sum as each
-- of them leaves it. What is read behind the end of a list of the standard library is a parameter.
-- Loops are recursion on the list or the count that they run over. Seven have fuel: merge_items,
-- which is given one more than the items of both lists, find_good, which is given the number of
-- nodes, parse_params, parse_header (of requests and of responses) and read_chunk_size, which are
-- given one more than the characters, print_loop, which needs one more than the places of the array,
-- and goto_state, whose recursion has no bound in the code and ends when the arcs of the actions
-- lead down in rank. The theorems on merger_words, select, parse_uri, feed, print, start_one_context
-- and process_event show that this is enough, but for read_chunk_size, of which each round passes
-- over a line end.
-- print_digits runs on the room in its buffer.
--
-- Not modelled: threads, sockets, logging, timing, configuration, opening of files, image codecs and
-- OpenCV, generated interfaces, the ranking by geometry, and the words that an index keeps in memory,
-- whose items are freed when they are stored.
pub mod Blitz
pub mod Compute
pub mod Prelude
pub mod Search
pub mod Tests
