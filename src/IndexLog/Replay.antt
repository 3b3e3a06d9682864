-- ===== src/IndexLog/Replay.antt =====
-- src/indexlog.c and tools/replay_journal.c: the loop of fetches over a file that the log wrote.
use linglongta.Prelude.{
  ℕ, zero, suc, ◌+◌, ◌^◌, ◌<◌, ◌≡◌, refl, ap, ◌∙◌, arith, Option, none, some, List, [], ◌∷◌, ◌++◌,
  map, append_assoc, length, All, Bool, true, if◌then◌else◌, ℤ, pos, negsuc,
}
use linglongta.Storage.Types.{LogItem}
use linglongta.IndexLog.Encoding.{
  le_bytes, length-le_bytes, le_value-le_bytes_4, FetchedItem, as_fetched, Fits,
}
use linglongta.IndexLog.Reader.{
  LogReader, read_exactly, fetch_magic, fetch_header, fetch_block_header, start_block, alloc_item,
  fetch_item, fetch_steps, index_logger_fetch, is_minus_one, replay, replay_on,
}
use linglongta.IndexLog.Blocks.{
  flat, encode_item, encode_items, encode_block, encode_blocks, IsBlock,
}
use linglongta.IndexLog.Fetch.{past, read_exactly-append, behind_item, fetch_item-encode_item}

-- How far the reader is in its block: these items are left of it.
abbrev pub Inside : (fetch_id fetch_records_amount : ℤ) → List LogItem → Type 0
Inside id amount [] = id ≡ negsuc 0
Inside id amount (x ∷ xs) = (k : ℕ) × (id ≡ pos k) × (amount ≡ pos (k + suc (length xs)))

header_new : (il : LogReader) → il.fetch_id ≡ negsuc 0 → fetch_header il ≡ fetch_block_header il
unfolding fetch_header
header_new il e = ap (λ z. if is_minus_one z then fetch_block_header il else (some tt, il)) e

replay_on-none :
    (again : LogReader → List FetchedItem × Bool) (r : Option FetchedItem × LogReader)
    → r.0 ≡ none
    → replay_on again r ≡ ([], true)
replay_on-none again (none, il) e = refl
replay_on-none again (some ili, il) e = cc

module _ (crc32_calc : List ℕ → ℕ) where
  -- Past the magic number, with these items left of a block and these blocks behind it.
  pub record Between (il : LogReader) (xs : List LogItem) (bs : List (List LogItem)) : Type 0 where
    pub unread : il.unread ≡ encode_items xs ++ encode_blocks crc32_calc bs
    pub inside : Inside il.fetch_id il.fetch_records_amount xs
    pub begun : 0 < il.file_offset
    pub fits : All Fits xs
    pub blocks : All IsBlock bs

  -- In a block, in front of an item.
  record Ready (il : LogReader) (x : LogItem) (xs : List LogItem) (bs : List (List LogItem))
      : Type 0 where
    unread : il.unread ≡ encode_item x ++ (encode_items xs ++ encode_blocks crc32_calc bs)
    inside : Inside il.fetch_id il.fetch_records_amount (x ∷ xs)
    fits_first : Fits x
    fits : All Fits xs
    blocks : All IsBlock bs

  header_inside :
      (il : LogReader) (x : LogItem) (xs : List LogItem) (bs : List (List LogItem))
      → Between il (x ∷ xs) bs
      → (fetch_header il ≡ (some tt, il)) × Ready il x xs bs
  unfolding fetch_header encode_items
  header_inside il x xs bs b = (
    rw b.inside.1 refl,
    record {
      unread =
          b.unread ∙ append_assoc (encode_item x) (encode_items xs) (encode_blocks crc32_calc bs);
      inside = b.inside;
      fits_first = b.fits.0;
      fits = b.fits.1;
      blocks = b.blocks;
    },
  )

  -- the reader behind the header of a block
  abbrev behind_header : LogReader → List LogItem → List ℕ → LogReader
  behind_header il ys rest = record il {
    unread = rest;
    file_offset = il.file_offset + 4 + 4;
    fetch_records_amount = pos (length ys);
    fetch_id = pos 0;
  }

  block_header :
      (il : LogReader) (ys : List LogItem) (rest : List ℕ)
      → length ys < 2 ^ 32
      → il.unread ≡ encode_block crc32_calc ys ++ rest
      → fetch_block_header il ≡ (some tt, behind_header il ys (encode_items ys ++ rest))
  unfolding fetch_block_header encode_block start_block
  block_header il ys rest few e =
      rw
        (read_exactly-append il 4 crc (count ++ (encode_items ys ++ rest))
          (length-le_bytes 4 (crc32_calc (encode_items ys))) (e ∙ split))
        (rw
          (read_exactly-append (past il 4 (count ++ (encode_items ys ++ rest))) 4 count
            (encode_items ys ++ rest) (length-le_bytes 4 (length ys)) refl)
          (rw (le_value-le_bytes_4 (length ys) few) refl))
    where
      crc : List ℕ
      crc = le_bytes 4 (crc32_calc (encode_items ys))

      count : List ℕ
      count = le_bytes 4 (length ys)

      split :
          (crc ++ (count ++ encode_items ys)) ++ rest ≡ crc ++ (count ++ (encode_items ys ++ rest))
      split =
          append_assoc crc (count ++ encode_items ys) rest
          ∙ ap (λ l. crc ++ l) (append_assoc count (encode_items ys) rest)

  header_next :
      (il : LogReader) (x : LogItem) (xs : List LogItem) (bs : List (List LogItem))
      → Between il [] ((x ∷ xs) ∷ bs)
      → (r : LogReader) × (fetch_header il ≡ (some tt, r)) × Ready r x xs bs
  unfolding fetch_header encode_items encode_blocks
  header_next il x xs bs b = (
    behind_header il (x ∷ xs) (encode_items (x ∷ xs) ++ encode_blocks crc32_calc bs),
    header_new il b.inside
        ∙ block_header il (x ∷ xs) (encode_blocks crc32_calc bs) (omega (arith, b.blocks.0.no_more))
            b.unread,
    record {
      unread = append_assoc (encode_item x) (encode_items xs) (encode_blocks crc32_calc bs);
      inside = (0, refl, ap pos (omega arith));
      fits_first = b.blocks.0.fits.0;
      fits = b.blocks.0.fits.1;
      blocks = b.blocks.1;
    },
  )

  -- The item is handed out, and the reader stands behind it.
  fetch_item-Ready :
      (il : LogReader) (x : LogItem) (xs : List LogItem) (bs : List (List LogItem))
      → Ready il x xs bs
      → (r : LogReader) × (fetch_item il ≡ (some (as_fetched x), r)) × Between r xs bs
  fetch_item-Ready il x xs bs h = (
    behind_item il (encode_items xs ++ encode_blocks crc32_calc bs),
    fetch_item-encode_item il x _ h.fits_first h.unread,
    record {
      unread = refl;
      inside = still_inside xs h.inside;
      begun = omega arith;
      fits = h.fits;
      blocks = h.blocks;
    },
  )
    where
      still_inside :
          (ys : List LogItem)
          → Inside il.fetch_id il.fetch_records_amount (x ∷ ys)
          → Inside (behind_item il []).fetch_id il.fetch_records_amount ys
      still_inside [] (k, at, amount) = rw (at, amount) (ground arith)
      still_inside (y ∷ ys) (k, at, amount) =
          (k + 1, rw (at, amount) (ground arith), amount ∙ ap pos (omega arith))

  -- The magic number, where it is still to be read, brings the reader to these items and blocks.
  abbrev pub Starts : LogReader → List LogItem → List (List LogItem) → Type 0
  Starts il xs bs = (r : LogReader) × (fetch_magic il ≡ (some tt, r)) × Between r xs bs

  module _ (can_alloc : ℕ → Bool) (memory : (n : ℕ) → can_alloc n ≡ true) where
    fetch_steps-Ready :
        (il r r' : LogReader) (x : LogItem) (xs : List LogItem) (bs : List (List LogItem))
        → fetch_magic il ≡ (some tt, r)
        → fetch_header r ≡ (some tt, r')
        → Ready r' x xs bs
        → (r'' : LogReader) × (fetch_steps can_alloc il ≡ (some (as_fetched x), r''))
          × Between r'' xs bs
    unfolding alloc_item
    fetch_steps-Ready il r r' x xs bs magic header h =
        let (r'', item, b) = fetch_item-Ready r' x xs bs h in
        (r'', rw magic (rw header (rw (memory 0, memory 1, memory 2) item)), b)

    -- The next fetch notes where the reader stands, and a later one does not look for the magic number.
    noted :
        (il r : LogReader) (ili : FetchedItem) (xs : List LogItem) (bs : List (List LogItem))
        → fetch_steps can_alloc il ≡ (some ili, r)
        → Between r xs bs
        → (index_logger_fetch can_alloc il ≡ (some ili, record r { fetch_pos = r.file_offset }))
          × Starts (record r { fetch_pos = r.file_offset }) xs bs
    unfolding index_logger_fetch fetch_magic
    noted il r ili xs bs e b = (
      ap (λ p. (p.0, record (p.1) { fetch_pos = p.1.file_offset })) e,
      (
        record r { fetch_pos = r.file_offset },
        ground (arith, b.begun),
        record {
          unread = b.unread;
          inside = b.inside;
          begun = b.begun;
          fits = b.fits;
          blocks = b.blocks;
        },
      ),
    )

    fetch_here :
        (il : LogReader) (x : LogItem) (xs : List LogItem) (bs : List (List LogItem))
        → Starts il (x ∷ xs) bs
        → (r : LogReader) × (index_logger_fetch can_alloc il ≡ (some (as_fetched x), r))
          × Starts r xs bs
    fetch_here il x xs bs (r, magic, b) =
        let (header, h) = header_inside r x xs bs b in
        let (r'', e, b'') = fetch_steps-Ready il r r x xs bs magic header h in
        let (fetched, s) = noted il r'' (as_fetched x) xs bs e b'' in
        (record r'' { fetch_pos = r''.file_offset }, fetched, s)

    fetch_next_block :
        (il : LogReader) (x : LogItem) (xs : List LogItem) (bs : List (List LogItem))
        → Starts il [] ((x ∷ xs) ∷ bs)
        → (r : LogReader) × (index_logger_fetch can_alloc il ≡ (some (as_fetched x), r))
          × Starts r xs bs
    fetch_next_block il x xs bs (r, magic, b) =
        let (r', header, h) = header_next r x xs bs b in
        let (r'', e, b'') = fetch_steps-Ready il r r' x xs bs magic header h in
        let (fetched, s) = noted il r'' (as_fetched x) xs bs e b'' in
        (record r'' { fetch_pos = r''.file_offset }, fetched, s)

    fetch_end : (il : LogReader) → Starts il [] [] → (index_logger_fetch can_alloc il).0 ≡ none
    unfolding index_logger_fetch fetch_block_header read_exactly encode_items encode_blocks
    fetch_end il (r, magic, b) = rw magic (rw (header_new r b.inside) (ground (arith, b.unread)))

    -- The loop hands out all items that are left, and ends.
    pub replay_all :
        (n : ℕ) (il : LogReader) (xs : List LogItem) (bs : List (List LogItem))
        → Starts il xs bs
        → length (xs ++ flat bs) < n
        → replay can_alloc n il ≡ (map as_fetched (xs ++ flat bs), true)
    unfolding replay flat
    replay_all zero il xs bs s h = absurd (omega arith)
    replay_all (suc n) il [] [] s h = replay_on-none _ _ (fetch_end il s)
    replay_all (suc n) il [] ([] ∷ bs) (r, _, b) h = absurd (b.blocks.0.some_item refl)
    replay_all (suc n) il [] ((x ∷ xs) ∷ bs) s h =
        let (r, e, s') = fetch_next_block il x xs bs s in
        rw e (ap (λ p. (as_fetched x ∷ p.0, p.1)) (replay_all n r xs bs s' (omega arith)))
    replay_all (suc n) il (x ∷ xs) bs s h =
        let (r, e, s') = fetch_here il x xs bs s in
        rw e (ap (λ p. (as_fetched x ∷ p.0, p.1)) (replay_all n r xs bs s' (omega arith)))
