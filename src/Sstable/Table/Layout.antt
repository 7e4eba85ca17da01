-- ===== src/Sstable/Table/Layout.antt =====
-- sstable/sstable.go: what writeDataBlocks lays out.
use seol.Base.{
  ℕ, ◌+◌, ◌%◌, ◌^◌, ◌≤◌, ◌<◌, true, false, ◌≡◌, refl, sym, ap, ◌∙◌, arith, List, [], ◌∷◌, ◌++◌,
  append_assoc, append-nil,
}
use seol.Base.{◌==◌, ==_iff, length, get_or, length-append, if_cases}
use seol.Sstable.{entry_meta_size, sstable_block_size, append_block_entry}
use seol.Sstable.Blocks.{
  Entry, encode_entry, encode_entries, no_entry, length-encode_entry, length-encode_entries,
}
use seol.Sstable.Index.{DataRange, no_range}
use seol.Sstable.Lookups.{concat}
use seol.Sstable.Table.Writing.{Writer, begin_range}

abbrev pub encode_blocks : List (List Entry) → List ℕ
encode_blocks [] = []
encode_blocks (es ∷ bs) = encode_entries es ++ encode_blocks bs

-- The range of a block that stands at an offset and fits its size.
pub record Describes (ra : DataRange) (offset : ℕ) (es : List Entry) : Type 0 where
  pub some_entry : 0 < length es
  pub first : ra.first_key ≡ (get_or es 0 no_entry).0
  pub place : ra.offset ≡ offset
  pub size_is : ra.size ≡ length (encode_entries es)
  pub bounded : length (encode_entries es) ≤ sstable_block_size

-- The ranges describe the blocks, one behind the other.
abbrev pub LaysOut : ℕ → List DataRange → List (List Entry) → Type 0
LaysOut offset [] [] = Unit
LaysOut offset [] (es ∷ bs) = true ≡ false
LaysOut offset (ra ∷ ranges) [] = true ≡ false
LaysOut offset (ra ∷ ranges) (es ∷ bs) =
    Describes ra offset es × LaysOut (offset + length (encode_entries es)) ranges bs

LaysOut-snoc :
    (offset at : ℕ) (ranges : List DataRange) (bs : List (List Entry)) (ra : DataRange)
    (es : List Entry)
    → LaysOut offset ranges bs
    → at ≡ offset + length (encode_blocks bs)
    → Describes ra at es
    → LaysOut offset (ranges ++ (ra ∷ [])) (bs ++ (es ∷ []))
LaysOut-snoc offset at [] [] ra es l e d =
    let same : at ≡ offset = omega arith in
    (
      record {
        some_entry = d.some_entry;
        first = d.first;
        place = d.place ∙ same;
        size_is = d.size_is;
        bounded = d.bounded;
      },
      tt,
    )
LaysOut-snoc offset at [] (fs ∷ bs) ra es l e d = absurd (cc l)
LaysOut-snoc offset at (rb ∷ ranges) [] ra es l e d = absurd (cc l)
LaysOut-snoc offset at (rb ∷ ranges) (fs ∷ bs) ra es l e d = (
  l.0,
  LaysOut-snoc (offset + length (encode_entries fs)) at ranges bs ra es l.1
      (omega (arith, length-append (encode_entries fs) (encode_blocks bs))) d,
)

encode_blocks-snoc :
    (bs : List (List Entry)) (es : List Entry)
    → encode_blocks (bs ++ (es ∷ [])) ≡ encode_blocks bs ++ encode_entries es
encode_blocks-snoc [] es = append-nil (encode_entries es)
encode_blocks-snoc (fs ∷ bs) es =
    ap (λ bytes. encode_entries fs ++ bytes) (encode_blocks-snoc bs es)
    ∙ sym (append_assoc (encode_entries fs) (encode_blocks bs) (encode_entries es))

pub concat-snoc :
    (bs : List (List Entry)) (es : List Entry) → concat (bs ++ (es ∷ [])) ≡ concat bs ++ es
concat-snoc [] es = append-nil es
concat-snoc (fs ∷ bs) es =
    ap (λ xs. fs ++ xs) (concat-snoc bs es) ∙ sym (append_assoc fs (concat bs) es)

encode_entries-snoc :
    (es : List Entry) (e : Entry)
    → encode_entries (es ++ (e ∷ [])) ≡ encode_entries es ++ encode_entry e
unfolding encode_entries
encode_entries-snoc [] e = append-nil (encode_entry e)
encode_entries-snoc (f ∷ es) e =
    ap (λ bytes. encode_entry f ++ bytes) (encode_entries-snoc es e)
    ∙ sym (append_assoc (encode_entry f) (encode_entries es) (encode_entry e))

-- A writer in the middle: the blocks that it has flushed, and the entries of the current one.
pub record Holding (w : Writer) (start : ℕ) (bs : List (List Entry)) (cur : List Entry)
    : Type 0 where
  pub lays : LaysOut start w.ranges bs
  pub wrote : w.written ≡ encode_blocks bs
  pub at : w.offset ≡ start + length (encode_blocks bs)
  pub current : w.block ≡ encode_entries cur
  pub fits : length w.block ≤ sstable_block_size
  pub begun :
      0 < length cur
      → (w.current_range.first_key ≡ (get_or cur 0 no_entry).0)
        × (w.current_range.offset ≡ w.offset)

pub no_entries : (cur : List Entry) → length (encode_entries cur) ≡ 0 → cur ≡ []
no_entries [] h = refl
no_entries (e ∷ cur) h = absurd (omega (arith, length-encode_entries (e ∷ cur)))

pub some_entries : (cur : List Entry) → 0 < length (encode_entries cur) → 0 < length cur
unfolding encode_entries
some_entries [] h = absurd (omega arith)
some_entries (e ∷ cur) h = omega arith

module _ (w : Writer) (start : ℕ) (bs : List (List Entry)) (cur : List Entry)
    (v : Holding w start bs cur) where
  -- A flush of a block that is not empty.
  pub flushed-Holding :
      0 < length cur
      → w.offset + length w.block < 2 ^ 64
      → Holding
          (record w {
            block = [];
            current_range = no_range;
            offset = (w.offset + length w.block) % 2 ^ 64;
            ranges = w.ranges ++ (record w.current_range { size = length w.block % 2 ^ 32 } ∷ []);
            written = w.written ++ w.block;
          })
          start
          (bs ++ (cur ∷ []))
          []
  flushed-Holding some_cur small =
      let size = ap length v.current in
      let (first, place) = v.begun some_cur in
      let wrote_all : w.written ++ w.block ≡ encode_blocks (bs ++ (cur ∷ [])) =
        ap (λ bytes. bytes ++ w.block) v.wrote
        ∙ ap (λ bytes. encode_blocks bs ++ bytes) v.current
        ∙ sym (encode_blocks-snoc bs cur) in
      record {
        lays =
            LaysOut-snoc start w.offset w.ranges bs
              (record w.current_range { size = length w.block % 2 ^ 32 }) cur v.lays v.at
              (record {
                some_entry = some_cur;
                first = first;
                place = place;
                size_is = omega (arith, size, v.fits);
                bounded = omega (arith, size, v.fits);
              });
        wrote = wrote_all;
        at = omega (
          arith,
          v.at,
          size,
          ap length (encode_blocks-snoc bs cur),
          length-append (encode_blocks bs) (encode_entries cur),
        );
        current = unfold encode_entries in refl;
        fits = omega arith;
        begun = λ h. absurd (omega arith);
      }

  -- An entry that fits goes to the current block.
  pub added-Holding :
      (key value : List ℕ)
      → length w.block + (entry_meta_size + length key + length value) ≤ sstable_block_size
      → Holding
          (record (begin_range w key) {
            block = append_block_entry (begin_range w key).block key value;
          })
          start
          bs
          (cur ++ ((key, value) ∷ []))
  unfolding begin_range append_block_entry
  added-Holding key value room =
      if_cases
        (λ (b : Writer).
          Holding (record b { block = b.block ++ encode_entry (key, value) }) start bs
            (cur ++ ((key, value) ∷ [])))
        (length w.block == 0) _ _
        (λ e.
          let empty : length w.block ≡ 0 = (==_iff (length w.block) 0).0 e in
          let none_yet : cur ≡ [] = no_entries cur (omega (arith, ap length v.current, empty)) in
          record {
            lays = v.lays;
            wrote = v.wrote;
            at = v.at;
            current = now;
            fits = short;
            begun = λ h. (sym (ap (λ (x : Entry). x.0) (first_added cur none_yet)), refl);
          })
        (λ e.
          let some_cur : 0 < length cur = some_entries cur (positive e) in
          record {
            lays = v.lays;
            wrote = v.wrote;
            at = v.at;
            current = now;
            fits = short;
            begun = λ h. (
              (v.begun some_cur).0 ∙ ap (λ (x : Entry). x.0) (first_kept cur some_cur),
              (v.begun some_cur).1,
            );
          })
    where
      now : w.block ++ encode_entry (key, value) ≡ encode_entries (cur ++ ((key, value) ∷ []))
      now =
          ap (λ bytes. bytes ++ encode_entry (key, value)) v.current
          ∙ sym (encode_entries-snoc cur (key, value))

      short : length (w.block ++ encode_entry (key, value)) ≤ sstable_block_size
      short = omega (
        arith,
        room,
        length-append w.block (encode_entry (key, value)),
        length-encode_entry (key, value),
      )

      positive : (length w.block == 0) ≡ false → 0 < length (encode_entries cur)
      positive e = let same = ap length v.current in ground (arith, e, same)

      first_added :
          (es : List Entry) → es ≡ [] → get_or (es ++ ((key, value) ∷ [])) 0 no_entry ≡ (key, value)
      first_added [] q = refl
      first_added (x ∷ es) q = absurd (cc q)

      first_kept :
          (es : List Entry)
          → 0 < length es
          → get_or es 0 no_entry ≡ get_or (es ++ ((key, value) ∷ [])) 0 no_entry
      first_kept [] q = absurd (omega arith)
      first_kept (x ∷ es) q = refl
