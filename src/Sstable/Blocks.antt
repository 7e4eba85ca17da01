-- ===== src/Sstable/Blocks.antt =====
-- sstable/sstable.go: what is found in a block that appendBlockEntry has built.
use mathlib.Core.Path.{ap₂}
use seol.Base.{
  ℕ, zero, suc, ◌+◌, ◌-◌, ◌%◌, ◌^◌, ◌≤◌, ◌<◌, ◌≡◌, refl, sym, ap, ◌∙◌, arith, List, [], ◌∷◌, ◌++◌,
  append_assoc, append-nil,
}
use seol.Base.{
  le→ltb, lt→ltb, length, take, drop, get_or, All, length-append, take-append, drop-append,
  drop-drop,
}
use seol.Base.Result.{ok}
use seol.Base.Bytes.{put_uint, get_uint, get_uint-put_uint}
use seol.Sstable.{
  entry_meta_size, append_block_entry, CachedDataBlock, entry_offsets_loop, new_cached_data_block,
  entry_from, entry_at,
}

abbrev pub Entry : Type 0
Entry = List ℕ × List ℕ

-- The lengths hold what their fields hold, as in every entry that fits a block.
abbrev pub EntryFits : Entry → Type 0
EntryFits e = (length e.0 < 2 ^ 16) × (length e.1 < 2 ^ 32)

abbrev pub encode_entry : Entry → List ℕ
encode_entry e = put_uint 2 (length e.0) ++ (put_uint 4 (length e.1) ++ (e.0 ++ e.1))

-- The block of the entries, as writeDataBlocks builds it.
unfoldable pub build_block : List ℕ → List Entry → List ℕ
build_block block [] = block
build_block block (e ∷ es) = build_block (append_block_entry block e.0 e.1) es

unfoldable pub encode_entries : List Entry → List ℕ
encode_entries [] = []
encode_entries (e ∷ es) = encode_entry e ++ encode_entries es

pub build_block-encode :
    (block : List ℕ) (es : List Entry) → build_block block es ≡ block ++ encode_entries es
unfolding build_block encode_entries append_block_entry
build_block-encode block [] = sym (append-nil block)
build_block-encode block (e ∷ es) =
    build_block-encode (block ++ encode_entry e) es
    ∙ append_assoc block (encode_entry e) (encode_entries es)

pub length-encode_entry :
    (e : Entry) → length (encode_entry e) ≡ entry_meta_size + (length e.0 + length e.1)
length-encode_entry e = omega (arith, length-append e.0 e.1)

-- Where the entries begin, from `ptr` on.
abbrev pub offsets_from : ℕ → List Entry → List ℕ
offsets_from ptr [] = []
offsets_from ptr (e ∷ es) =
    ptr % 2 ^ 32 ∷ offsets_from (ptr + (entry_meta_size + (length e.0 + length e.1))) es

-- The fields of the entry that stands behind `before`.
module _ (before : List ℕ) (e : Entry) (after : List ℕ) (ptr : ℕ) (at : ptr ≡ length before)
    (f : EntryFits e) where
  block : List ℕ
  block = before ++ (encode_entry e ++ after)

  drop-block : drop ptr block ≡ encode_entry e ++ after
  unfolding block
  drop-block = drop-append ptr before (encode_entry e ++ after) (sym at)

  klen : get_uint 2 (drop ptr block) ≡ length e.0
  klen =
      ap (get_uint 2) drop-block
      ∙ get_uint-put_uint 2 (length e.0) (put_uint 4 (length e.1) ++ ((e.0 ++ e.1) ++ after)) f.0

  drop-further : (n : ℕ) → drop (ptr + n) block ≡ drop n (encode_entry e ++ after)
  drop-further n = sym (drop-drop n ptr block) ∙ ap (drop n) drop-block

  vlen : get_uint 4 (drop (ptr + 2) block) ≡ length e.1
  vlen =
      ap (get_uint 4) (drop-further 2)
      ∙ get_uint-put_uint 4 (length e.1) ((e.0 ++ e.1) ++ after) f.1

  length-block : length block ≡ ptr + (entry_meta_size + (length e.0 + length e.1)) + length after
  unfolding block
  length-block = omega (
    arith,
    length-append before (encode_entry e ++ after),
    length-append (encode_entry e) after,
    length-encode_entry e,
  )

  drop-body : drop (ptr + entry_meta_size) block ≡ e.0 ++ (e.1 ++ after)
  drop-body = drop-further entry_meta_size ∙ append_assoc e.0 e.1 after

  drop-value : drop (ptr + entry_meta_size + length e.0) block ≡ e.1 ++ after
  drop-value =
      sym (drop-drop (length e.0) (ptr + entry_meta_size) block)
      ∙ ap (drop (length e.0)) drop-body
      ∙ drop-append (length e.0) e.0 (e.1 ++ after) refl

  entry_from-block : entry_from block ptr ≡ e
  unfolding entry_from
  entry_from-block =
      let a : ptr + entry_meta_size + length e.0 - (ptr + entry_meta_size) ≡ length e.0 =
        omega arith in
      let b : ptr + entry_meta_size + length e.0 + length e.1 - (ptr + entry_meta_size + length e.0)
          ≡ length e.1 =
        omega arith in
      rw (klen, vlen)
        (rw (a, b)
          (ap₂ (λ (k v : List ℕ). (k, v))
            (ap (take (length e.0)) drop-body ∙ take-append (length e.0) e.0 (e.1 ++ after) refl)
            (ap (take (length e.1)) drop-value ∙ take-append (length e.1) e.1 after refl)))

  entry_offsets_step :
      (fuel : ℕ) (offsets : List ℕ)
      → entry_offsets_loop fuel block (ptr + (entry_meta_size + (length e.0 + length e.1)))
        ≡ ok offsets
      → entry_offsets_loop (suc fuel) block ptr ≡ ok (ptr % 2 ^ 32 ∷ offsets)
  unfolding entry_offsets_loop
  entry_offsets_step fuel offsets q =
      let same : ptr + (entry_meta_size + (length e.0 + length e.1))
          ≡ ptr + entry_meta_size + (length e.0 + length e.1) =
        omega arith in
      rw (klen, vlen)
        (rw
          (
            lt→ltb ptr (length block) (omega (arith, length-block)),
            le→ltb (length block - ptr) entry_meta_size (omega (arith, length-block)),
            le→ltb (length block) (ptr + entry_meta_size + length e.0 + length e.1)
                (omega (arith, length-block)),
            ← same,
            q,
          )
          refl)

entry_offsets_behind :
    (before : List ℕ) (e : Entry) (after : List ℕ) (ptr : ℕ)
    → ptr ≡ length before
    → EntryFits e
    → (fuel : ℕ) (offsets : List ℕ)
    → entry_offsets_loop fuel
        ((before ++ encode_entry e) ++ after)
        (ptr + (entry_meta_size + (length e.0 + length e.1)))
      ≡ ok offsets
    → entry_offsets_loop (suc fuel) (before ++ (encode_entry e ++ after)) ptr
      ≡ ok (ptr % 2 ^ 32 ∷ offsets)
entry_offsets_behind before e after ptr at f fuel offsets q =
    let same = append_assoc before (encode_entry e) after in
    unfold block in
    entry_offsets_step before e after ptr at f fuel offsets (unfold block in rw same at q)

entry_offsets_loop-encode :
    (fuel : ℕ) (before : List ℕ) (es : List Entry) (ptr : ℕ)
    → ptr ≡ length before
    → All EntryFits es
    → length es < fuel
    → entry_offsets_loop fuel (before ++ encode_entries es) ptr ≡ ok (offsets_from ptr es)
unfolding entry_offsets_loop encode_entries
entry_offsets_loop-encode zero before es ptr at f h = absurd (omega arith)
entry_offsets_loop-encode (suc fuel) before [] ptr at f h =
    rw (append-nil, le→ltb ptr (length before) (omega arith)) refl
entry_offsets_loop-encode (suc fuel) before (e ∷ es) ptr at f h =
    let next = ptr + (entry_meta_size + (length e.0 + length e.1)) in
    let longer = before ++ encode_entry e in
    let rest : entry_offsets_loop fuel (longer ++ encode_entries es) next
        ≡ ok (offsets_from next es) =
      entry_offsets_loop-encode fuel longer es next
        (omega (arith, length-append before (encode_entry e), length-encode_entry e)) f.1
        (omega arith) in
    entry_offsets_behind before e (encode_entries es) ptr at f.0 fuel (offsets_from next es) rest

pub length-encode_entries : (es : List Entry) → length es ≤ length (encode_entries es)
unfolding encode_entries
length-encode_entries [] = omega arith
length-encode_entries (e ∷ es) = omega (
  arith,
  length-encode_entries es,
  length-append (encode_entry e) (encode_entries es),
  length-encode_entry e,
)

abbrev pub block_of : List Entry → CachedDataBlock
block_of es = record { bytes = encode_entries es; entry_offsets = offsets_from 0 es }

pub parse-encode :
    (es : List Entry)
    → All EntryFits es
    → new_cached_data_block (encode_entries es) ≡ ok (block_of es)
unfolding new_cached_data_block
parse-encode es f =
    rw
      (entry_offsets_loop-encode (suc (length (encode_entries es))) [] es 0 refl f
        (omega (arith, length-encode_entries es)))
      refl

-- A block that appendBlockEntry built, entry by entry, of entries whose lengths fit their fields is
-- parsed without an error, to the offsets at which the entries begin.
pub parse-build :
    (es : List Entry)
    → All EntryFits es
    → new_cached_data_block (build_block [] es) ≡ ok (block_of es)
parse-build es f = rw (build_block-encode [] es) (parse-encode es f)

abbrev pub no_entry : Entry
no_entry = ([], [])

offset_of :
    (before : List ℕ) (es : List Entry) (ptr i : ℕ)
    → ptr ≡ length before
    → All EntryFits es
    → i < length es
    → length (before ++ encode_entries es) < 2 ^ 32
    → entry_from (before ++ encode_entries es) (get_or (offsets_from ptr es) i 0)
      ≡ get_or es i no_entry
unfolding encode_entries
offset_of before [] ptr i at f h small = absurd (omega arith)
offset_of before (e ∷ es) ptr zero at f h small =
    let fits : ptr % 2 ^ 32 ≡ ptr =
      omega (arith, length-append before (encode_entry e ++ encode_entries es)) in
    rw fits (unfold block in entry_from-block before e (encode_entries es) ptr at f.0)
offset_of before (e ∷ es) ptr (suc i) at f h small =
    let next = ptr + (entry_meta_size + (length e.0 + length e.1)) in
    let longer = before ++ encode_entry e in
    let same = append_assoc before (encode_entry e) (encode_entries es) in
    ap (λ bytes. entry_from bytes (get_or (offsets_from next es) i 0)) (sym same)
    ∙ offset_of longer es next i
        (omega (arith, length-append before (encode_entry e), length-encode_entry e)) f.1
        (omega arith) (rw same small)

pub entry_at-block_of :
    (es : List Entry) (i : ℕ)
    → All EntryFits es
    → length (encode_entries es) < 2 ^ 32
    → i < length es
    → entry_at (block_of es) i ≡ get_or es i no_entry
unfolding entry_at
entry_at-block_of es i f small h = offset_of [] es 0 i refl f h small
