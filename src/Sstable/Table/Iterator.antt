-- ===== src/Sstable/Table/Iterator.antt =====
-- sstable/sstable.go: Iterator. Its table goes with it, since the iterator fills the table's cache.
use seol.Base.{ℕ, zero, suc, ◌-◌, Bool, true, false, ◌&&◌, Option, none, some, List}
use seol.Base.{ltb, if◌then◌else◌, length, get_or}
use seol.Base.Result.{Error, ok, err}
use seol.Sstable.{CachedDataBlock, entry_at}
use seol.Sstable.Index.{no_range}
use seol.Sstable.Table.{Table, get_cached_block}

-- `position` is (rangeIdx, entryIdx), and `none` where both are -1.
pub record Iterator : Type 0 where
  pub table : Table
  pub position : Option (ℕ × ℕ)
  pub block : Option CachedDataBlock
  pub error : Option Error

pub new_iterator : Table → Iterator
new_iterator t = record { table = t; position = none; block = none; error = none }

-- The loop of `loadCurrent`; a round without fuel is past all ranges.
unfoldable pub load_loop : ℕ → List ℕ → Iterator → ℕ → ℕ → Iterator
load_loop zero stale it range_idx entry_idx = record it {
  position = some (range_idx, entry_idx);
  block = none;
}
load_loop (suc fuel) stale it range_idx entry_idx =
    let here = record it { position = some (range_idx, entry_idx) } in
    let next = load_loop fuel stale in
    elim (ltb range_idx (length it.table.ranges)) [
      | false ↦ record here { block = none }
      | true ↦ elim it.block [
        | some block ↦
            if ltb entry_idx (length block.entry_offsets)
            then here
            else next (record it { block = none }) (suc range_idx) 0
        | none ↦
            let (loaded, t) =
              get_cached_block it.table (get_or it.table.ranges range_idx no_range) stale in
            elim loaded [
              | err e ↦ record here { table = t; error = some e; block = none }
              | ok block ↦
                  if ltb entry_idx (length block.entry_offsets)
                  then record here { table = t; block = some block }
                  else next (record it { table = t; block = none }) (suc range_idx) 0
            ]
      ]
    ]

-- Each round but the last passes a range.
unfoldable pub load_current : List ℕ → Iterator → Iterator
unfolding load_loop
load_current stale it = elim it.error [
  | some e ↦ it
  | none ↦ elim it.position [
    | none ↦ record it { block = none }
    | some at ↦ load_loop (suc (length it.table.ranges - at.0)) stale it at.0 at.1
  ]
]

unfoldable pub rewind : List ℕ → Iterator → Iterator
unfolding load_current
rewind stale it =
    load_current stale (record it { error = none; position = some (0, 0); block = none })

unfoldable pub current : Iterator → Option (List ℕ × List ℕ)
current it = elim it.error [
  | some e ↦ none
  | none ↦ elim it.block [
    | none ↦ none
    | some block ↦ elim it.position [
      | none ↦ none
      | some at ↦
          if ltb at.0 (length it.table.ranges) && ltb at.1 (length block.entry_offsets)
          then some (entry_at block at.1)
          else none
    ]
  ]
]

-- `Valid`, which is also that `Key` and `Value` are not nil.
unfoldable pub is_valid : Iterator → Bool
unfolding current
is_valid it = elim (current it) [ some e ↦ true | none ↦ false ]

unfoldable pub next : List ℕ → Iterator → Iterator
unfolding load_current is_valid
next stale it = elim (is_valid it) [
  | false ↦ it
  | true ↦ elim it.position [
    | none ↦ it
    | some at ↦ load_current stale (record it { position = some (at.0, suc at.1) })
  ]
]
