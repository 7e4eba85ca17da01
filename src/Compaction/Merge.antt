-- ===== src/Compaction/Merge.antt =====
-- compaction.go: compactionMergeIterator, over iterators of tables that are known by their operations.
use seol.Base.{
  ℕ, suc, Bool, true, false, ◌&&◌, ◌||◌, Option, none, some, List, [], ◌∷◌, ltb, if◌then◌else◌,
}
use seol.Base.Result.{Error, Result, ok, err}
use seol.Base.Order.{bytes_equal, bytes_lt}
use seol.Sstable.Blocks.{Entry}

-- What the merge uses of sstable.Iterator: `current` is Valid with Key and Value, `error` is Err.
pub record Source (I : Type 0) : Type 0 where
  pub current : I → Option Entry
  pub error : I → Option Error
  pub next : I → I

pub record MergeInput (I : Type 0) : Type 0 where
  pub priority : ℕ
  pub iter : I

-- `entry` is `key` and `value`, nil where there is none.
pub record MergeIterator (I : Type 0) : Type 0 where
  pub inputs : List (MergeInput I)
  pub entry : Option Entry
  pub error : Option Error
  pub valid : Bool

module _ {I : Type 0} (source : Source I) where
  -- The choice so far, with the entry at which it stands, against a valid input.
  unfoldable pub better :
      MergeInput I → Entry → Option (MergeInput I × Entry) → MergeInput I × Entry
  better input entry none = (input, entry)
  better input entry (some (chosen, best)) =
      if bytes_lt entry.0 best.0
        || (bytes_equal entry.0 best.0 && ltb input.priority chosen.priority)
      then (input, entry)
      else (chosen, best)

  unfoldable pub choose_loop :
      List (MergeInput I) → Option (MergeInput I × Entry) → Result (Option (MergeInput I × Entry))
  unfolding better
  choose_loop [] chosen = ok chosen
  choose_loop (input ∷ inputs) chosen = elim (source.error input.iter) [
    | some e ↦ err e
    | none ↦ choose_loop inputs (elim (source.current input.iter) [
      | none ↦ chosen
      | some entry ↦ some (better input entry chosen)
    ])
  ]

  -- The inputs that stand at the winner's key are moved on, up to the first that fails.
  unfoldable pub skip_input : MergeInput I → List ℕ → MergeInput I
  skip_input input winner_key = elim (source.current input.iter) [
    | none ↦ input
    | some entry ↦
        if bytes_equal entry.0 winner_key
        then record input { iter = source.next input.iter }
        else input
  ]

  unfoldable pub skip_loop : List (MergeInput I) → List ℕ → List (MergeInput I) × Option Error
  unfolding skip_input
  skip_loop [] winner_key = ([], none)
  skip_loop (input ∷ inputs) winner_key =
      let moved = skip_input input winner_key in
      elim (source.error moved.iter) [
        | some e ↦ (moved ∷ inputs, some e)
        | none ↦ let (rest, e) = skip_loop inputs winner_key in (moved ∷ rest, e)
      ]

  unfoldable pub advance_to :
      MergeIterator I → Result (Option (MergeInput I × Entry)) → MergeIterator I
  unfolding skip_loop
  advance_to it (err e) = record it { error = some e; valid = false }
  advance_to it (ok none) = record it { entry = none; valid = false }
  advance_to it (ok (some (chosen, winner))) =
      let (inputs, e) = skip_loop it.inputs winner.0 in
      elim e [
        | none ↦ record it { inputs = inputs; entry = some winner; valid = true }
        | some x ↦ record it { inputs = inputs; entry = some winner; error = some x; valid = false }
      ]

  unfoldable pub advance : MergeIterator I → MergeIterator I
  unfolding advance_to choose_loop
  advance it = elim it.error [ some e ↦ it | none ↦ advance_to it (choose_loop it.inputs none) ]

  unfoldable pub with_priorities : ℕ → List I → List (MergeInput I)
  with_priorities i [] = []
  with_priorities i (iter ∷ iters) =
      record { priority = i; iter = iter } ∷ with_priorities (suc i) iters

  -- The iterators are rewound. Their order is that of the tables, the first wins.
  unfoldable pub new_compaction_merge_iterator : List I → MergeIterator I
  unfolding advance with_priorities
  new_compaction_merge_iterator iters =
      advance
        (record { inputs = with_priorities 0 iters; entry = none; error = none; valid = false })

  -- `Valid`, with Key and Value.
  unfoldable pub merge_current : MergeIterator I → Option Entry
  merge_current it = elim it.error [ some e ↦ none | none ↦ if it.valid then it.entry else none ]

  unfoldable pub merge_next : MergeIterator I → MergeIterator I
  unfolding advance merge_current
  merge_next it = elim (merge_current it) [ none ↦ it | some entry ↦ advance it ]

  -- The merge iterator is an iterator itself.
  abbrev pub merge_source : Source (MergeIterator I)
  merge_source = record { current = merge_current; error = λ it. it.error; next = merge_next }
