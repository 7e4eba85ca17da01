-- ===== src/Compaction/Merging.antt =====
-- compaction.go: the merge iterator over iterators that yield sorted entries yields their merge.
use seol.Base.{ℕ, zero, suc, ◌≤◌, ◌<◌, Bool, true, false, ◌&&◌, ◌≡◌, refl, ap, ◌∙◌, arith, inl, inr}
use seol.Base.{Option, none, some, List, [], ◌∷◌, length, All, Bool-cases, Option-cases, ltb}
use seol.Base.Result.{ok}
use seol.Base.Order.{bytes_equal, bytes_lt}
use seol.Compaction.FirstWins.{total-skip_heads}
use seol.Compaction.MergedLookup.{find-merge, length-merge, merge-Sorted}
use seol.Compaction.Merge.{
  Source, MergeInput, MergeIterator, choose_loop, skip_input, skip_loop, advance_to, advance,
  with_priorities, new_compaction_merge_iterator, merge_current, merge_next, merge_source,
}
use seol.Compaction.Merged.{least, skip_head, skip_heads, total, merge, find_first, AllSorted}
use seol.Sstable.Blocks.{Entry}
use seol.Sstable.BlockLookup.{Sorted, find}

-- The iterator stands at the first of the entries, and Next goes through them without an error.
abbrev pub Yields : {I : Type 0} → Source I → I → List Entry → Type 0
Yields source i [] = (source.error i ≡ none) × (source.current i ≡ none)
Yields source i (e ∷ es) =
    (source.error i ≡ none) × (source.current i ≡ some e) × Yields source (source.next i) es

and_false : (b : Bool) → (b && false) ≡ false
and_false true = refl
and_false false = refl

not_before : (n m : ℕ) → m < n → ltb n m ≡ false
not_before n m h = ground arith

module _ {I : Type 0} (source : Source I) where
  -- Each input yields its list.
  abbrev pub AllYield : List (MergeInput I) → List (List Entry) → Type 0
  AllYield [] [] = Unit
  AllYield [] (es ∷ ess) = ⊥
  AllYield (input ∷ inputs) [] = ⊥
  AllYield (input ∷ inputs) (es ∷ ess) = Yields source input.iter es × AllYield inputs ess

  -- The priorities ascend, so that the first of equal keys is never replaced.
  abbrev Ordered : List (MergeInput I) → Type 0
  Ordered [] = Unit
  Ordered (input ∷ inputs) =
      All (λ (other : MergeInput I). input.priority < other.priority) inputs × Ordered inputs

  abbrev ChosenFirst : Option (MergeInput I × Entry) → List (MergeInput I) → Type 0
  ChosenFirst none inputs = Unit
  ChosenFirst (some (chosen, best)) inputs =
      All (λ (other : MergeInput I). chosen.priority < other.priority) inputs

  abbrev entry_of : Option (MergeInput I × Entry) → Option Entry
  entry_of none = none
  entry_of (some (chosen, best)) = some best

  choose_loop-least :
      (inputs : List (MergeInput I)) (ess : List (List Entry))
      (chosen : Option (MergeInput I × Entry))
      → AllYield inputs ess
      → Ordered inputs
      → ChosenFirst chosen inputs
      → (r : Option (MergeInput I × Entry)) × (choose_loop source inputs chosen ≡ ok r)
        × (entry_of r ≡ least (entry_of chosen) ess)
  unfolding choose_loop least
  choose_loop-least [] [] chosen y o f = (chosen, refl, refl)
  choose_loop-least [] (es ∷ ess) chosen y o f = absurd y
  choose_loop-least (input ∷ inputs) [] chosen y o f = absurd y
  choose_loop-least (input ∷ inputs) ([] ∷ ess) none y o f =
      rw (y.0.0, choose_loop) (rw y.0.1 (choose_loop-least inputs ess none y.1 o.1 tt))
  choose_loop-least (input ∷ inputs) ([] ∷ ess) (some (c, best)) y o f =
      rw (y.0.0, choose_loop) (rw y.0.1 (choose_loop-least inputs ess (some (c, best)) y.1 o.1 f.1))
  choose_loop-least (input ∷ inputs) ((e ∷ es) ∷ ess) none y o f =
      rw (y.0.0, choose_loop)
        (rw y.0.1 (choose_loop-least inputs ess (some (input, e)) y.1 o.1 o.0))
  choose_loop-least (input ∷ inputs) ((e ∷ es) ∷ ess) (some (c, best)) y o f =
      elim (Bool-cases (bytes_lt e.0 best.0)) [
        | inl less ↦
            rw (y.0.0, choose_loop)
              (rw (y.0.1, less) (choose_loop-least inputs ess (some (input, e)) y.1 o.1 o.0))
        | inr stays ↦
            rw (y.0.0, choose_loop)
              (rw (y.0.1, stays, not_before input.priority c.priority f.0)
                (rw (and_false (bytes_equal e.0 best.0))
                  (choose_loop-least inputs ess (some (c, best)) y.1 o.1 f.1)))
      ]

  skip_input-Yields :
      (input : MergeInput I) (es : List Entry) (key : List ℕ)
      → Yields source input.iter es
      → Yields source (skip_input source input key).iter (skip_head key es)
        × ((skip_input source input key).priority ≡ input.priority)
  unfolding skip_input skip_head
  skip_input-Yields input [] key y = rw (y.1, skip_input) (y, refl)
  skip_input-Yields input (e ∷ es) key y = elim (Bool-cases (bytes_equal e.0 key)) [
    | inl same ↦ rw (y.1, skip_input) (rw same (y.2, refl))
    | inr stays ↦ rw (y.1, skip_input) (rw stays (y, refl))
  ]

  no_error : (i : I) (es : List Entry) → Yields source i es → source.error i ≡ none
  no_error i [] y = y.0
  no_error i (e ∷ es) y = y.0

  -- All inputs are moved on past the key, and none fails.
  skip_loop-Yields :
      (inputs : List (MergeInput I)) (ess : List (List Entry)) (key : List ℕ)
      → AllYield inputs ess
      → Ordered inputs
      → (moved : List (MergeInput I)) × (skip_loop source inputs key ≡ (moved, none))
        × AllYield moved (skip_heads key ess)
        × Ordered moved
        × ((p : ℕ)
            → All (λ (input : MergeInput I). p < input.priority) inputs
            → All (λ (input : MergeInput I). p < input.priority) moved)
  unfolding skip_loop skip_heads
  skip_loop-Yields [] [] key y o = ([], refl, tt, tt, λ p h. h)
  skip_loop-Yields [] (es ∷ ess) key y o = absurd y
  skip_loop-Yields (input ∷ inputs) [] key y o = absurd y
  skip_loop-Yields (input ∷ inputs) (es ∷ ess) key y o =
      let (yields, same) = skip_input-Yields input es key y.0 in
      let first = skip_input source input key in
      let (moved, q, ys, os, keeps) = skip_loop-Yields inputs ess key y.1 o.1 in
      (
        first ∷ moved,
        rw (no_error first.iter (skip_head key es) yields, skip_loop) (rw q refl),
        (yields, ys),
        (rw same (keeps input.priority o.0), os),
        λ p h. (rw same h.0, keeps p h.1),
      )

  entry_none : (r : Option (MergeInput I × Entry)) → entry_of r ≡ none → r ≡ none
  entry_none none e = refl
  entry_none (some (c, w)) e = absurd (cc e)

  entry_some :
      (r : Option (MergeInput I × Entry)) (w : Entry)
      → entry_of r ≡ some w
      → (c : MergeInput I) × (r ≡ some (c, w))
  entry_some none w e = absurd (cc e)
  entry_some (some (c, x)) w e = (c, cc e)

  -- Without a choice the iterator is at its end.
  advance_end :
      (it : MergeIterator I)
      → it.error ≡ none
      → choose_loop source it.inputs none ≡ ok none
      → (advance source it).error ≡ none × (merge_current source (advance source it) ≡ none)
  unfolding advance merge_current
  advance_end it e q = rw (e, advance) (rw q (e, rw (e, merge_current) refl))

  advance_on :
      (it : MergeIterator I) (c : MergeInput I) (w : Entry) (moved : List (MergeInput I))
      → it.error ≡ none
      → choose_loop source it.inputs none ≡ ok (some (c, w))
      → skip_loop source it.inputs w.0 ≡ (moved, none)
      → ((advance source it).error ≡ none)
        × (merge_current source (advance source it) ≡ some w)
        × ((advance source it).inputs ≡ moved)
  unfolding advance merge_current
  advance_on it c w moved e q s =
      rw (e, advance) (rw q (rw (s, advance_to) (e, rw (e, merge_current) refl, ap (λ x. x.0) s)))

  next_of_valid :
      (it : MergeIterator I) (w : Entry)
      → merge_current source it ≡ some w
      → merge_next source it ≡ advance source it
  unfolding merge_next
  next_of_valid it w e = rw (e, merge_next) refl

  advance-Yields :
      (fuel : ℕ) (it : MergeIterator I) (ess : List (List Entry))
      → total ess < fuel
      → AllYield it.inputs ess
      → Ordered it.inputs
      → it.error ≡ none
      → Yields (merge_source source) (advance source it) (merge fuel ess)
  unfolding merge
  advance-Yields zero it ess h y o e = absurd (omega arith)
  advance-Yields (suc fuel) it ess h y o e =
      let (r, chosen, is_least) = choose_loop-least it.inputs ess none y o tt in
      elim (Option-cases (least none ess)) [
        | inl q ↦ rw (q, merge) (advance_end it e (chosen ∙ ap ok (entry_none r (is_least ∙ q))))
        | inr (w, q) ↦
            let (c, is_chosen) = entry_some r w (is_least ∙ q) in
            let (moved, skipped, ys, os, keeps) = skip_loop-Yields it.inputs ess w.0 y o in
            let (no_err, at, left) = advance_on it c w moved e (chosen ∙ ap ok is_chosen) skipped in
            let fewer : total (skip_heads w.0 ess) < total ess =
              elim (total-skip_heads none ess w q) [ inl never ↦ absurd (cc never) | inr h ↦ h ] in
            rw (q, merge)
              (
                no_err,
                at,
                rw (next_of_valid (advance source it) w at) (
                    advance-Yields fuel (advance source it) (skip_heads w.0 ess)
                      (omega (arith, fewer)) (rw left ys) (rw left os) no_err),
              )
      ]

  with_priorities-above :
      (p i : ℕ) (iters : List I)
      → p < i
      → All (λ (input : MergeInput I). p < input.priority) (with_priorities source i iters)
  unfolding with_priorities
  with_priorities-above p i [] h = tt
  with_priorities-above p i (iter ∷ iters) h =
      (h, with_priorities-above p (suc i) iters (omega arith))

  with_priorities-Ordered : (i : ℕ) (iters : List I) → Ordered (with_priorities source i iters)
  unfolding with_priorities
  with_priorities-Ordered i [] = tt
  with_priorities-Ordered i (iter ∷ iters) =
      (with_priorities-above i (suc i) iters (omega arith), with_priorities-Ordered (suc i) iters)

  abbrev pub EachYields : List I → List (List Entry) → Type 0
  EachYields [] [] = Unit
  EachYields [] (es ∷ ess) = ⊥
  EachYields (iter ∷ iters) [] = ⊥
  EachYields (iter ∷ iters) (es ∷ ess) = Yields source iter es × EachYields iters ess

  with_priorities-AllYield :
      (i : ℕ) (iters : List I) (ess : List (List Entry))
      → EachYields iters ess
      → AllYield (with_priorities source i iters) ess
  unfolding with_priorities
  with_priorities-AllYield i [] [] y = tt
  with_priorities-AllYield i [] (es ∷ ess) y = absurd y
  with_priorities-AllYield i (iter ∷ iters) [] y = absurd y
  with_priorities-AllYield i (iter ∷ iters) (es ∷ ess) y =
      (y.0, with_priorities-AllYield (suc i) iters ess y.1)

  -- The merge iterator over iterators that yield sorted lists of entries yields one sorted list,
  -- without an error, in no more steps than there are entries, and what that list gives to a key is
  -- what the first of the lists that has the key gives to it: of equal keys the newest table's
  -- counts, and only that is yielded.
  pub merge_iterator-Yields :
      (iters : List I) (ess : List (List Entry))
      → EachYields iters ess
      → AllSorted ess
      → (merged : List Entry) × Yields
          (merge_source source)
          (new_compaction_merge_iterator source iters)
          merged
        × Sorted merged
        × (length merged ≤ total ess)
        × ((key : List ℕ) → find merged key ≡ find_first ess key)
  unfolding new_compaction_merge_iterator
  merge_iterator-Yields iters ess y s =
      let fuel = suc (total ess) in
      (
        merge fuel ess,
        advance-Yields fuel
            (record {
              inputs = with_priorities source 0 iters;
              entry = none;
              error = none;
              valid = false;
            })
            ess (omega arith) (with_priorities-AllYield 0 iters ess y)
            (with_priorities-Ordered 0 iters) refl,
        merge-Sorted fuel ess s,
        length-merge fuel ess (omega arith),
        λ key. find-merge fuel ess key s (omega arith),
      )
