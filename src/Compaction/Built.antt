-- ===== src/Compaction/Built.antt =====
-- compaction.go: what compactTables flushes: the merged entries, in groups, less the tombstones that
-- it drops. Of the memtable it says which entries are put into it, and in which order.
use seol.Base.{ℕ, true, ◌≡◌, ◌⊎◌, List, [], ◌∷◌, ◌++◌}
use seol.Base.{length}
use seol.Base.Result.{Error, Result, ok, err}
use seol.Compaction.Building.{CompactionPlan, Build, target_bytes}
use seol.Compaction.Groups.{filled, Pending, Grouped, Fails, Goes}
use seol.Memtable.{Memtable, is_empty}
use seol.Sstable.Blocks.{Entry}
use seol.Compaction.Kept.{keep}

module _ {M T : Type 0} (mem : Memtable M) (flush_fn : ℕ → M → Result T)
    (plan : CompactionPlan) where
  abbrev LoopGoes : ℕ → List T → List Entry → Result (Build M T) → Type 0
  LoopGoes n outputs es r = Goes mem flush_fn (target_bytes plan) n outputs es r

  -- What the rest of the loop comes to, from any state.
  abbrev GoesOn : List Entry → (Build M T → Result (Build M T)) → Type 0
  GoesOn es more =
      (n : ℕ) (p : List Entry) (s : Build M T)
      → length s.outputs ≡ n
      → Pending mem flush_fn (target_bytes plan) p s
      → LoopGoes n s.outputs (p ++ keep plan.drop_tombstones es) (more s)

  abbrev and_then : Result (Build M T) → (Build M T → Result (Build M T)) → Result (Build M T)
  and_then r more = elim r [ err x ↦ err x | ok s ↦ more s ]

  -- The tables are those of the groups, and one of the rest, unless its builder is empty.
  pub record Compacted (es : List Entry) (outputs : List T) : Type 0 where
    pub grouped : Grouped mem flush_fn (target_bytes plan) 0 es
    pub last :
        ((is_empty mem (filled mem flush_fn (target_bytes plan) grouped.rest) ≡ true)
          × (outputs ≡ grouped.tables))
        ⊎ ((t : T) × (flush_fn
                (length grouped.tables)
                (filled mem flush_fn (target_bytes plan) grouped.rest)
              ≡ ok t)
            × (outputs ≡ grouped.tables ++ t ∷ []))

  abbrev pub Ends : List Entry → Result (List T) → Type 0
  Ends es r =
      ((outputs : List T) × (r ≡ ok outputs) × Compacted es outputs)
      ⊎ ((e : Error) × (r ≡ err e) × Fails mem flush_fn (target_bytes plan) 0 es e)

  abbrev outputs_of : Result (Build M T) → Result (List T)
  outputs_of r = elim r [ err e ↦ err e | ok s ↦ ok s.outputs ]
