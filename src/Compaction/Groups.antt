-- ===== src/Compaction/Groups.antt =====
-- compaction.go: the groups of entries that compactTables puts into its builders, and the flushes of
-- them.
use seol.Base.{
  ℕ, suc, ◌+◌, ◌<◌, ◌≤◌, true, false, ◌≡◌, refl, sym, ap, ◌∙◌, arith, ◌⊎◌, inl, inr, List, [], ◌∷◌,
  ◌++◌, append_assoc,
}
use seol.Base.{length, leb, All}
use seol.Base.Result.{Error, Result, ok, err}
use seol.Compaction.Building.{CompactionPlan, Build, target_bytes, flush_builder, put_entry}
use seol.Memtable.{Memtable, is_empty, memtable_arena_size}
use seol.Sstable.Blocks.{Entry}

abbrev pub bytes_of : List Entry → ℕ
bytes_of [] = 0
bytes_of (e ∷ es) = (length e.0 + length e.1) + bytes_of es

abbrev pub concat_groups : List (List Entry) → List Entry
concat_groups [] = []
concat_groups (g ∷ gs) = g ++ concat_groups gs

bytes_of-append : (es fs : List Entry) → bytes_of (es ++ fs) ≡ bytes_of es + bytes_of fs
bytes_of-append [] fs = omega arith
bytes_of-append (e ∷ es) fs = omega (arith, bytes_of-append es fs)

pub target_bytes-positive : (plan : CompactionPlan) → 0 < target_bytes plan
unfolding target_bytes
target_bytes-positive plan = ground arith

pub leb-true : (n m : ℕ) → leb n m ≡ true → n ≤ m
leb-true n m h = ground arith

pub leb-false : (n m : ℕ) → leb n m ≡ false → m < n
leb-false n m h = ground arith

module _ {M T : Type 0} (mem : Memtable M) (flush_fn : ℕ → M → Result T) (target : ℕ) where
  -- A new builder with the entries put into it, in order.
  abbrev pub put_from : M → List Entry → M
  put_from m [] = m
  put_from m (e ∷ es) = put_from (mem.put m e.0 e.1) es

  abbrev pub filled : List Entry → M
  filled es = put_from (mem.new (memtable_arena_size target)) es

  pub put_from-append :
      (m : M) (es : List Entry) (e : Entry)
      → put_from m (es ++ e ∷ []) ≡ mem.put (put_from m es) e.0 e.1
  put_from-append m [] e = refl
  put_from-append m (x ∷ es) e = put_from-append (mem.put m x.0 x.1) es e

  -- The calls of flushFn, from the n-th on, for builders of these groups, give these tables.
  abbrev pub Flushed : ℕ → List (List Entry) → List T → Type 0
  Flushed n [] [] = Unit
  Flushed n [] (t ∷ ts) = ⊥
  Flushed n (g ∷ gs) [] = ⊥
  Flushed n (g ∷ gs) (t ∷ ts) = (flush_fn n (filled g) ≡ ok t) × Flushed (suc n) gs ts

  -- These entries do not lead to a flush.
  abbrev pub StaysOpen : List Entry → Type 0
  StaysOpen es = (bytes_of es < target) ⊎ (is_empty mem (filled es) ≡ true)

  -- The last entry of a group is the one that fills it.
  abbrev pub IsFull : List Entry → Type 0
  IsFull g =
      (before : List Entry) × (e : Entry) × (g ≡ before ++ e ∷ [])
      × StaysOpen before
      × (target ≤ bytes_of g)
      × (is_empty mem (filled g) ≡ false)

  -- The state of the loop: the builder has the entries since the last flush.
  pub record Pending (pending : List Entry) (s : Build M T) : Type 0 where
    pub builder : s.builder ≡ filled pending
    pub bytes : s.builder_bytes ≡ bytes_of pending
    pub open_yet : StaysOpen pending

  -- From the n-th flush on, the groups are flushed, and the rest of the entries is in the builder.
  pub record Grouped (n : ℕ) (es : List Entry) : Type 0 where
    pub groups : List (List Entry)
    pub tables : List T
    pub rest : List Entry
    pub all : concat_groups groups ++ rest ≡ es
    pub full : All IsFull groups
    pub flushed : Flushed n groups tables
    pub open_yet : StaysOpen rest

  -- The flushes from the n-th on succeed up to one, whose error it is.
  pub record Fails (n : ℕ) (es : List Entry) (e : Error) : Type 0 where
    pub groups : List (List Entry)
    pub tables : List T
    pub group : List Entry
    pub rest : List Entry
    pub all : concat_groups groups ++ (group ++ rest) ≡ es
    pub flushed : Flushed n groups tables
    pub failed : flush_fn (n + length tables) (filled group) ≡ err e

  -- A group in front.
  group-Grouped :
      (n : ℕ) (g : List Entry) (t : T) (es : List Entry)
      → IsFull g
      → flush_fn n (filled g) ≡ ok t
      → Grouped (suc n) es
      → Grouped n (g ++ es)
  group-Grouped n g t es full made h = record {
    groups = g ∷ h.groups;
    tables = t ∷ h.tables;
    rest = h.rest;
    all = append_assoc g (concat_groups h.groups) h.rest ∙ ap (λ (x : List Entry). g ++ x) h.all;
    full = (full, h.full);
    flushed = (made, h.flushed);
    open_yet = h.open_yet;
  }

  group-Fails :
      (n : ℕ) (g : List Entry) (t : T) (es : List Entry) (e : Error)
      → flush_fn n (filled g) ≡ ok t
      → Fails (suc n) es e
      → Fails n (g ++ es) e
  group-Fails n g t es e made h = record {
    groups = g ∷ h.groups;
    tables = t ∷ h.tables;
    group = h.group;
    rest = h.rest;
    all =
        append_assoc g (concat_groups h.groups) (h.group ++ h.rest)
        ∙ ap (λ (x : List Entry). g ++ x) h.all;
    flushed = (made, h.flushed);
    failed =
        ap (λ k. flush_fn k (filled h.group))
          (let q : n + suc (length h.tables) ≡ suc n + length h.tables = omega arith in q)
        ∙ h.failed;
  }

  -- What a state comes to, that has flushed `n` groups.
  abbrev pub Goes : ℕ → List T → List Entry → Result (Build M T) → Type 0
  Goes n outputs es r =
      ((s : Build M T) × (r ≡ ok s)
        × (g : Grouped n es) × (s.outputs ≡ outputs ++ g.tables)
        × Pending g.rest s)
      ⊎ ((e : Error) × (r ≡ err e) × Fails n es e)

  pub put_entry-builder :
      (p : List Entry) (e : Entry) (s : Build M T)
      → Pending p s
      → (put_entry mem flush_fn e s).builder ≡ filled (p ++ e ∷ [])
  unfolding put_entry
  put_entry-builder p e s h =
      ap (λ (m : M). mem.put m e.0 e.1) h.builder
      ∙ sym (put_from-append (mem.new (memtable_arena_size target)) p e)

  pub put_entry-bytes :
      (p : List Entry) (e : Entry) (s : Build M T)
      → Pending p s
      → (put_entry mem flush_fn e s).builder_bytes ≡ bytes_of (p ++ e ∷ [])
  unfolding put_entry
  put_entry-bytes p e s h = omega (arith, h.bytes, bytes_of-append p (e ∷ []))

  pub unflushed :
      (s : Build M T) → is_empty mem s.builder ≡ true → flush_builder mem flush_fn target s ≡ ok s
  unfolding flush_builder
  unflushed s h = rw h refl

  pub put_entry-Pending :
      (p : List Entry) (e : Entry) (s : Build M T)
      → Pending p s
      → StaysOpen (p ++ e ∷ [])
      → Pending (p ++ e ∷ []) (put_entry mem flush_fn e s)
  put_entry-Pending p e s h open_yet = record {
    builder = put_entry-builder p e s h;
    bytes = put_entry-bytes p e s h;
    open_yet = open_yet;
  }

  -- The builder is flushed and gives a table.
  pub flushed-Goes :
      (n : ℕ) (outputs : List T) (g : List Entry) (t : T) (es : List Entry) (r : Result (Build M T))
      → IsFull g
      → flush_fn n (filled g) ≡ ok t
      → Goes (suc n) (outputs ++ t ∷ []) es r
      → Goes n outputs (g ++ es) r
  unfolding group-Grouped
  flushed-Goes n outputs g t es r full made (inl (s, q, h, same, p)) =
      inl
        (s, q, group-Grouped n g t es full made h, same ∙ append_assoc outputs (t ∷ []) h.tables, p)
  flushed-Goes n outputs g t es r full made (inr (e, q, h)) =
      inr (e, q, group-Fails n g t es e made h)

  pub Fails-here :
      (n : ℕ) (g es : List Entry) (e : Error) → flush_fn n (filled g) ≡ err e → Fails n (g ++ es) e
  Fails-here n g es e failed = record {
    groups = [];
    tables = [];
    group = g;
    rest = es;
    all = refl;
    flushed = tt;
    failed = ap (λ k. flush_fn k (filled g)) (let q : n + 0 ≡ n = omega arith in q) ∙ failed;
  }
