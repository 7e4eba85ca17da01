-- ===== src/Manifest.antt =====
-- manifest.go: the list of the tables, in memory and in the MANIFEST file. The file holds what
-- encoding/json makes of the state, and stands here for the state that it decodes to.
mod Examples
use seol.Base.{
  ℕ, Bool, true, false, not, ◌≡◌, refl, ap, ◌∙◌, arith, Option, none, some, List, [], ◌∷◌,
}
use seol.Base.{◌==◌, if◌then◌else◌, ==_iff, Bool-cases, inl, inr, ◌⊎◌}
use seol.Base.Result.{Error, Result, ok, err, ◌>>=◌, ◌>>◌, require, io_error, unsupported_version}
use seol.Compaction.{TableMeta}

abbrev pub manifest_version : ℕ
manifest_version = 1

pub record ManifestState : Type 0 where
  pub version : ℕ
  pub tables : List TableMeta

-- `file` is what the directory has under the manifest's name; `none` is no file.
pub record ManifestStore : Type 0 where
  pub state : ManifestState
  pub file : Option ManifestState

-- Whether the temporary file is written, and whether it is renamed to the manifest's name.
pub record Outcome : Type 0 where
  pub writes : Bool
  pub renames : Bool

unfoldable pub write : ManifestStore → Outcome → Result (Unit {0}) × ManifestStore
write m o =
    if not o.writes
    then (err io_error, m)
    else if not o.renames
    then (err io_error, m)
    else (ok tt, record m { file = some m.state })

-- The tables in memory change whether the file does or not.
unfoldable pub replace_tables :
    ManifestStore → Outcome → List TableMeta → Result (Unit {0}) × ManifestStore
unfolding write
replace_tables m o tables = write (record m { state = record m.state { tables = tables } }) o

-- What opening each table of the directory gives, the newest name first; all are of level 0.
unfoldable pub metas_of : List (Result TableMeta) → Result (List TableMeta)
metas_of [] = ok []
metas_of (t ∷ ts) = do m ← t; ms ← metas_of ts; ok (record m { level = 0 } ∷ ms)

unfoldable pub rebuild_manifest_state : List (Result TableMeta) → Result ManifestState
unfolding metas_of
rebuild_manifest_state opened = do
  tables ← metas_of opened
  ok (record { version = manifest_version; tables = tables })

-- `none` is that the file does not exist; an error is that it cannot be read or decoded.
unfoldable pub open_manifest :
    Option (Result ManifestState) → Outcome → List (Result TableMeta) → Result ManifestStore
unfolding write rebuild_manifest_state
open_manifest none o opened = do
  state ← rebuild_manifest_state opened
  let (result, store) = write (record { state = state; file = none }) o
  result
  ok store
open_manifest (some found) o opened = do
  state ← found
  require (state.version == manifest_version) unsupported_version
  ok (record { state = state; file = some state })

-- What the file decodes to.
abbrev pub on_disk : Option ManifestState → Option (Result ManifestState)
on_disk none = none
on_disk (some state) = some (ok state)

reopened :
    (again : Outcome) (old : ManifestState) (file : Option ManifestState)
    (opened : List (Result TableMeta))
    → file ≡ some old
    → old.version ≡ manifest_version
    → open_manifest (on_disk file) again opened ≡ ok (record { state = old; file = some old })
unfolding open_manifest
reopened again old file opened f v = rw f (rw ((==_iff old.version manifest_version).1 v) refl)

-- After ReplaceTables, opening the manifest again gives the new tables if it succeeded, and the
-- tables that the file had before if it failed, be it in the writing of the temporary file or in the
-- renaming, although the tables in memory are the new ones in both cases. The versions are the
-- current one.
pub open_manifest-replace_tables :
    (m : ManifestStore) (o again : Outcome) (tables : List TableMeta) (old : ManifestState)
    (opened : List (Result TableMeta))
    → m.state.version ≡ manifest_version
    → m.file ≡ some old
    → old.version ≡ manifest_version
    → let (result, m') = replace_tables m o tables in
      let reopened = open_manifest (on_disk m'.file) again opened in
      (m'.state.tables ≡ tables)
      × (((result ≡ ok tt)
            × (reopened
                ≡ ok (record {
                  state = record { version = manifest_version; tables = tables };
                  file = some (record { version = manifest_version; tables = tables });
                })))
          ⊎ ((result ≡ err io_error) × (reopened ≡ ok (record { state = old; file = some old }))))
unfolding replace_tables open_manifest
open_manifest-replace_tables m o again tables old opened v f w = elim (Bool-cases o.writes) [
  | inr no_write ↦ rw no_write (refl, inr (refl, reopened again old m.file opened f w))
  | inl writes ↦ elim (Bool-cases o.renames) [
    | inr no_rename ↦
        rw (writes, no_rename) (refl, inr (refl, reopened again old m.file opened f w))
    | inl renames ↦
        let new : ManifestState = record { version = m.state.version; tables = tables } in
        rw (writes, renames)
          (
            refl,
            inl (
              refl,
              reopened again new (some new) opened refl v
                  ∙ ap
                      (λ (n : ℕ). ok (record {
                        state = record { version = n; tables = tables };
                        file = some (record { version = n; tables = tables });
                      }))
                      v,
            ),
          )
  ]
]
