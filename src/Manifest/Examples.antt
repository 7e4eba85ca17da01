-- ===== src/Manifest/Examples.antt =====
-- manifest.go: a manifest of one table that is replaced, once with success and once not.
use seol.Base.{true, false, ◌≡◌, refl, some, [], ◌∷◌, ◌⊎◌}
use seol.Base.Result.{ok, err, io_error}
use seol.Compaction.{TableMeta}
use seol.Manifest.{
  ManifestState, ManifestStore, Outcome, manifest_version, replace_tables, open_manifest, on_disk,
  open_manifest-replace_tables,
}

abbrev old_table : TableMeta
old_table = record {
  filename = 49 ∷ [];
  level = 0;
  smallest = 1 ∷ [];
  largest = 4 ∷ [];
  size_bytes = 99;
  created_at = 1;
}

abbrev new_table : TableMeta
new_table = record old_table { filename = 50 ∷ []; created_at = 2 }

abbrev old_state : ManifestState
old_state = record { version = manifest_version; tables = old_table ∷ [] }

abbrev both_state : ManifestState
both_state = record { version = manifest_version; tables = new_table ∷ old_table ∷ [] }

abbrev store : ManifestStore
store = record { state = old_state; file = some old_state }

abbrev no_rename : Outcome
no_rename = record { writes = true; renames = false }

open_manifest-replace_tables_example :
    let (result, after) = replace_tables store no_rename (new_table ∷ old_table ∷ []) in
    let reopened = open_manifest (on_disk after.file) no_rename [] in
    (after.state.tables ≡ new_table ∷ old_table ∷ [])
    × (((result ≡ ok tt) × (reopened ≡ ok (record { state = both_state; file = some both_state })))
        ⊎ ((result ≡ err io_error) × (reopened ≡ ok store)))
open_manifest-replace_tables_example =
    open_manifest-replace_tables store no_rename no_rename (new_table ∷ old_table ∷ []) old_state []
      refl refl refl
