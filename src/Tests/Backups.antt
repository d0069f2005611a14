-- ===== src/Tests/Backups.antt =====
-- Two backups, of which one is kept.
use precis_mcp.Common.{
  All, contains, Text, codes, text_eq, string_eq, nat_eq, ◌≡◌, refl, Bool, true, false, none, some,
  List, [], ◌∷◌,
}
use precis_mcp.Common.Maps.{Dict, lookup, insert}
use precis_mcp.Backup.{
  Manifest, Retention, artifact_of, newest_first, with_artifact, doom_store, doom_all,
  any_remaining, delete_artifacts, prune_manifest, prune_doomed, prune_bundles,
}
use precis_mcp.Backup.Manifests.{prune_bundles-manifest}
use precis_mcp.Backup.Protected.{IsSpared, prune_bundles-protected}

abbrev old_run : Manifest
old_run = record {
  run_id = codes "20260101";
  started = some 0;
  artifacts = record { store = codes "pg"; key = codes "pg/1" } ∷ [];
}

abbrev new_run : Manifest
new_run = record {
  run_id = codes "20260102";
  started = some 86400;
  artifacts = record { store = codes "pg"; key = codes "pg/2" } ∷ [];
}

abbrev manifests : Dict Manifest
manifests = (codes "manifest/1", old_run) ∷ (codes "manifest/2", new_run) ∷ []

abbrev retention : Dict Retention
retention = (codes "pg", record { keep = some 1; days = none }) ∷ []

abbrev objects : List Text
objects = codes "manifest/1" ∷ codes "manifest/2" ∷ codes "pg/1" ∷ codes "pg/2" ∷ []

abbrev never : Text → Bool
never key = false

dooms :
    doom_all none 90000 90000 retention manifests [] ≡ (codes "manifest/1", codes "pg/1" ∷ []) ∷ []
unfolding doom_all doom_store with_artifact newest_first artifact_of lookup insert
dooms = refl

prunes :
    (prune_bundles never never none 90000 90000 retention manifests objects).existing
    ≡ codes "manifest/2" ∷ codes "pg/2" ∷ []
unfolding prune_bundles prune_doomed prune_manifest delete_artifacts any_remaining doom_all
    doom_store with_artifact newest_first artifact_of lookup insert
prunes = refl

-- A manifest with an artifact of another store, which has no retention.
abbrev with_both : Manifest
with_both = record {
  run_id = codes "20260101";
  started = some 0;
  artifacts =
      record { store = codes "pg"; key = codes "pg/1" }
      ∷ record { store = codes "ch"; key = codes "ch/1" }
      ∷ [];
}

abbrev fails : Text → Bool
fails key = true

-- While no size can be read, the manifest goes and its other artifact stays.
orphans :
    (prune_bundles never fails none 90000 90000 retention
      ((codes "manifest/1", with_both) ∷ (codes "manifest/2", new_run) ∷ [])
      (codes "ch/1" ∷ objects)).existing
    ≡ codes "ch/1" ∷ codes "manifest/2" ∷ codes "pg/2" ∷ []
unfolding prune_bundles prune_doomed prune_manifest delete_artifacts any_remaining doom_all
    doom_store with_artifact newest_first artifact_of lookup insert
orphans = refl

finds : lookup (codes "manifest/1") manifests ≡ some old_run
unfolding lookup
finds = refl

prune_bundles-manifest_example :
    contains
      (prune_bundles never never none 90000 90000 retention manifests objects).existing
      (codes "pg/1")
    ≡ false
prune_bundles-manifest_example =
    prune_bundles-manifest never never none 90000 90000 retention manifests objects
      (codes "manifest/1") (codes "pg/1") old_run finds (rw dooms refl) refl (rw prunes refl) refl
      refl refl

spared : All (IsSpared (some (codes "20260101")) (codes "pg/1")) manifests
spared = ((refl, λ h. refl), ((refl, λ h. cc h), tt))

prune_bundles-protected_example :
    contains
      (prune_bundles never never
        (some (codes "20260101"))
        90000
        90000
        retention
        manifests
        objects).existing
      (codes "pg/1")
    ≡ true
prune_bundles-protected_example =
    prune_bundles-protected never never (codes "pg/1") (some (codes "20260101")) 90000 90000
      retention manifests objects spared refl
