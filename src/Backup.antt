-- ===== src/Backup.antt =====
-- The retention of backups (precis_mcp/backup/prune.py), at a time `now`; `clock` is what the clock shows for a
-- run whose time does not parse. The destination is the list of the keys that
-- exist; which deletions it denies, and for which keys `size_of` raises although they exist, are arguments.
-- A deletion raises nothing but the denial.
pub mod Manifests
pub mod Protected
use precis_mcp.Common.{
  length, get_elem?, take, drop, replicate, All, filterb, length-append, contains, Text, codes,
  text_beq, text_beq_iff, text_eq, string_eq, nat_eq, ◌==◌, beq_refl, Eq, ltb, leb, nat_beq,
  if◌then◌else◌, ltb→lt, leb→le, le→leb, nat_beq_iff, Bool-cases, Option-cases, ℕ, zero, suc, ◌+◌,
  ◌-◌, ◌*◌, ◌/◌, ◌%◌, ◌≤◌, ◌<◌, min, String, ◌≡◌, refl, sym, ap, subst, ◌∙◌, fun_ext, ◌≢◌, ◌↔◌, ◌⊎◌,
  inl, inr, Bool, true, false, not, ◌&&◌, ◌||◌, Option, none, some, List, [], ◌∷◌, ◌++◌, map,
  append_assoc, append-nil, arith,
}
use precis_mcp.Common.Order.{text_ltb}
use precis_mcp.Common.Maps.{
  Dict, lookup, insert, keys, insert_item, sort_items, lookup-insert, lookup-sort_items,
}

-- `ArtifactEntry`; a key that is `None` or empty is the empty text
pub record Artifact : Type 0 where
  pub store : Text
  pub key : Text

-- `BackupManifest`; `started` is the parsed `created_at` in seconds, `none` where it does not parse
pub record Manifest : Type 0 where
  pub run_id : Text
  pub started : Option ℕ
  pub artifacts : List Artifact

pub record Retention : Type 0 where
  pub keep : Option ℕ
  pub days : Option ℕ

-- `manifest.artifact(store)`: its key; `none` where there is no entry
unfoldable pub artifact_of : Text → List Artifact → Option Text
artifact_of store [] = none
artifact_of store (a ∷ artifacts) =
    if a.store == store then some a.key else artifact_of store artifacts

-- `sorted(..., key=run_id, reverse=True)`, which keeps the order of equals
abbrev pub insert_newest : Text → Manifest → Dict Manifest → Dict Manifest
insert_newest mkey m [] = (mkey, m) ∷ []
insert_newest mkey m ((k, n) ∷ rest) =
    if text_ltb m.run_id n.run_id
    then (k, n) ∷ insert_newest mkey m rest
    else (mkey, m) ∷ (k, n) ∷ rest

unfoldable pub newest_first : Dict Manifest → Dict Manifest
newest_first [] = []
newest_first ((mkey, m) ∷ manifests) = insert_newest mkey m (newest_first manifests)

abbrev pub candidate :
    Text
    → Manifest
    → Option Text
    → List (Text × (Manifest × Text))
    → List (Text × (Manifest × Text))
candidate mkey m none rest = rest
candidate mkey m (some []) rest = rest
candidate mkey m (some (c ∷ cs)) rest = (mkey, (m, c ∷ cs)) ∷ rest

-- `with_artifact`
unfoldable pub with_artifact : Text → Dict Manifest → List (Text × (Manifest × Text))
with_artifact store [] = []
with_artifact store ((mkey, m) ∷ manifests) =
    candidate mkey m (artifact_of store m.artifacts) (with_artifact store manifests)

abbrev pub started_or : ℕ → Option ℕ → ℕ
started_or clock none = clock
started_or clock (some t) = t

abbrev pub too_many : Option ℕ → ℕ → Bool
too_many none rank = false
too_many (some keep) rank = leb keep rank

-- `cutoff is not None and _run_started(m) < cutoff`, where 0 days are no bound
abbrev pub too_old : Option ℕ → ℕ → ℕ → Bool
too_old none now started = false
too_old (some zero) now started = false
too_old (some (suc days)) now started = ltb (started + suc days * 86400) now

-- `run_id == protect_run_id`, where `None` is no run
abbrev pub is_protected : Option Text → Text → Bool
is_protected none run_id = false
is_protected (some protect) run_id = text_beq run_id protect

abbrev pub list_or_nil : Option (List Text) → List Text
list_or_nil none = []
list_or_nil (some xs) = xs

-- `doomed_artifacts.setdefault(mkey, []).append(key)`
abbrev pub doom : Text → Text → Dict (List Text) → Dict (List Text)
doom mkey key doomed = insert mkey (list_or_nil (lookup mkey doomed) ++ key ∷ []) doomed

module _ (protect : Option Text) (now clock : ℕ) where
  -- The loop over the runs of one store, from a rank on.
  unfoldable pub doom_store :
      Retention → ℕ → List (Text × (Manifest × Text)) → Dict (List Text) → Dict (List Text)
  doom_store r rank [] doomed = doomed
  doom_store r rank ((mkey, (m, key)) ∷ runs) doomed = doom_store r (suc rank) runs (
      if not (is_protected protect m.run_id)
        && (too_many r.keep rank || too_old r.days now (started_or clock m.started))
      then doom mkey key doomed
      else doomed)

  -- The loop over the stores.
  unfoldable pub doom_all : Dict Retention → Dict Manifest → Dict (List Text) → Dict (List Text)
  doom_all [] manifests doomed = doomed
  doom_all ((store, r) ∷ retention) manifests doomed =
      doom_all retention manifests
        (doom_store r 0 (with_artifact store (newest_first manifests)) doomed)

-- The keys that exist, with `PruneReport`.
pub record State : Type 0 where
  pub existing : List Text
  pub deleted : List Text
  pub worm_suppressed : ℕ

abbrev pub has_key : Text → Bool
has_key [] = false
has_key (c ∷ cs) = true

-- `_exists`: every exception of `size_of` counts as absence.
abbrev pub exists_at : (Text → Bool) → Text → State → Bool
exists_at size_fails key s = contains s.existing key && not (size_fails key)

-- `if remaining`
unfoldable pub any_remaining : (Text → Bool) → List Artifact → List Text → State → Bool
any_remaining size_fails [] here s = false
any_remaining size_fails (a ∷ artifacts) here s =
    (has_key a.key && (not (contains here a.key) && exists_at size_fails a.key s))
    || any_remaining size_fails artifacts here s

abbrev pub artifacts_of : Option Manifest → List Artifact
artifacts_of none = []
artifacts_of (some m) = m.artifacts

module _ (denied : Text → Bool) where
  abbrev pub delete : Text → State → State
  delete key s =
      if denied key
      then record {
        existing = s.existing;
        deleted = s.deleted;
        worm_suppressed = suc s.worm_suppressed;
      }
      else record {
        existing = filterb (λ k. not (text_beq k key)) s.existing;
        deleted = s.deleted ++ key ∷ [];
        worm_suppressed = s.worm_suppressed;
      }

  -- The loop over the artifacts of one manifest.
  unfoldable pub delete_artifacts : List Text → State → State
  delete_artifacts [] s = s
  delete_artifacts (key ∷ artifact_keys) s = delete_artifacts artifact_keys (delete key s)

  -- `deleted_here`
  abbrev pub deleted_here : List Text → List Text
  deleted_here artifact_keys = filterb (λ k. not (denied k)) artifact_keys

  module _ (size_fails : Text → Bool) where
    abbrev pub finish_manifest : Text → List Artifact → List Text → State → State
    finish_manifest mkey artifacts here s =
        if any_remaining size_fails artifacts here s then s else delete mkey s

    -- One round of the loop over `doomed_artifacts`; its keys are those of manifests.
    unfoldable pub prune_manifest : Dict Manifest → Text → List Text → State → State
    prune_manifest manifests mkey artifact_keys s =
        finish_manifest mkey (artifacts_of (lookup mkey manifests)) (deleted_here artifact_keys)
          (delete_artifacts artifact_keys s)

    unfoldable pub prune_doomed : Dict Manifest → Dict (List Text) → State → State
    prune_doomed manifests [] s = s
    prune_doomed manifests ((mkey, artifact_keys) ∷ doomed) s =
        prune_doomed manifests doomed (prune_manifest manifests mkey artifact_keys s)

    -- `prune_bundles`, from the manifests that were read
    unfoldable pub prune_bundles :
        Option Text → ℕ → ℕ → Dict Retention → Dict Manifest → List Text → State
    prune_bundles protect now clock retention manifests existing =
        prune_doomed manifests (doom_all protect now clock retention manifests [])
          (record { existing = existing; deleted = []; worm_suppressed = 0 })
