-- ===== src/Backup/Protected.antt =====
-- The protected run keeps its artifacts.
use precis_mcp.Common.{
  All, contains, Text, text_beq, text_beq_iff, text_eq, string_eq, nat_eq, ◌==◌, Bool-cases, ℕ, suc,
  ◌≡◌, refl, ap, subst, inl, inr, Bool, true, false, not, ◌||◌, Option, none, some, List, [], ◌∷◌,
  ◌++◌, arith,
}
use precis_mcp.Common.Order.{text_ltb}
use precis_mcp.Common.Maps.{Dict, lookup, insert}
use precis_mcp.Common.Sets.{contains-append, contains-filterb}
use precis_mcp.Backup.{
  Artifact, Manifest, Retention, artifact_of, insert_newest, newest_first, candidate, with_artifact,
  started_or, too_many, too_old, is_protected, list_or_nil, doom, doom_store, doom_all, State,
  delete_artifacts, prune_manifest, prune_doomed, prune_bundles,
}
use precis_mcp.Backup.Manifests.{names_artifact, existing-delete, existing-delete_artifacts}

-- The key is one that pruning may delete: of a manifest, or of a doomed artifact of it.
abbrev touches : Text → Dict (List Text) → Bool
touches k [] = false
touches k ((mkey, artifact_keys) ∷ doomed) =
    (text_beq mkey k || contains artifact_keys k) || touches k doomed

touches-insert :
    (k mkey key : Text) (xs : List Text) (d : Dict (List Text))
    → list_or_nil (lookup mkey d) ≡ xs
    → touches k (insert mkey (xs ++ key ∷ []) d)
      ≡ (touches k d || (text_beq mkey k || text_beq key k))
unfolding lookup insert
touches-insert k mkey key xs [] same = rw (← same) (ground arith)
touches-insert k mkey key xs ((j, old) ∷ d) same = elim (Bool-cases (text_beq j mkey)) [
  | inl e ↦
      let old_is : old ≡ xs = rw e at same in
      rw (e, ← old_is)
        (ground (
          arith,
          contains-append old (key ∷ []) k,
          ap (λ x. text_beq x k) ((text_beq_iff j mkey).0 e),
        ))
  | inr e ↦ rw e (ground (arith, touches-insert k mkey key xs d (rw e at same)))
]

-- A run of this key and manifest may not be doomed for the key k.
abbrev pub IsSpared : Option Text → Text → Text × Manifest → Type 0
IsSpared protect k (mkey, m) =
    (text_beq mkey k ≡ false)
    × (names_artifact k m.artifacts ≡ true → is_protected protect m.run_id ≡ true)

abbrev IsSparedRun : Option Text → Text → Text × (Manifest × Text) → Type 0
IsSparedRun protect k (mkey, (m, key)) =
    (text_beq mkey k ≡ false) × (text_beq key k ≡ true → is_protected protect m.run_id ≡ true)

module _ (protect : Option Text) (k : Text) where
  All-insert_newest :
      (mkey : Text) (m : Manifest) (ms : Dict Manifest)
      → IsSpared protect k (mkey, m)
      → All (IsSpared protect k) ms
      → All (IsSpared protect k) (insert_newest mkey m ms)
  All-insert_newest mkey m [] h all = (h, tt)
  All-insert_newest mkey m ((j, n) ∷ ms) h (g, all) =
      elim (Bool-cases (text_ltb m.run_id n.run_id)) [
        | inl e ↦ rw e (g, All-insert_newest mkey m ms h all)
        | inr e ↦ rw e (h, (g, all))
      ]

  All-newest_first :
      (ms : Dict Manifest)
      → All (IsSpared protect k) ms
      → All (IsSpared protect k) (newest_first ms)
  unfolding newest_first
  All-newest_first [] all = tt
  All-newest_first ((mkey, m) ∷ ms) (h, all) =
      All-insert_newest mkey m (newest_first ms) h (All-newest_first ms all)

  names-artifact_of :
      (store key : Text) (artifacts : List Artifact)
      → artifact_of store artifacts ≡ some key
      → names_artifact key artifacts ≡ true
  unfolding artifact_of
  names-artifact_of store key [] h = cc h
  names-artifact_of store key (a ∷ artifacts) h = elim (Bool-cases (a.store == store)) [
    | inl e ↦
        let same : a.key ≡ key = cc (rw e at h) in ground (arith, (text_beq_iff a.key key).1 same)
    | inr e ↦ ground (arith, names-artifact_of store key artifacts (rw e at h))
  ]

  All-with_artifact :
      (store : Text) (ms : Dict Manifest)
      → All (IsSpared protect k) ms
      → All (IsSparedRun protect k) (with_artifact store ms)
  unfolding with_artifact
  All-with_artifact store [] all = tt
  All-with_artifact store ((mkey, m) ∷ ms) ((apart, spared), all) =
      added (All-with_artifact store ms all) (artifact_of store m.artifacts) refl
    where
      added :
          All (IsSparedRun protect k) (with_artifact store ms)
          → (o : Option Text) → artifact_of store m.artifacts ≡ o
          → All (IsSparedRun protect k) (candidate mkey m o (with_artifact store ms))
      added rest none e = rest
      added rest (some []) e = rest
      added rest (some (c ∷ cs)) e = (
        (
          apart,
          λ same. spared (
              subst (λ x. names_artifact x m.artifacts ≡ true) ((text_beq_iff (c ∷ cs) k).0 same)
                (names-artifact_of store (c ∷ cs) m.artifacts e)),
        ),
        rest,
      )

  touches-doom_store :
      (now clock : ℕ) (r : Retention) (rank : ℕ) (runs : List (Text × (Manifest × Text)))
      (doomed : Dict (List Text))
      → All (IsSparedRun protect k) runs
      → touches k doomed ≡ false
      → touches k (doom_store protect now clock r rank runs doomed) ≡ false
  unfolding doom_store
  touches-doom_store now clock r rank [] doomed all h = h
  touches-doom_store now clock r rank ((mkey, (m, key)) ∷ runs) doomed ((apart, spared), all) h =
      elim (Bool-cases (is_protected protect m.run_id)) [
        | inl e ↦ rw e (touches-doom_store now clock r (suc rank) runs doomed all h)
        | inr e ↦
            let other : text_beq key k ≡ false = ground arith in
            let still : touches k (doom mkey key doomed) ≡ false =
              ground
                (arith, touches-insert k mkey key (list_or_nil (lookup mkey doomed)) doomed refl) in
            elim (Bool-cases
              (too_many r.keep rank || too_old r.days now (started_or clock m.started))) [
                | inl b ↦
                    rw (e, b)
                      (touches-doom_store now clock r (suc rank) runs (doom mkey key doomed) all
                        still)
                | inr b ↦ rw (e, b) (touches-doom_store now clock r (suc rank) runs doomed all h)
              ]
      ]

  touches-doom_all :
      (now clock : ℕ) (retention : Dict Retention) (manifests : Dict Manifest)
      (doomed : Dict (List Text))
      → All (IsSpared protect k) manifests
      → touches k doomed ≡ false
      → touches k (doom_all protect now clock retention manifests doomed) ≡ false
  unfolding doom_all
  touches-doom_all now clock [] manifests doomed all h = h
  touches-doom_all now clock ((store, r) ∷ retention) manifests doomed all h =
      touches-doom_all now clock retention manifests
        (doom_store protect now clock r 0 (with_artifact store (newest_first manifests)) doomed) all
        (touches-doom_store now clock r 0 (with_artifact store (newest_first manifests)) doomed
          (All-with_artifact store (newest_first manifests) (All-newest_first manifests all)) h)

module _ (denied size_fails : Text → Bool) (k : Text) where
  kept-prune_manifest :
      (manifests : Dict Manifest) (mkey : Text) (artifact_keys : List Text) (s : State)
      → text_beq mkey k ≡ false
      → contains artifact_keys k ≡ false
      → contains s.existing k ≡ true
      → contains (prune_manifest denied size_fails manifests mkey artifact_keys s).existing k ≡ true
  unfolding prune_manifest
  kept-prune_manifest manifests mkey artifact_keys s apart other there = ground (
    arith,
    existing-delete denied mkey k (delete_artifacts denied artifact_keys s),
    existing-delete_artifacts denied artifact_keys k s,
    contains-filterb (λ j. not (denied j)) artifact_keys k,
    text_beq_iff mkey k,
    text_beq_iff k mkey,
  )

  kept-prune_doomed :
      (manifests : Dict Manifest) (doomed : Dict (List Text)) (s : State)
      → touches k doomed ≡ false
      → contains s.existing k ≡ true
      → contains (prune_doomed denied size_fails manifests doomed s).existing k ≡ true
  unfolding prune_doomed
  kept-prune_doomed manifests [] s apart there = there
  kept-prune_doomed manifests ((mkey, artifact_keys) ∷ doomed) s apart there =
      kept-prune_doomed manifests doomed
        (prune_manifest denied size_fails manifests mkey artifact_keys s) (ground arith)
        (kept-prune_manifest manifests mkey artifact_keys s (ground arith) (ground arith) there)

  -- Whatever the retention, pruning leaves an object in place that is no manifest, and that among the
  -- manifests only those of the protected run name as an artifact.
  pub prune_bundles-protected :
      (protect : Option Text) (now clock : ℕ) (retention : Dict Retention)
      (manifests : Dict Manifest) (existing : List Text)
      → All (IsSpared protect k) manifests
      → contains existing k ≡ true
      → contains
          (prune_bundles denied size_fails protect now clock retention manifests existing).existing
          k
        ≡ true
  unfolding prune_bundles
  prune_bundles-protected protect now clock retention manifests existing spared there =
      kept-prune_doomed manifests (doom_all protect now clock retention manifests [])
        (record { existing = existing; deleted = []; worm_suppressed = 0 })
        (touches-doom_all protect k now clock retention manifests [] spared refl) there
