-- ===== src/Backup/Manifests.antt =====
-- A manifest is deleted only after its artifacts.
use precis_mcp.Common.{
  contains, Text, text_beq, text_beq_iff, text_eq, string_eq, nat_eq, Bool-cases, ℕ, ◌≡◌, subst,
  inl, inr, Bool, true, false, not, ◌&&◌, ◌||◌, Option, some, List, [], ◌∷◌, arith,
}
use precis_mcp.Common.Maps.{Dict, lookup}
use precis_mcp.Common.Sets.{contains-filterb}
use precis_mcp.Backup.{
  Artifact, Manifest, Retention, doom_all, State, has_key, any_remaining, artifacts_of, delete,
  delete_artifacts, deleted_here, prune_manifest, prune_doomed, prune_bundles,
}

-- The key names an artifact.
abbrev pub names_artifact : Text → List Artifact → Bool
names_artifact key [] = false
names_artifact key (a ∷ artifacts) = text_beq a.key key || names_artifact key artifacts

-- The key is among the doomed artifacts.
abbrev pub is_doomed : Text → Dict (List Text) → Bool
is_doomed key [] = false
is_doomed key ((mkey, artifact_keys) ∷ doomed) = contains artifact_keys key || is_doomed key doomed

remaining_none :
    (size_fails : Text → Bool) (artifacts : List Artifact) (here : List Text) (s : State) (k : Text)
    → any_remaining size_fails artifacts here s ≡ false
    → names_artifact k artifacts ≡ true
    → has_key k ≡ true
    → size_fails k ≡ false
    → (contains here k || not (contains s.existing k)) ≡ true
unfolding any_remaining
remaining_none size_fails [] here s k h named key sound = cc named
remaining_none size_fails (a ∷ artifacts) here s k h named key sound =
    elim (Bool-cases (text_beq a.key k)) [
      | inl e ↦
          let same : a.key ≡ k = (text_beq_iff a.key k).0 e in
          let first : (has_key a.key
                && (not (contains here a.key)
                    && (contains s.existing a.key && not (size_fails a.key))))
              ≡ false =
            ground arith in
          subst
            (λ x.
              has_key x ≡ true
              → size_fails x ≡ false
              → (contains here x || not (contains s.existing x)) ≡ true)
            same (λ nonempty fine. ground arith) key sound
      | inr e ↦
          remaining_none size_fails artifacts here s k (ground arith) (rw e at named) key sound
    ]

module _ (denied : Text → Bool) where
  pub existing-delete :
      (key k : Text) (s : State)
      → contains (delete denied key s).existing k
        ≡ (contains s.existing k && (denied key || not (text_beq k key)))
  existing-delete key k s =
      ground (arith, contains-filterb (λ j. not (text_beq j key)) s.existing k)

  pub existing-delete_artifacts :
      (artifact_keys : List Text) (k : Text) (s : State)
      → contains (delete_artifacts denied artifact_keys s).existing k
        ≡ (contains s.existing k && not (contains (deleted_here denied artifact_keys) k))
  unfolding delete_artifacts
  existing-delete_artifacts [] k s = ground arith
  existing-delete_artifacts (key ∷ artifact_keys) k s = ground (
    arith,
    existing-delete_artifacts artifact_keys k (delete denied key s),
    existing-delete key k s,
    text_beq_iff k key,
    text_beq_iff key k,
  )

module _ (denied size_fails : Text → Bool) where
  existing-prune_manifest :
      (manifests : Dict Manifest) (mkey : Text) (artifact_keys : List Text) (k : Text) (s : State)
      → contains s.existing k ≡ false
      → contains (prune_manifest denied size_fails manifests mkey artifact_keys s).existing k
        ≡ false
  unfolding prune_manifest
  existing-prune_manifest manifests mkey artifact_keys k s h = ground (
    arith,
    existing-delete denied mkey k (delete_artifacts denied artifact_keys s),
    existing-delete_artifacts denied artifact_keys k s,
  )

  -- Nothing comes to exist.
  existing-prune_doomed :
      (manifests : Dict Manifest) (doomed : Dict (List Text)) (k : Text) (s : State)
      → contains s.existing k ≡ false
      → contains (prune_doomed denied size_fails manifests doomed s).existing k ≡ false
  unfolding prune_doomed
  existing-prune_doomed manifests [] k s h = h
  existing-prune_doomed manifests ((mkey, artifact_keys) ∷ doomed) k s h =
      existing-prune_doomed manifests doomed k
        (prune_manifest denied size_fails manifests mkey artifact_keys s)
        (existing-prune_manifest manifests mkey artifact_keys k s h)

  -- A round that deletes the key of a manifest, which names no artifact, was the round of that manifest,
  -- and leaves none of its artifacts.
  round_lem :
      (manifests : Dict Manifest) (mkey key k : Text) (artifact_keys : List Text) (m : Manifest)
      (s : State)
      → lookup key manifests ≡ some m
      → contains artifact_keys key ≡ false
      → contains s.existing key ≡ true
      → contains (prune_manifest denied size_fails manifests mkey artifact_keys s).existing key
        ≡ false
      → names_artifact k m.artifacts ≡ true
      → has_key k ≡ true
      → size_fails k ≡ false
      → contains (prune_manifest denied size_fails manifests mkey artifact_keys s).existing k
        ≡ false
  unfolding prune_manifest
  round_lem manifests mkey key k artifact_keys m s found not_doomed there gone named nonempty
        sound =
      let after = delete_artifacts denied artifact_keys s in
      let kept : contains after.existing key ≡ true = ground (
        arith,
        existing-delete_artifacts denied artifact_keys key s,
        contains-filterb (λ j. not (denied j)) artifact_keys key,
      ) in
      elim (Bool-cases (
        any_remaining size_fails (artifacts_of (lookup mkey manifests))
          (deleted_here denied artifact_keys) after)) [
            | inl e ↦ absurd (cc (rw e at gone, kept))
            | inr e ↦
                let dropped : contains (delete denied mkey after).existing key ≡ false =
                  rw e at gone in
                let same : mkey ≡ key =
                  ground (arith, existing-delete denied mkey key after, text_beq_iff key mkey) in
                let none_left : any_remaining size_fails m.artifacts
                      (deleted_here denied artifact_keys) after
                    ≡ false =
                  rw (found) at (
                    subst
                      (λ x.
                        any_remaining size_fails (artifacts_of (lookup x manifests))
                          (deleted_here denied artifact_keys) after
                        ≡ false)
                      same e) in
                let absent : contains after.existing k ≡ false = ground (
                  arith,
                  remaining_none size_fails m.artifacts (deleted_here denied artifact_keys) after k
                      none_left named nonempty sound,
                  existing-delete_artifacts denied artifact_keys k s,
                ) in
                rw e (ground (arith, existing-delete denied mkey k after))
          ]

  prune_doomed_lem :
      (manifests : Dict Manifest) (doomed : Dict (List Text)) (key k : Text) (m : Manifest)
      (s : State)
      → lookup key manifests ≡ some m
      → is_doomed key doomed ≡ false
      → contains s.existing key ≡ true
      → contains (prune_doomed denied size_fails manifests doomed s).existing key ≡ false
      → names_artifact k m.artifacts ≡ true
      → has_key k ≡ true
      → size_fails k ≡ false
      → contains (prune_doomed denied size_fails manifests doomed s).existing k ≡ false
  unfolding prune_doomed
  prune_doomed_lem manifests [] key k m s found not_doomed there gone named nonempty sound =
      absurd (cc (there, gone))
  prune_doomed_lem manifests ((mkey, artifact_keys) ∷ doomed) key k m s found not_doomed there gone
        named nonempty sound =
      let next = prune_manifest denied size_fails manifests mkey artifact_keys s in
      elim (Bool-cases (contains next.existing key)) [
        | inl e ↦
            prune_doomed_lem manifests doomed key k m next found (ground arith) e gone named
              nonempty sound
        | inr e ↦ existing-prune_doomed manifests doomed k next (
            round_lem manifests mkey key k artifact_keys m s found (ground arith) there e named
              nonempty sound)
      ]

  -- When pruning deletes the key of a manifest that is not itself the key of a doomed artifact, an artifact
  -- that the manifest names, and whose size the destination can read, is not left: a manifest never goes
  -- before such an artifact. Of an artifact whose size cannot be read nothing is said.
  pub prune_bundles-manifest :
      (protect : Option Text) (now clock : ℕ) (retention : Dict Retention)
      (manifests : Dict Manifest) (existing : List Text) (key k : Text) (m : Manifest)
      → lookup key manifests ≡ some m
      → is_doomed key (doom_all protect now clock retention manifests []) ≡ false
      → contains existing key ≡ true
      → contains
          (prune_bundles denied size_fails protect now clock retention manifests existing).existing
          key
        ≡ false
      → names_artifact k m.artifacts ≡ true
      → has_key k ≡ true
      → size_fails k ≡ false
      → contains
          (prune_bundles denied size_fails protect now clock retention manifests existing).existing
          k
        ≡ false
  unfolding prune_bundles
  prune_bundles-manifest protect now clock retention manifests existing key k m found not_doomed
        there gone named nonempty sound =
      prune_doomed_lem manifests (doom_all protect now clock retention manifests []) key k m
        (record { existing = existing; deleted = []; worm_suppressed = 0 }) found not_doomed there
        gone named nonempty sound
