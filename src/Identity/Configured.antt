-- ===== src/Identity/Configured.antt =====
-- What the entry points accept, and the lookup of users after they did.
use precis_mcp.Common.{
  contains, Text, codes, text_beq, text_eq, string_eq, nat_eq, Bool-cases, ◌≡◌, refl, subst, inl,
  inr, Bool, true, false, Option, none, some,
}
use precis_mcp.Common.Result.{guard, >>=-eq-ok, Result, err, ok}
use precis_mcp.Common.Maps.{Dict}
use precis_mcp.Identity.{
  AuthMode, Environment, text_or_empty, is_set, identity_column_allowlist, resolve_auth_mode,
  identity_column, check_mode, validate_auth_config, is_multi_user, resolve_for_multiuser,
  IdentityError, Claim, is_true, Query, found_user, user_by_column, user_by, resolve_user_id,
  devkey, keycloak, oidc, single_user, column_refused, query_failed,
}

guard-eq_ok {ℓ} : {E : Type ℓ} (b : Bool) (e : E) {u : Unit {0}} → guard b e ≡ ok u → b ≡ true
guard-eq_ok true e h = refl
guard-eq_ok false e h = absurd (cc h)

-- A server for several users may run in this mode: the mode is not the single-user one, the identity
-- column is allowed, and direct OIDC has its issuer.
abbrev pub IsConfigured : Environment → AuthMode → Type 0
IsConfigured env devkey = ⊥
IsConfigured env keycloak = contains identity_column_allowlist (identity_column env) ≡ true
IsConfigured env oidc =
    (is_set (text_or_empty (env (codes "OIDC_ISSUER"))) ≡ true)
    × (contains identity_column_allowlist (identity_column env) ≡ true)

module _ (env : Environment) where
  validate_auth_config-IsConfigured :
      (mode : AuthMode) (u v : Unit {0})
      → guard (is_multi_user env mode) single_user ≡ ok u
      → validate_auth_config env mode ≡ ok v
      → IsConfigured env mode
  unfolding validate_auth_config
  validate_auth_config-IsConfigured devkey u v multi valid = absurd (cc multi)
  validate_auth_config-IsConfigured keycloak u v multi valid = guard-eq_ok _ _ valid
  validate_auth_config-IsConfigured oidc u v multi valid =
      let (w, issuer, column) = >>=-eq-ok (check_mode env oidc) _ valid in
      (guard-eq_ok _ _ issuer, guard-eq_ok _ _ column)

  resolve_for_multiuser-IsConfigured :
      (default : Option AuthMode) (mode : AuthMode)
      → resolve_for_multiuser env default ≡ ok mode
      → IsConfigured env mode
  unfolding resolve_for_multiuser
  resolve_for_multiuser-IsConfigured default mode h =
      let (m, resolved, h1) = >>=-eq-ok (resolve_auth_mode env default) _ h in
      let (u, multi, h2) = >>=-eq-ok (guard (is_multi_user env m) single_user) _ h1 in
      let (v, valid, last) = >>=-eq-ok (validate_auth_config env m) (λ w. ok m) h2 in
      let same : m ≡ mode = cc last in
      subst (IsConfigured env) same (validate_auth_config-IsConfigured m u v multi valid)

  IsConfigured-column :
      (mode : AuthMode)
      → IsConfigured env mode
      → contains identity_column_allowlist (identity_column env) ≡ true
  IsConfigured-column devkey h = absurd h
  IsConfigured-column keycloak h = h
  IsConfigured-column oidc (issuer, column) = column

  -- The user is looked up, or the platform database has raised for the value of the claim.
  abbrev pub IsLookedUp : Query → Result IdentityError (Option Claim) → Type 0
  IsLookedUp query (ok user) = Unit {0}
  IsLookedUp query (err column_refused) = ⊥
  IsLookedUp query (err (query_failed e)) =
      (value : Claim) × (query (identity_column env) value ≡ err e)

  found_user-IsLookedUp :
      (query : Query) (value : Claim) (r : Result Text (Option Text))
      → query (identity_column env) value ≡ r
      → IsLookedUp query (found_user r)
  found_user-IsLookedUp query value (err e) h = (value, h)
  found_user-IsLookedUp query value (ok none) h = tt
  found_user-IsLookedUp query value (ok (some id)) h = tt

  user_by_column-IsLookedUp :
      (query : Query) (value : Claim)
      → contains identity_column_allowlist (identity_column env) ≡ true
      → IsLookedUp query (user_by_column query (identity_column env) value)
  user_by_column-IsLookedUp query value h =
      elim (Bool-cases (text_beq (identity_column env) (codes "id"))) [
        | inl e ↦ rw e tt
        | inr e ↦
            rw (e, h) (found_user-IsLookedUp query value (query (identity_column env) value) refl)
      ]

  user_by-IsLookedUp :
      (query : Query) (claim : Option Claim)
      → contains identity_column_allowlist (identity_column env) ≡ true
      → IsLookedUp query (user_by query (identity_column env) claim)
  user_by-IsLookedUp query none h = tt
  user_by-IsLookedUp query (some value) h = elim (Bool-cases (is_true value)) [
    | inl e ↦ rw e (user_by_column-IsLookedUp query value h)
    | inr e ↦ rw e tt
  ]

  -- Once the entry point for several users accepts the environment, the mode is not the single-user one, the
  -- identity column is allowed, and for the mode `oidc` the issuer is set; and the lookup of the user of any
  -- claims never refuses the column: it returns, or raises what the query for the user raised.
  pub resolve_for_multiuser-resolve_user_id :
      (default : Option AuthMode) (mode : AuthMode) (query : Query) (claims : Dict Claim)
      → resolve_for_multiuser env default ≡ ok mode
      → IsConfigured env mode × IsLookedUp query (resolve_user_id env query claims)
  unfolding resolve_user_id
  resolve_for_multiuser-resolve_user_id default mode query claims h =
      let configured = resolve_for_multiuser-IsConfigured default mode h in
      (configured, user_by-IsLookedUp query _ (IsConfigured-column mode configured))
