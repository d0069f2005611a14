-- ===== src/Identity.antt =====
-- The mode of authentication (precis_mcp/auth_mode.py) and the user of a token (resolve_user_id of
-- precis_mcp/auth.py). The environment, and the rows of the users, are arguments.
pub mod Configured
use precis_mcp.Common.{
  length, get_elem?, take, drop, replicate, All, filterb, length-append, contains, Text, codes,
  text_beq, text_beq_iff, text_eq, string_eq, nat_eq, ◌==◌, beq_refl, Eq, ltb, leb, nat_beq,
  if◌then◌else◌, ltb→lt, leb→le, le→leb, nat_beq_iff, Bool-cases, Option-cases, ℕ, zero, suc, ◌+◌,
  ◌-◌, ◌*◌, ◌/◌, ◌%◌, ◌≤◌, ◌<◌, min, String, ◌≡◌, refl, sym, ap, subst, ◌∙◌, fun_ext, ◌≢◌, ◌↔◌, ◌⊎◌,
  inl, inr, Bool, true, false, not, ◌&&◌, ◌||◌, Option, none, some, List, [], ◌∷◌, ◌++◌, map,
  append_assoc, append-nil, arith,
}
use precis_mcp.Common.Result.{
  guard, ◌>>=◌, ◌>>◌, map_result, >>=-eq-ok, >>=-cong, >>=_assoc, Result, err, ok,
}
use precis_mcp.Common.Maps.{
  Dict, lookup, insert, keys, insert_item, sort_items, lookup-insert, lookup-sort_items,
}
use precis_mcp.Common.Spaces.{strip}

pub data AuthMode : Type 0 where
  devkey keycloak oidc : AuthMode

pub data AuthModeError : Type 0 where
  mode_not_set header_unsupported mode_invalid : AuthModeError
  issuer_missing dev_key_missing column_not_allowed : AuthModeError
  single_user multi_user : AuthModeError

-- `os.environ`
abbrev pub Environment : Type 0
Environment = Text → Option Text

abbrev pub text_or_empty : Option Text → Text
text_or_empty none = []
text_or_empty (some t) = t

-- `text.lower()` on ASCII letters
unfoldable pub lower : Text → Text
lower [] = []
lower (c ∷ cs) = (if leb 65 c && leb c 90 then c + 32 else c) ∷ lower cs

-- `AuthMode(raw)`
unfoldable pub mode_of : Text → Result AuthModeError AuthMode
mode_of raw =
    if raw == codes "header"
    then err header_unsupported
    else if raw == codes "devkey"
    then ok devkey
    else if raw == codes "keycloak"
    then ok keycloak
    else if raw == codes "oidc"
    then ok oidc
    else err mode_invalid

abbrev pub mode_or_default : Option AuthMode → Text → Result AuthModeError AuthMode
mode_or_default none [] = err mode_not_set
mode_or_default (some default) [] = ok default
mode_or_default default (c ∷ cs) = mode_of (c ∷ cs)

abbrev pub is_set : Text → Bool
is_set [] = false
is_set (c ∷ cs) = true

abbrev pub or_id : Text → Text
or_id [] = codes "id"
or_id (c ∷ cs) = c ∷ cs

-- `IDENTITY_COLUMN_ALLOWLIST`
abbrev pub identity_column_allowlist : List Text
identity_column_allowlist = codes "id" ∷ codes "external_id" ∷ []

module _ (env : Environment) where
  unfoldable pub resolve_auth_mode : Option AuthMode → Result AuthModeError AuthMode
  resolve_auth_mode default =
      mode_or_default default (lower (strip (text_or_empty (env (codes "PRECIS_AUTH_MODE")))))

  abbrev pub identity_column : Text
  identity_column = or_id (strip (text_or_empty (env (codes "PRECIS_IDENTITY_COLUMN"))))

  -- What a mode itself requires.
  abbrev pub check_mode : AuthMode → Result AuthModeError (Unit {0})
  check_mode oidc = guard (is_set (text_or_empty (env (codes "OIDC_ISSUER")))) issuer_missing
  check_mode devkey =
      guard (is_set (strip (text_or_empty (env (codes "MCP_DEV_KEY"))))) dev_key_missing
  check_mode keycloak = ok tt

  unfoldable pub validate_auth_config : AuthMode → Result AuthModeError (Unit {0})
  validate_auth_config mode = do
    check_mode mode
    guard (contains identity_column_allowlist identity_column) column_not_allowed

  abbrev pub is_multi_user : AuthMode → Bool
  is_multi_user devkey = false
  is_multi_user keycloak = true
  is_multi_user oidc = true

  unfoldable pub resolve_for_multiuser : Option AuthMode → Result AuthModeError AuthMode
  resolve_for_multiuser default = do
    mode ← resolve_auth_mode default
    guard (is_multi_user mode) single_user
    validate_auth_config mode
    ok mode

  abbrev pub only_devkey : AuthMode → Result AuthModeError AuthMode
  only_devkey devkey = ok devkey
  only_devkey keycloak = err multi_user
  only_devkey oidc = err multi_user

  unfoldable pub resolve_for_devkey : Result AuthModeError AuthMode
  resolve_for_devkey = do mode ← resolve_auth_mode (some devkey); only_devkey mode

-- `raise AuthError` for an identity column that is not allowed, and what the platform database raises
pub data IdentityError : Type 0 where
  column_refused : IdentityError
  query_failed : Text → IdentityError

-- The value of a claim: a text, or another JSON value, of which only its truth counts.
pub data Claim : Type 0 where
  text : Text → Claim
  other : Bool → Text → Claim

abbrev pub is_true : Claim → Bool
is_true (text t) = is_set t
is_true (other truth json) = truth

-- `a or b`, where a claim that is not there is `None`
abbrev pub or_claim : Option Claim → Option Claim → Option Claim
or_claim none b = b
or_claim (some c) b = if is_true c then some c else b

abbrev pub claim_of : Dict Claim → Text → Option Claim
claim_of claims [] =
    or_claim (lookup (codes "precis_user_id") claims) (lookup (codes "preferred_username") claims)
claim_of claims (c ∷ cs) = lookup (c ∷ cs) claims

-- The id of the first row of the query by a column and a value, or what the query raises.
abbrev pub Query : Type 0
Query = Text → Claim → Result Text (Option Text)

abbrev pub found_user : Result Text (Option Text) → Result IdentityError (Option Claim)
found_user (err e) = err (query_failed e)
found_user (ok none) = ok none
found_user (ok (some id)) = ok (some (text id))

-- The user of a value that is true, by the column.
abbrev pub user_by_column : Query → Text → Claim → Result IdentityError (Option Claim)
user_by_column query column value =
    if column == codes "id"
    then ok (some value)
    else if not (contains identity_column_allowlist column)
    then err column_refused
    else found_user (query column value)

abbrev pub user_by : Query → Text → Option Claim → Result IdentityError (Option Claim)
user_by query column none = ok none
user_by query column (some value) =
    if is_true value then user_by_column query column value else ok none

unfoldable pub resolve_user_id :
    Environment → Query → Dict Claim → Result IdentityError (Option Claim)
resolve_user_id env query claims =
    user_by query (identity_column env)
      (claim_of claims (strip (text_or_empty (env (codes "PRECIS_IDENTITY_CLAIM")))))
