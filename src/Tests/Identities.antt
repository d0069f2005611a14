-- ===== src/Tests/Identities.antt =====
-- An environment with an external provider.
use precis_mcp.Common.{
  codes, text_eq, string_eq, nat_eq, ◌==◌, if◌then◌else◌, ◌≡◌, refl, none, some, [], ◌∷◌,
}
use precis_mcp.Common.Result.{err, ok}
use precis_mcp.Common.Maps.{Dict, lookup}
use precis_mcp.Common.Spaces.{strip}
use precis_mcp.Identity.{
  Environment, lower, mode_of, resolve_auth_mode, validate_auth_config, resolve_for_multiuser,
  resolve_for_devkey, Claim, Query, resolve_user_id, oidc, multi_user, text, query_failed,
}
use precis_mcp.Identity.Configured.{IsConfigured, IsLookedUp, resolve_for_multiuser-resolve_user_id}

abbrev environment : Environment
environment name =
    if name == codes "PRECIS_AUTH_MODE"
    then some (codes " OIDC ")
    else if name == codes "OIDC_ISSUER"
    then some (codes "https://idp")
    else none

starts : resolve_for_multiuser environment none ≡ ok oidc
unfolding resolve_for_multiuser resolve_auth_mode validate_auth_config mode_of lower strip
starts = refl

single_user_refuses : resolve_for_devkey environment ≡ err multi_user
unfolding resolve_for_devkey resolve_auth_mode mode_of lower strip
single_user_refuses = refl

-- A query that fails.
abbrev query : Query
query column value = err (codes "connection lost")

abbrev claims : Dict Claim
claims = (codes "preferred_username", text (codes "ann")) ∷ []

resolve_for_multiuser-resolve_user_id_example :
    IsConfigured environment oidc
    × IsLookedUp environment query (resolve_user_id environment query claims)
resolve_for_multiuser-resolve_user_id_example =
    resolve_for_multiuser-resolve_user_id environment none oidc query claims starts

user_found : resolve_user_id environment query claims ≡ ok (some (text (codes "ann")))
unfolding resolve_user_id lookup strip
user_found = refl

-- The same environment, with the users looked up by their external id.
abbrev external : Environment
external name =
    if name == codes "PRECIS_IDENTITY_COLUMN" then some (codes "external_id") else environment name

query_raises : resolve_user_id external query claims ≡ err (query_failed (codes "connection lost"))
unfolding resolve_user_id lookup strip
query_raises = refl
