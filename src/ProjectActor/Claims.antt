-- ===== src/ProjectActor/Claims.antt =====
-- apps/api/src/lib/project-actor.ts: what of an actor is passed on, as an audit record, as claims,
-- as headers and as session variables. The claims and the audit record are objects, the headers and
-- the session variables hold texts.
pub mod Identity
mod Examples
use druvia.Prelude.{
  ℕ, String, str_eq, if◌then◌else◌, Option, none, some, List, [], ◌∷◌, ◌++◌, Result, ok, err,
}
use druvia.ProjectActor.Context.{
  JsonValue, text, integer, JsonObject, PlatformActor, ProjectUserActor, ApiKeyActor,
  ProjectActorContext, platform_user, project_user, apikey,
}

abbrev actor_type : ProjectActorContext → String
actor_type (platform_user a) = "platform_user"
actor_type (project_user a) = "project_user"
actor_type (apikey a) = "apikey"

abbrev source : ProjectActorContext → String
source (platform_user a) = "platform_session"
source (project_user a) = "project_session"
source (apikey a) = "project_api_key"

abbrev subject : ProjectActorContext → String
subject (platform_user a) = a.subject
subject (project_user a) = a.subject
subject (apikey a) = a.subject

abbrev role : ProjectActorContext → String
role (platform_user a) = a.role
role (project_user a) = "authenticated"
role (apikey a) = "anon"

abbrev pub project_id : ProjectActorContext → String
project_id (platform_user a) = a.project_id
project_id (project_user a) = a.project_id
project_id (apikey a) = a.project_id

audit_identity : ProjectActorContext → JsonObject
audit_identity (platform_user a) = ("platformUserId", text a.platform_user_id) ∷ []
audit_identity (project_user a) = ("projectUserId", text a.project_user_id) ∷ []
audit_identity (apikey a) =
    ("apiKeyId", integer a.api_key_id) ∷ ("apiKeyPrefix", text a.api_key_prefix) ∷ []

unfoldable pub to_project_actor_audit_context : ProjectActorContext → JsonObject
unfolding audit_identity
to_project_actor_audit_context a =
    ("actorType", text (actor_type a))
    ∷ ("actorSource", text (source a))
    ∷ ("actorSubject", text (subject a))
    ∷ ("projectId", text (project_id a))
    ∷ audit_identity a

tenant_claim : Option String → JsonObject
tenant_claim none = []
tenant_claim (some t) = if str_eq t "" then [] else ("tenant_id", text t) ∷ []

identity_claims : ProjectActorContext → JsonObject
unfolding tenant_claim
identity_claims (platform_user a) =
    ("platform_user_id", text a.platform_user_id)
    ∷ ("platform_uid", integer a.platform_uid)
    ∷ tenant_claim a.tenant_id
identity_claims (project_user a) =
    ("project_user_id", text a.project_user_id) ∷ ("provider", text a.provider) ∷ []
identity_claims (apikey a) =
    ("api_key_id", integer a.api_key_id) ∷ ("api_key_prefix", text a.api_key_prefix) ∷ []

unfoldable pub to_project_actor_claims : ProjectActorContext → JsonObject
unfolding identity_claims
to_project_actor_claims a =
    ("sub", text (subject a))
    ∷ ("role", text (role a))
    ∷ ("project_id", text (project_id a))
    ∷ ("actor_type", text (actor_type a))
    ∷ ("actor_source", text (source a))
    ∷ identity_claims a

-- `show_number` is String(n).
identity_headers : (ℕ → String) → ProjectActorContext → List (String × String)
identity_headers show_number (platform_user a) =
    ("x-druvia-platform-user-id", a.platform_user_id) ∷ []
identity_headers show_number (project_user a) = ("x-druvia-project-user-id", a.project_user_id) ∷ []
identity_headers show_number (apikey a) =
    ("x-druvia-api-key-id", show_number a.api_key_id)
    ∷ ("x-druvia-api-key-prefix", a.api_key_prefix)
    ∷ []

unfoldable pub to_project_actor_headers :
    (ℕ → String) → ProjectActorContext → List (String × String)
unfolding identity_headers
to_project_actor_headers show_number a =
    ("x-druvia-actor-type", actor_type a)
    ∷ ("x-druvia-actor-source", source a)
    ∷ ("x-druvia-actor-subject", subject a)
    ∷ ("x-druvia-project-id", project_id a)
    ∷ identity_headers show_number a

-- The actors that act in a project of their own: a Project User or an API key.
pub data ScopedActorContext : Type 0 where
  scoped_user : ProjectUserActor → ScopedActorContext
  scoped_apikey : ApiKeyActor → ScopedActorContext

abbrev pub scoped : ScopedActorContext → ProjectActorContext
scoped (scoped_user a) = project_user a
scoped (scoped_apikey a) = apikey a

user_variable : ScopedActorContext → List (String × String)
user_variable (scoped_user a) = ("x-hasura-druvia-project-user-id", a.project_user_id) ∷ []
user_variable (scoped_apikey a) = []

unfoldable pub to_project_actor_hasura_session_variables :
    (ℕ → String) → ScopedActorContext → List (String × String)
unfolding user_variable
to_project_actor_hasura_session_variables show_number a =
    ("x-hasura-druvia-actor-contract-version", show_number 1)
    ∷ ("x-hasura-druvia-actor-type", actor_type (scoped a))
    ∷ ("x-hasura-druvia-actor-source", source (scoped a))
    ∷ ("x-hasura-druvia-project-id", project_id (scoped a))
    ∷ user_variable a
