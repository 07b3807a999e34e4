-- ===== src/ProjectActor/Claims/Examples.antt =====
-- The claims and the session variables of actors.
use druvia.Prelude.{ℕ, String, ◌≡◌, refl, some, [], ◌∷◌}
use druvia.ProjectActor.Context.{ProjectActorContext, platform_user}
use druvia.ProjectActor.Claims.{
  scoped_user, user_variable, to_project_actor_hasura_session_variables,
}
use druvia.ProjectActor.Claims.Identity.{to_project_actor_claims_injective}

abbrev shown : ℕ → String
shown n = "1"

abbrev actor_in : String → ProjectActorContext
actor_in tenant = platform_user record {
  project_id = "p1";
  subject = "platform_user:u1";
  role = "authenticated";
  platform_user_id = "u1";
  platform_uid = 7;
  tenant_id = some tenant;
}

to_project_actor_claims_injective_example : actor_in "t1" ≡ actor_in "t1"
to_project_actor_claims_injective_example =
    to_project_actor_claims_injective (actor_in "t1") (actor_in "t1") refl refl (λ key. refl)

user_variables :
    to_project_actor_hasura_session_variables shown (
      scoped_user record {
        project_id = "p1";
        subject = "project_user:u1";
        project_user_id = "u1";
        provider = "email";
      })
    ≡ ("x-hasura-druvia-actor-contract-version", "1")
      ∷ ("x-hasura-druvia-actor-type", "project_user")
      ∷ ("x-hasura-druvia-actor-source", "project_session")
      ∷ ("x-hasura-druvia-project-id", "p1")
      ∷ ("x-hasura-druvia-project-user-id", "u1")
      ∷ []
unfolding to_project_actor_hasura_session_variables user_variable
user_variables = refl
