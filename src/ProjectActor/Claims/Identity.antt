-- ===== src/ProjectActor/Claims/Identity.antt =====
-- The claims of two actors of project-actor.ts.
use druvia.Prelude.{
  String, str_eq, eq_iff, opt_is, ◌≡◌, refl, arith, Bool, true, false, not, Option, some, ℕ,
}
use druvia.ProjectActor.Context.{
  JsonValue, text, integer, ProjectActorContext, platform_user, project_user, apikey, lookup,
}
use druvia.ProjectActor.Claims.{tenant_claim, to_project_actor_claims}

-- An actor has no tenant with an empty name: the parser refuses such a
-- tenant, and the resolution leaves it out.
abbrev pub is_named_tenant : ProjectActorContext → Bool
is_named_tenant (platform_user a) = not (opt_is a.tenant_id "")
is_named_tenant a = true

-- A key at which two objects hold the same text, number or tenant.
same_text : (v w : String) → ◌≡◌ {A = Option JsonValue} (some (text v)) (some (text w)) → v ≡ w
same_text v w h = cc

same_integer : (v w : ℕ) → ◌≡◌ {A = Option JsonValue} (some (integer v)) (some (integer w)) → v ≡ w
same_integer v w h = cc

same_tenant :
    (t u : Option String)
    → not (opt_is t "") ≡ true
    → not (opt_is u "") ≡ true
    → lookup "tenant_id" (tenant_claim t) ≡ lookup "tenant_id" (tenant_claim u)
    → t ≡ u
unfolding lookup tenant_claim
same_tenant t u named named' h = ground arith

apart : (v w : String) → str_eq v w ≡ false → v ≡ w → ⊥
apart v w differ h = ground (arith, eq_iff v w)

-- Of two actors whose tenants, where they have one, have a name that is not empty: if their claims
-- hold the same value at every key, they are the same actor.
pub to_project_actor_claims_injective :
    (a b : ProjectActorContext)
    → is_named_tenant a ≡ true
    → is_named_tenant b ≡ true
    → ((key : String)
        → lookup key (to_project_actor_claims a) ≡ lookup key (to_project_actor_claims b))
    → a ≡ b
unfolding to_project_actor_claims lookup
to_project_actor_claims_injective (platform_user a) (platform_user b) named named' h = λ i.
    platform_user record {
      project_id = same_text a.project_id b.project_id (h "project_id") i;
      subject = same_text a.subject b.subject (h "sub") i;
      role = same_text a.role b.role (h "role") i;
      platform_user_id = same_text a.platform_user_id b.platform_user_id (h "platform_user_id") i;
      platform_uid = same_integer a.platform_uid b.platform_uid (h "platform_uid") i;
      tenant_id = same_tenant a.tenant_id b.tenant_id named named' (h "tenant_id") i;
    }
to_project_actor_claims_injective (project_user a) (project_user b) named named' h = λ i.
    project_user record {
      project_id = same_text a.project_id b.project_id (h "project_id") i;
      subject = same_text a.subject b.subject (h "sub") i;
      project_user_id = same_text a.project_user_id b.project_user_id (h "project_user_id") i;
      provider = same_text a.provider b.provider (h "provider") i;
    }
to_project_actor_claims_injective (apikey a) (apikey b) named named' h = λ i. apikey record {
  project_id = same_text a.project_id b.project_id (h "project_id") i;
  subject = same_text a.subject b.subject (h "sub") i;
  api_key_id = same_integer a.api_key_id b.api_key_id (h "api_key_id") i;
  api_key_prefix = same_text a.api_key_prefix b.api_key_prefix (h "api_key_prefix") i;
}
to_project_actor_claims_injective a b named named' h =
    absurd (apart _ _ refl (same_text _ _ (h "actor_type")))
