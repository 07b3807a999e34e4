-- ===== src/ProjectActor/Context/Examples.antt =====
-- The actor of a Project User, resolved and parsed by project-actor.ts. Nothing is trimmed, numbers
-- are shown as "1", and no text is longer than one code unit.
use Prim.Native.Char.{Char}
use Prim.Native.String
use Prim.Native.String.append
use Prim.Native.String.compare
use Prim.Native.Nat.{Ordering}
use druvia.Prelude.{ℕ, String, str_eq, ◌≡◌, refl, ap, true, false, not, some, ok}
use druvia.Authorization.{RequestUser}
use druvia.ProjectActor.Context.{
  ProjectActorContext, project_user, apikey_subject, is_valid_string, parse_project_actor_context,
  resolve_scoped_project_actor, lookup, parse_object, parse_type, parse_project_user, valid_text,
  is_text, is_version, has_only_keys,
}
use druvia.ProjectActor.Context.RoundTrip.{
  IsTrim, as_object, is_well_formed, parse_project_actor_context_round_trip,
  parse-resolve_scoped_project_actor,
}

abbrev trim : String → String
trim s = s

abbrev units : String → ℕ
units s = 1

abbrev shown : ℕ → String
shown n = "1"

tagged : (c : Char) (p s : String) → str_eq (String.◌++◌ (String.◌∷◌ c p) s) "" ≡ false
tagged c p s =
    let e : String.◌++◌ (String.◌∷◌ c p) s ≡ String.◌∷◌ c (String.◌++◌ p s) =
      λ i. append.cons c p s i in
    let after : String.compare (String.◌∷◌ c (String.◌++◌ p s)) "" ≡ Ordering.gt =
      λ i. compare.cons-nil c (String.◌++◌ p s) i in
    rw e (rw after refl)

is_trim : IsTrim trim units shown
unfolding is_valid_string apikey_subject
is_trim = record {
  project_user = λ s. ap not (tagged _ "roject_user:" s);
  apikey = λ n. refl;
  authenticated = refl;
  anon = refl;
}

abbrev user : RequestUser
user = RequestUser.project_user (record { sub = "u1"; project_id = "p1"; provider = "email" })

abbrev actor : ProjectActorContext
actor = project_user (record {
  project_id = "p1";
  subject = "project_user:u1";
  project_user_id = "u1";
  provider = "email";
})

resolved : resolve_scoped_project_actor trim units shown user "p1" ≡ ok actor
unfolding resolve_scoped_project_actor is_valid_string
resolved = refl

parse-resolve_scoped_project_actor_example :
    parse_project_actor_context trim units shown (some (as_object actor)) ≡ ok actor
parse-resolve_scoped_project_actor_example =
    parse-resolve_scoped_project_actor trim units shown is_trim user "p1" actor
      (unfold is_valid_string in refl) resolved

parsed : parse_project_actor_context trim units shown (some (as_object actor)) ≡ ok actor
unfolding parse_project_actor_context parse_object parse_type parse_project_user valid_text is_text
    is_version has_only_keys is_valid_string lookup
parsed = refl

parse_project_actor_context_round_trip_example :
    (is_well_formed trim units shown actor ≡ true)
    × (parse_project_actor_context trim units shown (some (as_object actor)) ≡ ok actor)
parse_project_actor_context_round_trip_example =
    parse_project_actor_context_round_trip trim units shown (some (as_object actor)) actor parsed
