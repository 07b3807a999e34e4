-- ===== src/ProjectActor/Context.antt =====
-- apps/api/src/lib/project-actor.ts: the contexts, their parser, the resolution of the user of a
-- request, and what is passed on. `trim`, `utf16_length` and `show_number` are the runtime's
-- String.prototype.trim, the length of a string and String(n).
pub mod RoundTrip
mod Examples
use Prim.Native.String
use druvia.Prelude.{
  ℕ, zero, suc, ◌==◌, ◌^◌, ltb, leb, String, str_eq, if◌then◌else◌, Bool, true, false, ◌&&◌, ◌||◌,
  not, Option, none, some, List, [], ◌∷◌, ◌++◌, all, includes, Result, ok, err, ◌>>=◌, ◌>>◌, guard,
}
use druvia.Authorization.{RequestUser, PlatformJwtUser, ProjectJwtUser, ApiKeyIdentity}

-- What a key of the value holds: a text, an integer that is not negative, an explicit `undefined`, or
-- something else.
pub data JsonValue : Type 0 where
  text : String → JsonValue
  integer : ℕ → JsonValue
  undefined other : JsonValue

abbrev pub JsonObject : Type 0
JsonObject = List (String × JsonValue)

pub record PlatformActor : Type 0 where
  pub project_id : String
  pub subject : String
  pub role : String
  pub platform_user_id : String
  pub platform_uid : ℕ
  pub tenant_id : Option String

pub record ProjectUserActor : Type 0 where
  pub project_id : String
  pub subject : String
  pub project_user_id : String
  pub provider : String

pub record ApiKeyActor : Type 0 where
  pub project_id : String
  pub subject : String
  pub api_key_id : ℕ
  pub api_key_prefix : String

-- The version, the source and the roles 'authenticated' and 'anon' are those of the constructor.
pub data ProjectActorContext : Type 0 where
  platform_user : PlatformActor → ProjectActorContext
  project_user : ProjectUserActor → ProjectActorContext
  apikey : ApiKeyActor → ProjectActorContext

pub data ProjectActorError : Type 0 where
  scope_error required_error : ProjectActorError

unfoldable pub lookup : String → JsonObject → Option JsonValue
lookup k [] = none
lookup k ((j, v) ∷ o) = if str_eq j k then some v else lookup k o

has_only_keys : JsonObject → List String → Bool
has_only_keys o allowed = all (λ e. includes allowed e.0) o

is_text : Option JsonValue → String → Bool
is_text (some (text s)) t = str_eq s t
is_text _ t = false

is_version : Option JsonValue → Bool
is_version (some (integer n)) = n == 1
is_version _ = false

-- Number.isSafeInteger(n) && n > 0
is_positive : ℕ → Bool
is_positive n = ltb 0 n && ltb n (2 ^ 53)

positive : Option JsonValue → Result ProjectActorError ℕ
unfolding is_positive
positive (some (integer n)) = if is_positive n then ok n else err required_error
positive _ = err required_error

abbrev platform_keys : List String
platform_keys =
    "version" ∷ "actorType" ∷ "source" ∷ "projectId" ∷ "subject" ∷ "role" ∷ "platformUserId"
    ∷ "platformUid" ∷ "tenantId" ∷ []

abbrev project_user_keys : List String
project_user_keys =
    "version" ∷ "actorType" ∷ "source" ∷ "projectId" ∷ "subject" ∷ "role" ∷ "projectUserId"
    ∷ "provider" ∷ []

abbrev apikey_keys : List String
apikey_keys =
    "version" ∷ "actorType" ∷ "source" ∷ "projectId" ∷ "subject" ∷ "role" ∷ "apiKeyId"
    ∷ "apiKeyPrefix" ∷ []

abbrev pub platform_subject : String → String
platform_subject id = String.◌++◌ "platform_user:" id

abbrev pub project_user_subject : String → String
project_user_subject id = String.◌++◌ "project_user:" id

module _ (trim : String → String) (utf16_length : String → ℕ) (show_number : ℕ → String) where
  pub is_valid_string : String → Bool
  is_valid_string s = not (str_eq (trim s) "")

  pub apikey_subject : ℕ → String
  apikey_subject id = String.◌++◌ "apikey:" (show_number id)

  valid_text : Option JsonValue → Result ProjectActorError String
  unfolding is_valid_string
  valid_text (some (text s)) = if is_valid_string s then ok s else err required_error
  valid_text _ = err required_error

  -- value.tenantId !== undefined && !isValidString(value.tenantId) is refused.
  optional_text : Option JsonValue → Result ProjectActorError (Option String)
  unfolding valid_text
  optional_text none = ok none
  optional_text (some undefined) = ok none
  optional_text v = valid_text v >>= λ s. ok (some s)

  parse_platform :
      JsonObject → String → String → String → Result ProjectActorError ProjectActorContext
  parse_platform o pid subject role = do
    guard (has_only_keys o platform_keys) required_error
    guard (is_text (lookup "source" o) "platform_session") required_error
    id ← valid_text (lookup "platformUserId" o)
    uid ← positive (lookup "platformUid" o)
    guard (str_eq subject (platform_subject id)) required_error
    tenant ← optional_text (lookup "tenantId" o)
    ok (
        platform_user (record {
          project_id = pid;
          subject = subject;
          role = role;
          platform_user_id = id;
          platform_uid = uid;
          tenant_id = tenant;
        }))

  parse_project_user :
      JsonObject → String → String → String → Result ProjectActorError ProjectActorContext
  parse_project_user o pid subject role = do
    guard (has_only_keys o project_user_keys) required_error
    guard (is_text (lookup "source" o) "project_session") required_error
    guard (str_eq role "authenticated") required_error
    id ← valid_text (lookup "projectUserId" o)
    provider ← valid_text (lookup "provider" o)
    guard (str_eq subject (project_user_subject id)) required_error
    ok (
        project_user (record {
          project_id = pid;
          subject = subject;
          project_user_id = id;
          provider = provider;
        }))

  parse_apikey :
      JsonObject → String → String → String → Result ProjectActorError ProjectActorContext
  unfolding apikey_subject
  parse_apikey o pid subject role = do
    guard (has_only_keys o apikey_keys) required_error
    guard (is_text (lookup "source" o) "project_api_key") required_error
    guard (str_eq role "anon") required_error
    id ← positive (lookup "apiKeyId" o)
    prefix ← valid_text (lookup "apiKeyPrefix" o)
    guard (leb (utf16_length prefix) 12) required_error
    guard (str_eq subject (apikey_subject id)) required_error
    ok (
        apikey (record {
          project_id = pid;
          subject = subject;
          api_key_id = id;
          api_key_prefix = prefix;
        }))

  parse_type : JsonObject → String → String → String → Result ProjectActorError ProjectActorContext
  parse_type o pid subject role =
      if is_text (lookup "actorType" o) "platform_user"
      then parse_platform o pid subject role
      else if is_text (lookup "actorType" o) "project_user"
      then parse_project_user o pid subject role
      else if is_text (lookup "actorType" o) "apikey"
      then parse_apikey o pid subject role
      else err required_error

  parse_object : JsonObject → Result ProjectActorError ProjectActorContext
  parse_object o = do
    guard (is_version (lookup "version" o)) required_error
    pid ← valid_text (lookup "projectId" o)
    subject ← valid_text (lookup "subject" o)
    role ← valid_text (lookup "role" o)
    parse_type o pid subject role

  -- `none` is a value that is no record.
  pub parse_project_actor_context : Option JsonObject → Result ProjectActorError ProjectActorContext
  unfolding parse_object parse_type parse_platform parse_project_user parse_apikey valid_text
      optional_text positive is_text is_version has_only_keys
  parse_project_actor_context none = err required_error
  parse_project_actor_context (some o) = parse_object o

  is_valid_api_key_identity : ApiKeyIdentity → Bool
  unfolding is_positive is_valid_string
  is_valid_api_key_identity u =
      is_positive u.api_key_id
      && (is_valid_string u.api_key_prefix && leb (utf16_length u.api_key_prefix) 12)

  pub resolve_scoped_project_actor :
      RequestUser → String → Result ProjectActorError ProjectActorContext
  unfolding is_valid_api_key_identity apikey_subject is_valid_string
  resolve_scoped_project_actor (RequestUser.platform_user u) pid = err required_error
  resolve_scoped_project_actor (RequestUser.project_user u) pid =
      if not (str_eq u.project_id pid)
      then err scope_error
      else if not (is_valid_string u.sub) || not (is_valid_string u.provider)
      then err required_error
      else ok (
          project_user (record {
            project_id = pid;
            subject = project_user_subject u.sub;
            project_user_id = u.sub;
            provider = u.provider;
          }))
  resolve_scoped_project_actor (RequestUser.apikey u) pid =
      if not (str_eq u.project_id pid)
      then err scope_error
      else if not (is_valid_api_key_identity u)
      then err required_error
      else ok (
          apikey (record {
            project_id = pid;
            subject = apikey_subject u.api_key_id;
            api_key_id = u.api_key_id;
            api_key_prefix = u.api_key_prefix;
          }))

  abbrev role_or_default : Option String → String
  role_or_default none = "authenticated"
  role_or_default (some r) = r

  -- An empty tenant is left out.
  abbrev kept_tenant : Option String → Option String
  kept_tenant none = none
  kept_tenant (some t) = if str_eq t "" then none else some t

  pub resolve_platform_project_actor :
      RequestUser → String → Result ProjectActorError ProjectActorContext
  unfolding is_positive is_valid_string
  resolve_platform_project_actor (RequestUser.platform_user u) pid =
      if not (is_valid_string u.user_id) || not (is_positive u.uid)
      then err required_error
      else ok (
          platform_user (record {
            project_id = pid;
            subject = platform_subject u.user_id;
            role = role_or_default u.role;
            platform_user_id = u.user_id;
            platform_uid = u.uid;
            tenant_id = kept_tenant u.tenant_id;
          }))
  resolve_platform_project_actor _ pid = err required_error
