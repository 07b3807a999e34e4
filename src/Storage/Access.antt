-- ===== src/Storage/Access.antt =====
-- apps/api/src/modules/storage/storage-access.service.ts: the decision on one object, and the owner
-- filter of a listing.
pub mod Filter
use druvia.Prelude.{
  ℕ, String, str_eq, opt_is, if◌then◌else◌, Bool, true, false, Option, none, some, Result, ok, err,
  ◌>>=◌, ◌||◌, not, ◌&&◌,
}

pub data StorageProjectUserAccess : Type 0 where
  admin_only owner_only authenticated_read : StorageProjectUserAccess

pub data StorageObjectOperation : Type 0 where
  read write delete : StorageObjectOperation

pub data StorageActor : Type 0 where
  platform_user : String → String → StorageActor  -- projectId, platformUserId
  project_user : String → String → StorageActor  -- projectId, projectUserId
  apikey : String → StorageActor  -- projectId

pub record StorageAccessError : Type 0 where
  pub code : String
  pub status_code : ℕ

pub record StorageAccessDecision : Type 0 where
  pub visible : Bool
  pub writable : Bool
  pub owner_project_user_id : Option String

abbrev pub access_error {ℓ} : {A : Type ℓ} → String → ℕ → Result StorageAccessError A
access_error code status = err (record { code = code; status_code = status })

-- A value that is not a string is given as `none`.
normalize_storage_project_user_access :
    Option String → Result StorageAccessError StorageProjectUserAccess
normalize_storage_project_user_access none = access_error "INVALID_STORAGE_ACCESS" 400
normalize_storage_project_user_access (some v) =
    if str_eq v "admin_only"
    then ok admin_only
    else if str_eq v "owner_only"
    then ok owner_only
    else if str_eq v "authenticated_read"
    then ok authenticated_read
    else access_error "INVALID_STORAGE_ACCESS" 400

abbrev actor_project : StorageActor → String
actor_project (platform_user pid _) = pid
actor_project (project_user pid _) = pid
actor_project (apikey pid) = pid

unfoldable pub assert_storage_actor_project :
    StorageActor → String → Result StorageAccessError (Unit {0})
assert_storage_actor_project actor pid =
    if not (str_eq (actor_project actor) pid)
    then access_error "PROJECT_SCOPE_MISMATCH" 403
    else ok tt

abbrev decision : Bool → Bool → Option String → Result StorageAccessError StorageAccessDecision
decision visible writable owner =
    ok (record { visible = visible; writable = writable; owner_project_user_id = owner })

abbrev is_authenticated_read : StorageProjectUserAccess → Bool
is_authenticated_read authenticated_read = true
is_authenticated_read _ = false

abbrev is_write : StorageObjectOperation → Bool
is_write write = true
is_write _ = false

-- From the test of `objectExists` on: a write or a delete by a Project User.
change_object :
    StorageProjectUserAccess
    → String
    → StorageObjectOperation
    → Bool
    → Bool
    → Result StorageAccessError StorageAccessDecision
change_object preset uid op exists own =
    if not exists
    then decision true true (some uid)
    else if own
    then decision true true (some uid)
    else if is_write op && is_authenticated_read preset
    then access_error "OBJECT_OWNERSHIP_CONFLICT" 409
    else access_error "OBJECT_NOT_FOUND" 404

user_access :
    StorageProjectUserAccess
    → String
    → StorageObjectOperation
    → Bool
    → Bool
    → Result StorageAccessError StorageAccessDecision
unfolding change_object
user_access admin_only uid op exists own = access_error "STORAGE_ACCESS_DISABLED" 403
user_access preset uid read exists own =
    if is_authenticated_read preset || own
    then decision true own (some uid)
    else access_error "OBJECT_NOT_FOUND" 404
user_access preset uid op exists own = change_object preset uid op exists own

-- The arguments are the fields of the input: preset, actor, operation, objectExists (false where it
-- is undefined) and objectOwnerProjectUserId (none where it is null or undefined).
unfoldable pub decide_storage_object_access :
    StorageProjectUserAccess
    → StorageActor
    → StorageObjectOperation
    → Bool
    → Option String
    → Result StorageAccessError StorageAccessDecision
unfolding user_access
decide_storage_object_access preset (platform_user _ _) op exists object_owner =
    decision true true none
decide_storage_object_access preset (apikey _) op exists object_owner =
    access_error "PROJECT_ACTOR_REQUIRED" 403
decide_storage_object_access preset (project_user _ uid) op exists object_owner =
    user_access preset uid op exists (opt_is object_owner uid)

abbrev filter_for : StorageProjectUserAccess → StorageActor → Option String
filter_for owner_only (project_user _ uid) = some uid
filter_for _ _ = none

-- The call of the decision is made for the error that it throws.
unfoldable pub storage_owner_filter :
    StorageProjectUserAccess → StorageActor → Result StorageAccessError (Option String)
unfolding decide_storage_object_access
storage_owner_filter preset (platform_user _ _) = ok none
storage_owner_filter preset (apikey pid) =
    decide_storage_object_access preset (apikey pid) read false none >>= λ _.
    ok (filter_for preset (apikey pid))
storage_owner_filter admin_only (project_user pid uid) =
    decide_storage_object_access admin_only (project_user pid uid) read false none >>= λ _.
    ok (filter_for admin_only (project_user pid uid))
storage_owner_filter preset (project_user pid uid) = ok (filter_for preset (project_user pid uid))
