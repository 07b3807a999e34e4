-- ===== src/Updater/Manifest.antt =====
-- apps/updater/src/manifest.ts: the check of a release manifest. An error is the code of its
-- UpdateManifestError. The parser of URLs, trim, toLowerCase, Date.parse and the rounding of
-- `Number` are the runtime's, parameters.
pub mod Accepted
pub mod Again
pub mod Applied
mod Examples
use druvia.Prelude.{
  ℕ, ◌==◌, leb, ltb, String, str_eq, includes, if◌then◌else◌, Bool, true, false, not, ◌&&◌, ◌||◌,
  Option, none, some, List, [], ◌∷◌, ◌++◌, Result, ok, err, ◌>>=◌, ◌>>◌, guard, required, map,
  select, all, length,
}
use druvia.Prelude.Json.{Json, is_record, as_record, as_text, as_number, as_boolean, property}
use druvia.Prelude.Codes.{Text, codes, is_hex_sha256}
use druvia.Updater.Status.{
  DruviaReleaseChannel, stable, beta, nightly, DruviaReleaseImage, Migrations,
  DruviaReleaseManifest,
}
use druvia.Updater.Semver.{Sign, is_greater, compare_semver}

pub record ValidateReleaseManifestOptions : Type 0 where
  pub current_version : String
  pub channel : DruviaReleaseChannel
  pub current_updater_version : String
  pub allowed_hosts : List String

drop_prefix : Text → Text → Option Text
drop_prefix [] cs = some cs
drop_prefix (p ∷ ps) [] = none
drop_prefix (p ∷ ps) (c ∷ cs) = let rest = drop_prefix ps cs in if p == c then rest else none

-- /^sha256:[a-f0-9]{64}$/
pub is_sha256 : Text → Bool
unfolding is_hex_sha256 drop_prefix codes
is_sha256 cs = elim (drop_prefix (codes "sha256:") cs) [
  | none ↦ false
  | some digest ↦ is_hex_sha256 digest
]

pub verify_sha256 : (String → String) → String → String → Bool
unfolding is_hex_sha256 codes
verify_sha256 sha256 payload expected =
    if not (is_hex_sha256 (codes expected)) then false else str_eq (sha256 payload) expected

pub channel_of : Option String → Option DruviaReleaseChannel
channel_of none = none
channel_of (some name) =
    if str_eq name "stable"
    then some stable
    else if str_eq name "beta"
    then some beta
    else if str_eq name "nightly"
    then some nightly
    else none

pub channel_eq : DruviaReleaseChannel → DruviaReleaseChannel → Bool
channel_eq stable stable = true
channel_eq beta beta = true
channel_eq nightly nightly = true
channel_eq _ _ = false

-- typeof value === 'string' && value.length > 0
pub nonempty_text : Option Json → Option String
unfolding as_text
nonempty_text value = elim (as_text value) [
  | none ↦ none
  | some s ↦ if str_eq s "" then none else some s
]

pub digest_text : Option Json → Option String
unfolding as_text is_sha256 codes
digest_text value = elim (as_text value) [
  | none ↦ none
  | some s ↦ if is_sha256 (codes s) then some s else none
]

pub validate_image : Option Json → Result String DruviaReleaseImage
unfolding nonempty_text digest_text as_record property
validate_image value = do
  image ← required (as_record value) "INVALID_IMAGE"
  repository ← required (nonempty_text (property "repository" image)) "INVALID_IMAGE_REPOSITORY"
  tag ← required (nonempty_text (property "tag" image)) "INVALID_IMAGE_TAG"
  digest ← required (digest_text (property "digest" image)) "INVALID_IMAGE_DIGEST"
  ok record { repository = repository; tag = tag; digest = digest }

pub record Images : Type 0 where
  pub api : DruviaReleaseImage
  pub admin : DruviaReleaseImage
  pub worker : DruviaReleaseImage
  pub updater : DruviaReleaseImage

pub validate_images : Json → Result String Images
unfolding validate_image as_record property
validate_images input = do
  images ← required (as_record (property "images" input)) "INVALID_IMAGES"
  api ← validate_image (property "api" images)
  admin ← validate_image (property "admin" images)
  worker ← validate_image (property "worker" images)
  updater ← validate_image (property "updater" images)
  ok record { api = api; admin = admin; worker = worker; updater = updater }

-- A type that is wrong and a range that is empty give the same error.
pub validate_migrations : Json → Result String Migrations
unfolding as_record as_boolean as_number property
validate_migrations input = do
  block ← required (as_record (property "migrations" input)) "INVALID_MIGRATIONS"
  needed ← required (as_boolean (property "required" block)) "INVALID_MIGRATIONS"
  from ← required (as_number (property "from" block)) "INVALID_MIGRATIONS"
  to ← required (as_number (property "to" block)) "INVALID_MIGRATIONS"
  backup ← required (as_boolean (property "requiresBackup" block)) "INVALID_MIGRATIONS"
  reversible ← required (as_boolean (property "reversible" block)) "INVALID_MIGRATIONS"
  guard (not (ltb to from)) "INVALID_MIGRATIONS"
  ok record {
    required = needed;
    from = from;
    to = to;
    requires_backup = backup;
    reversible = reversible;
  }

pub record Identity : Type 0 where
  pub version : String
  pub channel : DruviaReleaseChannel
  pub min_updater_version : String
  pub created_at : String

pub record Assets : Type 0 where
  pub release_notes_url : String
  pub compose_url : String
  pub compose_sha256 : String

-- `host_of` is the host name of a text that is a URL; `is_date` says that Date.parse gives a time.
module _ (to_double : ℕ → ℕ) (host_of : String → Option String) (trim lower : String → String)
    (is_date : String → Bool) where
  pub normalized_hosts : List String → List String
  normalized_hosts hosts =
      select (λ host. not (str_eq host "")) (map (λ host. lower (trim host)) hosts)

  -- What it returns in the source, the URL, is not used; here it is the host.
  pub validate_allowed_release_url : String → List String → Result String String
  unfolding normalized_hosts
  validate_allowed_release_url url hosts = do
    host ← required (host_of url) "INVALID_RELEASE_URL"
    guard (includes (normalized_hosts hosts) (lower host)) "DISALLOWED_RELEASE_HOST"
    ok host

  dated : Option Json → Option String
  unfolding as_text
  dated value = elim (as_text value) [ none ↦ none | some s ↦ if is_date s then some s else none ]

  -- The guards up to that of `createdAt`.
  pub validate_identity : Json → ValidateReleaseManifestOptions → Result String Identity
  unfolding as_text as_number property is_record dated channel_of channel_eq
  validate_identity input options = do
    guard (is_record input) "INVALID_MANIFEST"
    schema_version ← required (as_number (property "schemaVersion" input)) "INVALID_SCHEMA_VERSION"
    guard (schema_version == 1) "INVALID_SCHEMA_VERSION"
    product ← required (as_text (property "product" input)) "INVALID_PRODUCT"
    guard (str_eq product "druvia") "INVALID_PRODUCT"
    version ← required (as_text (property "version" input)) "INVALID_VERSION"
    sign ← compare_semver to_double version options.current_version
    guard (is_greater sign) "NO_UPDATE_AVAILABLE"
    channel ← required (channel_of (as_text (property "channel" input))) "INVALID_CHANNEL"
    guard (channel_eq channel options.channel) "CHANNEL_MISMATCH"
    min ← required (as_text (property "minUpdaterVersion" input)) "INVALID_MIN_UPDATER_VERSION"
    needed ← compare_semver to_double min options.current_updater_version
    guard (not (is_greater needed)) "UPDATER_TOO_OLD"
    created_at ← required (dated (property "createdAt" input)) "INVALID_CREATED_AT"
    ok record {
      version = version;
      channel = channel;
      min_updater_version = min;
      created_at = created_at;
    }

  -- The guards of the release notes and of the compose file.
  pub validate_assets : Json → ValidateReleaseManifestOptions → Result String Assets
  unfolding as_text as_record property validate_allowed_release_url is_hex_sha256 codes
  validate_assets input options = do
    notes ← required (as_text (property "releaseNotesUrl" input)) "INVALID_RELEASE_NOTES_URL"
    notes_host ← validate_allowed_release_url notes options.allowed_hosts
    compose ← required (as_record (property "compose" input)) "INVALID_COMPOSE"
    url ← required (as_text (property "url" compose)) "INVALID_COMPOSE"
    sha256 ← required (as_text (property "sha256" compose)) "INVALID_COMPOSE"
    compose_host ← validate_allowed_release_url url options.allowed_hosts
    guard (is_hex_sha256 (codes sha256)) "INVALID_COMPOSE_SHA256"
    ok record { release_notes_url = notes; compose_url = url; compose_sha256 = sha256 }

  pub validate_release_manifest :
      Json → ValidateReleaseManifestOptions → Result String DruviaReleaseManifest
  unfolding validate_identity validate_assets validate_images validate_migrations
  validate_release_manifest input options = do
    identity ← validate_identity input options
    assets ← validate_assets input options
    images ← validate_images input
    migrations ← validate_migrations input
    ok record {
      version = identity.version;
      channel = identity.channel;
      created_at = identity.created_at;
      min_updater_version = identity.min_updater_version;
      release_notes_url = assets.release_notes_url;
      compose_url = assets.compose_url;
      compose_sha256 = assets.compose_sha256;
      api = images.api;
      admin = images.admin;
      worker = images.worker;
      updater = images.updater;
      migrations = migrations;
    }
