-- ===== src/Updater/Manifest/Accepted.antt =====
-- apps/updater/src/manifest.ts: which manifests are accepted.
use druvia.Prelude.{
  after_bind, after_required, after_guard, ℕ, ◌==◌, String, str_eq, includes, Bool, true, false,
  not, ◌≡◌, subst, Option, some, Result, ok, arith, ◌≤◌, List,
}
use druvia.Prelude.Json.{Json, as_record, as_text, as_number, as_boolean, is_record, property}
use druvia.Prelude.Codes.{codes, is_hex_sha256}
use druvia.Updater.Status.{
  DruviaReleaseChannel, DruviaReleaseImage, Migrations, DruviaReleaseManifest,
}
use druvia.Updater.Semver.{Sign, greater, is_greater, compare_semver}
use druvia.Updater.Manifest.{
  ValidateReleaseManifestOptions, Images, Identity, Assets, is_sha256, channel_of, channel_eq,
  nonempty_text, digest_text, validate_image, validate_images, validate_migrations,
  normalized_hosts, validate_allowed_release_url, dated, validate_identity, validate_assets,
  validate_release_manifest,
}

result_eq : {A : Type 0} {a b : A} → ◌≡◌ {A = Result String A} (ok a) (ok b) → a ≡ b
result_eq h = cc

abbrev pub IsImage : DruviaReleaseImage → Type 0
IsImage image =
    (str_eq image.repository "" ≡ false)
    × (str_eq image.tag "" ≡ false)
    × (is_sha256 (codes image.digest) ≡ true)

nonempty_text-some :
    (value : Option Json) (s : String) → nonempty_text value ≡ some s → str_eq s "" ≡ false
unfolding nonempty_text
nonempty_text-some value s h = ground arith

digest_text-some :
    (value : Option Json) (s : String) → digest_text value ≡ some s → is_sha256 (codes s) ≡ true
unfolding digest_text
digest_text-some value s h = ground arith

validate_image-IsImage :
    (value : Option Json) (image : DruviaReleaseImage)
    → validate_image value ≡ ok image
    → IsImage image
unfolding validate_image
validate_image-IsImage value image h = after_required (as_record value) _ h λ fields e h0.
    after_required (nonempty_text (property "repository" fields)) _ h0 λ repository named h1.
      after_required (nonempty_text (property "tag" fields)) _ h1 λ tag tagged h2.
        after_required (digest_text (property "digest" fields)) _ h2 λ digest hashed h3. grind (
          arith,
          nonempty_text-some (property "repository" fields) repository named,
          nonempty_text-some (property "tag" fields) tag tagged,
          digest_text-some (property "digest" fields) digest hashed,
        )

abbrev pub IsMigrations : Migrations → Type 0
IsMigrations block = block.from ≤ block.to

accepted_images :
    (input : Json) (images : Images)
    → validate_images input ≡ ok images
    → IsImage images.api × IsImage images.admin × IsImage images.worker × IsImage images.updater
unfolding validate_images
accepted_images input images h =
    after_required (as_record (property "images" input)) _ h λ blocks e h0.
      after_bind (validate_image (property "api" blocks)) h0 λ api h1 g1.
        after_bind (validate_image (property "admin" blocks)) g1 λ admin h2 g2.
          after_bind (validate_image (property "worker" blocks)) g2 λ worker h3 g3.
            after_bind (validate_image (property "updater" blocks)) g3 λ updater h4 g4. grind (
              arith,
              validate_image-IsImage (property "api" blocks) api h1,
              validate_image-IsImage (property "admin" blocks) admin h2,
              validate_image-IsImage (property "worker" blocks) worker h3,
              validate_image-IsImage (property "updater" blocks) updater h4,
            )

validate_migrations-IsMigrations :
    (input : Json) (block : Migrations) → validate_migrations input ≡ ok block → IsMigrations block
unfolding validate_migrations
validate_migrations-IsMigrations input block h =
    after_required (as_record (property "migrations" input)) _ h λ fields e h0.
      after_required (as_boolean (property "required" fields)) _ h0 λ needed e h1.
        after_required (as_number (property "from" fields)) _ h1 λ from e h2.
          after_required (as_number (property "to" fields)) _ h2 λ to e h3.
            after_required (as_boolean (property "requiresBackup" fields)) _ h3 λ backup e h4.
              after_required (as_boolean (property "reversible" fields)) _ h4
                λ back e h5. ground arith

channel_eq-true : (a b : DruviaReleaseChannel) → channel_eq a b ≡ true → a ≡ b
unfolding channel_eq
channel_eq-true a b h = ground arith

module _ (to_double : ℕ → ℕ) (host_of : String → Option String) (trim lower : String → String)
    (is_date : String → Bool) where
  -- The host of a URL is among the allowed ones.
  pub data IsAllowedUrl (hosts : List String) (url : String) : Type 0 where
    allowed_url :
        (host : String)
        → host_of url ≡ some host
        → includes (normalized_hosts to_double host_of trim lower is_date hosts) (lower host) ≡ true
        → IsAllowedUrl hosts url

  -- What an accepted manifest is for the options.
  pub record IsAccepted (options : ValidateReleaseManifestOptions) (m : DruviaReleaseManifest)
      : Type 0 where
    pub newer : compare_semver to_double m.version options.current_version ≡ ok greater
    pub same_channel : m.channel ≡ options.channel
    pub needed : Sign
    pub needs :
        compare_semver to_double m.min_updater_version options.current_updater_version ≡ ok needed
    pub new_enough : is_greater needed ≡ false
    pub dated : is_date m.created_at ≡ true
    pub notes : IsAllowedUrl options.allowed_hosts m.release_notes_url
    pub compose : IsAllowedUrl options.allowed_hosts m.compose_url
    pub hash : is_hex_sha256 (codes m.compose_sha256) ≡ true
    pub images : IsImage m.api × IsImage m.admin × IsImage m.worker × IsImage m.updater
    pub migrations : IsMigrations m.migrations

  dated-some :
      (value : Option Json) (s : String)
      → dated to_double host_of trim lower is_date value ≡ some s
      → is_date s ≡ true
  unfolding dated
  dated-some value s h = ground arith

  accepted_url :
      (url : String) (hosts : List String) (host : String)
      → validate_allowed_release_url to_double host_of trim lower is_date url hosts ≡ ok host
      → IsAllowedUrl hosts url
  unfolding validate_allowed_release_url
  accepted_url url hosts host h =
      after_required (host_of url) _ h
        λ found e h0. after_guard _ _ h0 λ listed h1. allowed_url found e listed

  abbrev AcceptedIdentity : ValidateReleaseManifestOptions → Identity → Type 0
  AcceptedIdentity options identity =
      (compare_semver to_double identity.version options.current_version ≡ ok greater)
      × (identity.channel ≡ options.channel)
      × ((needed : Sign) × (compare_semver to_double identity.min_updater_version
              options.current_updater_version
            ≡ ok needed)
          × (is_greater needed ≡ false))
      × (is_date identity.created_at ≡ true)

  accepted_identity :
      (input : Json) (options : ValidateReleaseManifestOptions) (identity : Identity)
      → validate_identity to_double host_of trim lower is_date input options ≡ ok identity
      → AcceptedIdentity options identity
  unfolding validate_identity
  accepted_identity input options identity h = after_guard (is_record input) _ h λ e h0.
      after_required (as_number (property "schemaVersion" input)) _ h0 λ schema e h1.
        after_guard (schema == 1) _ h1 λ e h2.
          after_required (as_text (property "product" input)) _ h2 λ product e h3.
            after_guard (str_eq product "druvia") _ h3 λ e h4.
              after_required (as_text (property "version" input)) _ h4 λ version e h5.
                after_bind (compare_semver to_double version options.current_version) h5
                  λ sign compared h6. after_guard (is_greater sign) _ h6 λ is_newer h7.
                    after_required (channel_of (as_text (property "channel" input))) _ h7
                      λ channel e h8.
                        after_guard (channel_eq channel options.channel) _ h8 λ same h9.
                          after_required (as_text (property "minUpdaterVersion" input)) _ h9
                            λ min e h10.
                              after_bind
                                (compare_semver to_double min options.current_updater_version) h10
                                λ needed needs h11.
                                  after_guard (not (is_greater needed)) _ h11 λ enough h12.
                                    after_required
                                      (dated to_double host_of trim lower is_date
                                        (property "createdAt" input))
                                      _ h12
                                      λ created date h13.
                                        subst (AcceptedIdentity options) (result_eq h13) (
                                          (ground arith),
                                          channel_eq-true channel options.channel same,
                                          (needed, needs, ground arith),
                                          dated-some (property "createdAt" input) created date,
                                        )

  abbrev AcceptedAssets : ValidateReleaseManifestOptions → Assets → Type 0
  AcceptedAssets options assets =
      IsAllowedUrl options.allowed_hosts assets.release_notes_url
      × IsAllowedUrl options.allowed_hosts assets.compose_url
      × (is_hex_sha256 (codes assets.compose_sha256) ≡ true)

  accepted_assets :
      (input : Json) (options : ValidateReleaseManifestOptions) (assets : Assets)
      → validate_assets to_double host_of trim lower is_date input options ≡ ok assets
      → AcceptedAssets options assets
  unfolding validate_assets
  accepted_assets input options assets h =
      after_required (as_text (property "releaseNotesUrl" input)) _ h λ notes e h0.
        after_bind
          (validate_allowed_release_url to_double host_of trim lower is_date notes
            options.allowed_hosts)
          h0
          λ notes_host ne h1.
            after_required (as_record (property "compose" input)) _ h1 λ compose e h2.
              after_required (as_text (property "url" compose)) _ h2 λ url e h3.
                after_required (as_text (property "sha256" compose)) _ h3 λ sha e h4.
                  after_bind
                    (validate_allowed_release_url to_double host_of trim lower is_date url
                      options.allowed_hosts)
                    h4
                    λ compose_host ce h5. after_guard (is_hex_sha256 (codes sha)) _ h5 λ hex h6.
                      subst (AcceptedAssets options) (result_eq h6) (
                        accepted_url notes options.allowed_hosts notes_host ne,
                        accepted_url url options.allowed_hosts compose_host ce,
                        hex,
                      )

  -- An accepted manifest is newer than the current version, of the channel that is configured, asks
  -- for no newer updater than the current one, has a date, has its URLs on allowed hosts, has digests
  -- of the right form and images that are named, and migrates to no earlier number than it does from.
  pub validate_release_manifest-IsAccepted :
      (input : Json) (options : ValidateReleaseManifestOptions) (m : DruviaReleaseManifest)
      → validate_release_manifest to_double host_of trim lower is_date input options ≡ ok m
      → IsAccepted options m
  unfolding validate_release_manifest
  validate_release_manifest-IsAccepted input options m h =
      after_bind (validate_identity to_double host_of trim lower is_date input options) h
        λ identity ie h0.
          after_bind (validate_assets to_double host_of trim lower is_date input options) h0
            λ assets ae h1. after_bind (validate_images input) h1 λ images me h2.
              after_bind (validate_migrations input) h2 λ migrations ge h3.
                let id = accepted_identity input options identity ie in
                let files = accepted_assets input options assets ae in
                let pictures = accepted_images input images me in
                let range = validate_migrations-IsMigrations input migrations ge in
                subst (IsAccepted options) (result_eq h3) record {
                  newer = id.0;
                  same_channel = id.1;
                  needed = id.2.0;
                  needs = id.2.1;
                  new_enough = id.2.2;
                  dated = id.3;
                  notes = files.0;
                  compose = files.1;
                  hash = files.2;
                  images = pictures;
                  migrations = range;
                }
