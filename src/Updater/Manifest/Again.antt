-- ===== src/Updater/Manifest/Again.antt =====
-- apps/updater/src/manifest.ts and update-service.ts: a manifest is written as JSON when its release
-- is staged, and is checked again when the release is applied.
use druvia.Prelude.{ℕ, String, Bool, true, ◌≡◌, refl, Option, some, ok, arith}
use druvia.Prelude.Json.{
  Json, end, member, object, string, number, boolean, as_record, as_text, as_number, as_boolean,
  is_record, property, lookup_member,
}
use druvia.Updater.Status.{
  DruviaReleaseChannel, stable, beta, nightly, DruviaReleaseImage, Migrations,
  DruviaReleaseManifest,
}
use druvia.Updater.Manifest.{
  ValidateReleaseManifestOptions, channel_of, channel_eq, nonempty_text, digest_text,
  validate_image, validate_images, validate_migrations, validate_allowed_release_url, dated,
  validate_identity, validate_assets, validate_release_manifest,
}
use druvia.Updater.Manifest.Accepted.{IsImage, IsMigrations, IsAllowedUrl, allowed_url, IsAccepted}

unfoldable pub channel_name : DruviaReleaseChannel → String
channel_name stable = "stable"
channel_name beta = "beta"
channel_name nightly = "nightly"

-- JSON.stringify of an image.
unfoldable pub image_json : DruviaReleaseImage → Json
image_json image = object (
    member "repository" (string image.repository)
      (member "tag" (string image.tag) (member "digest" (string image.digest) end)))

unfoldable pub migrations_json : Migrations → Json
migrations_json block = object (
    member "required" (boolean block.required) (
      member "from" (number block.from) (
        member "to" (number block.to) (
          member "requiresBackup" (boolean block.requires_backup)
            (member "reversible" (boolean block.reversible) end)))))

-- JSON.stringify of a manifest.
unfoldable pub manifest_json : DruviaReleaseManifest → Json
unfolding channel_name image_json migrations_json
manifest_json m = object (
    member "schemaVersion" (number 1) (
      member "product" (string "druvia") (
        member "version" (string m.version) (
          member "channel" (string (channel_name m.channel)) (
            member "createdAt" (string m.created_at) (
              member "minUpdaterVersion" (string m.min_updater_version) (
                member "releaseNotesUrl" (string m.release_notes_url) (
                  member "compose"
                    (object (
                      member "url" (string m.compose_url)
                        (member "sha256" (string m.compose_sha256) end)))
                    (member "images"
                      (object (
                        member "api" (image_json m.api) (
                          member "admin" (image_json m.admin) (
                            member "worker" (image_json m.worker)
                              (member "updater" (image_json m.updater) end)))))
                      (member "migrations" (migrations_json m.migrations) end))))))))))

image_again :
    (image : DruviaReleaseImage)
    → IsImage image
    → validate_image (some (image_json image)) ≡ ok image
unfolding validate_image nonempty_text digest_text image_json as_record is_record property
    lookup_member as_text
image_again image h = ground arith

channel_of-name :
    (channel : DruviaReleaseChannel) → channel_of (some (channel_name channel)) ≡ some channel
unfolding channel_of channel_name
channel_of-name stable = refl
channel_of-name beta = refl
channel_of-name nightly = refl

channel_eq_self : (a : DruviaReleaseChannel) → channel_eq a a ≡ true
unfolding channel_eq
channel_eq_self a = ground arith

images_again :
    (m : DruviaReleaseManifest)
    → IsImage m.api × IsImage m.admin × IsImage m.worker × IsImage m.updater
    → validate_images (manifest_json m)
      ≡ ok record { api = m.api; admin = m.admin; worker = m.worker; updater = m.updater }
unfolding validate_images manifest_json as_record is_record property lookup_member
images_again m h = ground (
  arith,
  image_again m.api h.0,
  image_again m.admin h.1,
  image_again m.worker h.2,
  image_again m.updater h.3,
)

migrations_again :
    (m : DruviaReleaseManifest)
    → IsMigrations m.migrations
    → validate_migrations (manifest_json m) ≡ ok m.migrations
unfolding validate_migrations manifest_json migrations_json as_record is_record as_boolean as_number
    property lookup_member
migrations_again m h = ground arith

module _ (to_double : ℕ → ℕ) (host_of : String → Option String) (trim lower : String → String)
    (is_date : String → Bool) (options : ValidateReleaseManifestOptions) where
  url_again :
      (url : String)
      → IsAllowedUrl to_double host_of trim lower is_date options.allowed_hosts url
      → (host : String) × (validate_allowed_release_url to_double host_of trim lower is_date url
            options.allowed_hosts
          ≡ ok host)
  unfolding validate_allowed_release_url
  url_again url (allowed_url host found listed) = (host, ground arith)

  identity_again :
      (m : DruviaReleaseManifest)
      → IsAccepted to_double host_of trim lower is_date options m
      → validate_identity to_double host_of trim lower is_date (manifest_json m) options
        ≡ ok record {
          version = m.version;
          channel = m.channel;
          min_updater_version = m.min_updater_version;
          created_at = m.created_at;
        }
  unfolding validate_identity manifest_json as_text as_number is_record property lookup_member dated
  identity_again m accepted = ground (
    arith,
    accepted.newer,
    accepted.same_channel,
    accepted.needs,
    accepted.new_enough,
    accepted.dated,
    channel_of-name m.channel,
    channel_eq_self options.channel,
  )

  assets_again :
      (m : DruviaReleaseManifest)
      → IsAccepted to_double host_of trim lower is_date options m
      → validate_assets to_double host_of trim lower is_date (manifest_json m) options
        ≡ ok record {
          release_notes_url = m.release_notes_url;
          compose_url = m.compose_url;
          compose_sha256 = m.compose_sha256;
        }
  unfolding validate_assets manifest_json as_record as_text is_record property lookup_member
  assets_again m accepted =
      let (notes, e) = url_again m.release_notes_url accepted.notes in
      let (compose, f) = url_again m.compose_url accepted.compose in
      ground (arith, e, f, accepted.hash)

  -- A manifest that is accepted for some options is, written as JSON and read, accepted for them,
  -- unchanged.
  pub validate_release_manifest-manifest_json :
      (m : DruviaReleaseManifest)
      → IsAccepted to_double host_of trim lower is_date options m
      → validate_release_manifest to_double host_of trim lower is_date (manifest_json m) options
        ≡ ok m
  unfolding validate_release_manifest
  validate_release_manifest-manifest_json m accepted = ground (
    arith,
    identity_again m accepted,
    assets_again m accepted,
    images_again m accepted.images,
    migrations_again m accepted.migrations,
  )
