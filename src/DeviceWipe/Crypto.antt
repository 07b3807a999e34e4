-- ===== src/DeviceWipe/Crypto.antt =====
-- apps/api/src/modules/project-auth/project-device-wipe.crypto.ts: the derived identifiers and the
-- commands. HMAC-SHA-256, SHA-256 and signatures are Node's, parameters.
use druvia.Prelude.{
  ℕ, ◌==◌, leb, ltb, String, str_eq, if◌then◌else◌, Bool, true, false, not, ◌&&◌, ◌||◌, Option,
  none, some, List, [], ◌∷◌, Result, ok, ◌>>◌, guard, all, length,
}
use druvia.Prelude.Codes.{Text, codes, is_hex_sha256}
use Prim.Native.String
use druvia.DeviceWipe.Tables.{
  WipeError, other, WipeScope, account, session, CommandScope, whole_account, one_session,
  DeviceWipeCommand,
}

-- The two secrets of the configuration.
pub record Secrets : Type 0 where
  pub binding_secret : String
  pub credential_secret : String

-- [A-Za-z0-9_-]
is_base64url_char : ℕ → Bool
is_base64url_char c =
    (leb 0x41 c && leb c 0x5a)
    || ((leb 0x61 c && leb c 0x7a) || ((leb 0x30 c && leb c 0x39) || (c == 0x5f || c == 0x2d)))

-- FINGERPRINT_PATTERN
pub is_fingerprint : Text → Bool
unfolding is_base64url_char
is_fingerprint cs = length cs == 43 && all is_base64url_char cs

-- /^[A-Za-z0-9_-]+$/
pub is_project_id : Text → Bool
unfolding is_base64url_char
is_project_id cs = ltb 0 (length cs) && all is_base64url_char cs

-- [0-9a-f] with the flag i
is_hex : ℕ → Bool
is_hex c = (leb 0x30 c && leb c 0x39) || ((leb 0x61 c && leb c 0x66) || (leb 0x41 c && leb c 0x46))

-- [1-5]
is_version : ℕ → Bool
is_version c = leb 0x31 c && leb c 0x35

-- [89ab] with the flag i
is_variant : ℕ → Bool
is_variant c = (c == 0x38 || c == 0x39) || ((c == 0x61 || c == 0x62) || (c == 0x41 || c == 0x42))

is_dash : ℕ → Bool
is_dash c = c == 0x2d

matches_classes : List (ℕ → Bool) → Text → Bool
matches_classes [] [] = true
matches_classes [] (c ∷ cs) = false
matches_classes (p ∷ ps) [] = false
matches_classes (p ∷ ps) (c ∷ cs) = p c && matches_classes ps cs

-- UUID_PATTERN
uuid_classes : List (ℕ → Bool)
unfolding is_hex is_version is_variant is_dash
uuid_classes =
    is_hex ∷ is_hex ∷ is_hex ∷ is_hex ∷ is_hex ∷ is_hex ∷ is_hex ∷ is_hex ∷ is_dash ∷ is_hex
    ∷ is_hex ∷ is_hex ∷ is_hex ∷ is_dash ∷ is_version ∷ is_hex ∷ is_hex ∷ is_hex ∷ is_dash
    ∷ is_variant ∷ is_hex ∷ is_hex ∷ is_hex ∷ is_dash ∷ is_hex ∷ is_hex ∷ is_hex ∷ is_hex ∷ is_hex
    ∷ is_hex ∷ is_hex ∷ is_hex ∷ is_hex ∷ is_hex ∷ is_hex ∷ is_hex ∷ []

pub is_uuid : String → Bool
unfolding matches_classes uuid_classes codes
is_uuid s = matches_classes uuid_classes (codes s)

-- `hmac secret domain parts` is the HMAC of the domain and the parts, in base64url.
module _ (hmac : String → String → List String → String) (sha256 : String → String) where
  unfoldable pub derive_binding_secret_verification : String → String
  derive_binding_secret_verification secret = hmac secret "secret-verification:binding" []

  unfoldable pub derive_credential_secret_verification : String → String
  derive_credential_secret_verification secret = hmac secret "secret-verification:credential" []

  unfoldable pub derive_project_user_fingerprint : String → String → String → String
  derive_project_user_fingerprint secret project_id user_id =
      hmac secret "project-user" (project_id ∷ user_id ∷ [])

  unfoldable pub derive_binding_identity_hmac : String → String → String → String
  derive_binding_identity_hmac secret project_id identity =
      hmac secret "binding-identity" (project_id ∷ identity ∷ [])

  unfoldable pub derive_binding_lookup_token : String → String → String → String
  derive_binding_lookup_token secret project_id binding_id =
      hmac secret "binding-lookup-token" (project_id ∷ binding_id ∷ [])

  unfoldable pub derive_binding_handle : String → String → String → String
  derive_binding_handle secret project_id binding_id =
      String.◌++◌ "dwb_"
        (String.slice (hmac secret "binding-handle" (project_id ∷ binding_id ∷ [])) 0 32)

  unfoldable pub verify_binding_lookup_token : String → String → Bool
  unfolding is_fingerprint is_hex_sha256 codes
  verify_binding_lookup_token token expected =
      if not (is_fingerprint (codes token)) || not (is_hex_sha256 (codes expected))
      then false
      else str_eq (sha256 token) expected

-- The guard on the session id, by the scope.
scope_valid : WipeScope → Option String → Bool
unfolding is_uuid
scope_valid account none = true
scope_valid account (some id) = false
scope_valid session none = false
scope_valid session (some id) = is_uuid id

command_scope : WipeScope → Option String → CommandScope
command_scope session (some id) = one_session id
command_scope _ _ = whole_account

-- Number.MAX_SAFE_INTEGER
abbrev max_safe_integer : ℕ
max_safe_integer = 9007199254740991

unfoldable pub build_device_wipe_command :
    String
    → String
    → String
    → String
    → ℕ
    → WipeScope
    → Option String
    → Result WipeError DeviceWipeCommand
unfolding is_uuid is_project_id is_fingerprint scope_valid command_scope codes
build_device_wipe_command deletion_id project_id fingerprint identity revision scope session_id =
    guard (is_uuid deletion_id) other
    >> (guard (is_project_id (codes project_id)) other
        >> (guard (is_fingerprint (codes fingerprint)) other
            >> (guard (is_fingerprint (codes identity)) other
                >> (guard (leb revision max_safe_integer && ltb 0 revision) other
                    >> (guard (scope_valid scope session_id) other
                        >> ok record {
                          deletion_id = deletion_id;
                          project_id = project_id;
                          project_user_fingerprint = fingerprint;
                          binding_identity_hmac = identity;
                          binding_revision = revision;
                          scope = command_scope scope session_id;
                        })))))
