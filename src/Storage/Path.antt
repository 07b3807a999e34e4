-- ===== src/Storage/Path.antt =====
-- apps/api/src/modules/storage/storage-path.ts. A string is the list of its UTF-16 code units, as
-- the source's `length` counts them; NFC is the runtime's, a parameter.
pub mod Segments
pub mod Safety
pub mod Like
mod Examples
use druvia.Prelude.{
  ℕ, ◌==◌, ltb, leb, if◌then◌else◌, Bool, true, false, ◌&&◌, ◌||◌, not, List, [], ◌∷◌, ◌++◌, Option,
  none, some, Result, ok, err, ◌>>=◌, ◌>>◌, guard, length, any,
}

abbrev pub Text : Type 0
Text = List ℕ

-- The messages of `StoragePathError`.
pub data StoragePathError : Type 0 where
  too_long control_character empty_segment trailing_slash dot_segment : StoragePathError
  object_path_required prefix_required : StoragePathError

abbrev pub slash : ℕ
slash = 0x2f

abbrev pub backslash : ℕ
backslash = 0x5c

abbrev pub dot : ℕ
dot = 0x2e

-- value.replace(/\\/g, '/')
replace_backslashes : Text → Text
replace_backslashes [] = []
replace_backslashes (c ∷ cs) = (if c == backslash then slash else c) ∷ replace_backslashes cs

-- .replace(/^\/+/, '')
drop_slashes : Text → Text
drop_slashes [] = []
drop_slashes (c ∷ cs) = let rest = drop_slashes cs in if c == slash then rest else c ∷ cs

-- /\p{Cc}/u: the two ranges of control characters, which no surrogate meets.
pub is_control : ℕ → Bool
is_control c = ltb c 0x20 || (leb 0x7f c && leb c 0x9f)

pub has_control : Text → Bool
unfolding is_control
has_control cs = any is_control cs

pub starts_slash : Text → Bool
starts_slash [] = false
starts_slash (c ∷ cs) = c == slash

-- value.includes('//')
pub has_double_slash : Text → Bool
unfolding starts_slash
has_double_slash [] = false
has_double_slash (c ∷ cs) = (c == slash && starts_slash cs) || has_double_slash cs

-- value.endsWith('/')
pub ends_slash : Text → Bool
ends_slash [] = false
ends_slash (c ∷ []) = c == slash
ends_slash (c ∷ cs) = ends_slash cs

push_first : ℕ → List Text → List Text
push_first c [] = (c ∷ []) ∷ []
push_first c (s ∷ ss) = (c ∷ s) ∷ ss

-- value.split('/')
pub split_slash : Text → List Text
unfolding push_first
split_slash [] = [] ∷ []
split_slash (c ∷ cs) =
    let rest = split_slash cs in if c == slash then [] ∷ rest else push_first c rest

-- segments.at(-1) === '' ? segments.slice(0, -1) : segments
drop_last_empty : List Text → List Text
drop_last_empty [] = []
drop_last_empty ([] ∷ []) = []
drop_last_empty (s ∷ []) = s ∷ []
drop_last_empty (s ∷ ss) = s ∷ drop_last_empty ss

pub is_dot_segment : Text → Bool
is_dot_segment (c ∷ []) = c == dot
is_dot_segment (c ∷ d ∷ []) = c == dot && d == dot
is_dot_segment _ = false

assert_length : Text → Result StoragePathError (Unit {0})
assert_length v = if ltb 1024 (length v) then err too_long else ok tt

assert_segments : Text → Bool → Result StoragePathError (Unit {0})
unfolding has_control has_double_slash ends_slash split_slash drop_last_empty is_dot_segment
assert_segments v allow_trailing =
    if has_control v
    then err control_character
    else if has_double_slash v
    then err empty_segment
    else if not allow_trailing && ends_slash v
    then err trailing_slash
    else if any is_dot_segment
        (if allow_trailing then drop_last_empty (split_slash v) else split_slash v)
    then err dot_segment
    else ok tt

is_empty : Text → Bool
is_empty [] = true
is_empty (_ ∷ _) = false

-- `normalizeStorageObjectPath` after the separators.
check_object : Text → Result StoragePathError Text
unfolding assert_length assert_segments is_empty
check_object normalized = do
  assert_length normalized
  if is_empty normalized
      then err object_path_required
      else do assert_segments normalized false; ok normalized

with_slash : Text → Result StoragePathError Text
with_slash normalized =
    if is_empty normalized
    then err prefix_required
    else if ends_slash normalized
    then ok normalized
    else ok (normalized ++ slash ∷ [])

module _ (nfc : Text → Text) where
  normalize_separators : Text → Text
  unfolding replace_backslashes drop_slashes
  normalize_separators v = nfc (drop_slashes (replace_backslashes v))

  pub normalize_storage_object_path : Text → Result StoragePathError Text
  unfolding check_object normalize_separators
  normalize_storage_object_path v = check_object (normalize_separators v)

  pub normalize_storage_path_prefix : Text → Result StoragePathError Text
  unfolding assert_length assert_segments is_empty normalize_separators
  normalize_storage_path_prefix v = do
    let normalized = normalize_separators v
    assert_length normalized
    if is_empty normalized then ok [] else do assert_segments normalized true; ok normalized

  pub normalize_trusted_storage_path_prefix : Text → Result StoragePathError Text
  unfolding normalize_storage_path_prefix with_slash
  normalize_trusted_storage_path_prefix v = do
    normalized ← normalize_storage_path_prefix v
    with_slash normalized

-- prefix.replace(/[\\%_]/g, …) with a percent sign at the end
is_like_special : ℕ → Bool
is_like_special c = c == backslash || (c == 0x25 || c == 0x5f)

escape_like : Text → Text
unfolding is_like_special
escape_like [] = []
escape_like (c ∷ cs) =
    let rest = escape_like cs in if is_like_special c then backslash ∷ c ∷ rest else c ∷ rest

pub storage_like_prefix : Text → Text
unfolding escape_like
storage_like_prefix prefix = escape_like prefix ++ 0x25 ∷ []
