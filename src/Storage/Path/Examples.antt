-- ===== src/Storage/Path/Examples.antt =====
-- Object paths and LIKE patterns of storage-path.ts, on examples. The normal form of an ASCII text
-- is the text.
use druvia.Prelude.{◌≡◌, refl, ok, [], ◌∷◌}
use druvia.Storage.Path.{
  Text, normalize_storage_object_path, normalize_separators, check_object, assert_length,
  assert_segments, is_empty, replace_backslashes, drop_slashes, has_control, is_control,
  has_double_slash, starts_slash, ends_slash, split_slash, push_first, drop_last_empty,
  is_dot_segment, storage_like_prefix,
}
use druvia.Storage.Path.Safety.{
  IsNfc, IsSafePath, normalize_storage_object_path-IsSafePath,
  normalize_storage_object_path_idempotent,
}
use druvia.Storage.Path.Like.{like, starts_with, like-storage_like_prefix}

abbrev same : Text → Text
same w = w

same-IsNfc : IsNfc same
same-IsNfc = record { idempotent = λ w. refl; start = λ w h. h; no_backslash = λ w h. h }

-- "\a\b" and "a/b"
abbrev given : Text
given = 0x5c ∷ 0x61 ∷ 0x5c ∷ 0x62 ∷ []

abbrev stored : Text
stored = 0x61 ∷ 0x2f ∷ 0x62 ∷ []

accepted : normalize_storage_object_path same given ≡ ok stored
unfolding normalize_storage_object_path normalize_separators check_object assert_length
    assert_segments is_empty replace_backslashes drop_slashes has_control is_control
    has_double_slash starts_slash ends_slash split_slash push_first drop_last_empty is_dot_segment
accepted = refl

normalize_storage_object_path-IsSafePath_example : IsSafePath stored
normalize_storage_object_path-IsSafePath_example =
    normalize_storage_object_path-IsSafePath same same-IsNfc given stored accepted

normalize_storage_object_path_idempotent_example :
    normalize_storage_object_path same stored ≡ ok stored
normalize_storage_object_path_idempotent_example =
    normalize_storage_object_path_idempotent same same-IsNfc given stored accepted

like-storage_like_prefix_example :
    like (storage_like_prefix (0x25 ∷ 0x61 ∷ [])) stored ≡ starts_with (0x25 ∷ 0x61 ∷ []) stored
like-storage_like_prefix_example = like-storage_like_prefix (0x25 ∷ 0x61 ∷ []) stored
