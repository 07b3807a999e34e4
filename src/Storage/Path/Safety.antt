-- ===== src/Storage/Path/Safety.antt =====
-- What an accepted object path looks like, and that accepting it again changes nothing.
use druvia.Prelude.{
  ◌==◌, ◌≤◌, ◌≡◌, ◌≢◌, refl, ap, ◌∙◌, inl, inr, false, [], ◌∷◌, All, any, arith, Bool-cases, length,
  ok,
}
use druvia.Storage.Path.{
  Text, slash, backslash, replace_backslashes, drop_slashes, split_slash, has_double_slash,
  starts_slash, ends_slash, is_dot_segment, has_control, normalize_separators,
  normalize_storage_object_path, check_object,
}
use druvia.Storage.Path.Segments.{IsPlain, split_slash-IsPlain}

-- What the code relies on of NFC: it is idempotent, and it makes no backslash and no slash at the
-- start where there was none.
pub record IsNfc (nfc : Text → Text) : Type 0 where
  pub idempotent : (w : Text) → nfc (nfc w) ≡ nfc w
  pub start : (w : Text) → starts_slash w ≡ false → starts_slash (nfc w) ≡ false
  pub no_backslash : (w : Text) → All (λ c. c ≢ backslash) w → All (λ c. c ≢ backslash) (nfc w)

pub record IsSafePath (p : Text) : Type 0 where
  pub bounded : length p ≤ 1024
  pub printable : has_control p ≡ false
  pub relative : starts_slash p ≡ false
  pub no_backslash : All (λ c. c ≢ backslash) p
  pub plain : All IsPlain (split_slash p)

replaced : (v : Text) → All (λ c. c ≢ backslash) (replace_backslashes v)
unfolding replace_backslashes
replaced [] = tt
replaced (c ∷ v) = (ground arith, replaced v)

dropped : (v : Text) → starts_slash (drop_slashes v) ≡ false
unfolding drop_slashes starts_slash
dropped [] = refl
dropped (c ∷ v) = ground (arith, dropped v)

drop_slashes-All :
    (v : Text) → All (λ c. c ≢ backslash) v → All (λ c. c ≢ backslash) (drop_slashes v)
unfolding drop_slashes
drop_slashes-All [] h = tt
drop_slashes-All (c ∷ v) (h, hs) = elim (Bool-cases (c == slash)) [
  | inl same ↦ rw same (drop_slashes-All v hs)
  | inr other ↦ rw other (h, hs)
]

replace_backslashes-id : (v : Text) → All (λ c. c ≢ backslash) v → replace_backslashes v ≡ v
unfolding replace_backslashes
replace_backslashes-id [] h = refl
replace_backslashes-id (c ∷ v) (h, hs) = ground (arith, replace_backslashes-id v hs)

drop_slashes-id : (v : Text) → starts_slash v ≡ false → drop_slashes v ≡ v
unfolding drop_slashes starts_slash
drop_slashes-id [] h = refl
drop_slashes-id (c ∷ v) h = rw h

record Checked (n p : Text) : Type 0 where
  same : p ≡ n
  bounded : length n ≤ 1024
  some_text : n ≢ []
  printable : has_control n ≡ false
  single : has_double_slash n ≡ false
  inner : ends_slash n ≡ false
  no_dots : any is_dot_segment (split_slash n) ≡ false

check_object-Checked : (n p : Text) → check_object n ≡ ok p → Checked n p
unfolding check_object
check_object-Checked [] p h = cc
check_object-Checked (c ∷ n) p h = ground arith

module _ (nfc : Text → Text) (laws : IsNfc nfc) (v p : Text)
    (accepted : normalize_storage_object_path nfc v ≡ ok p) where
  facts : Checked (normalize_separators nfc v) p
  facts = check_object-Checked _ p (unfold normalize_storage_object_path in accepted)

  relative : starts_slash p ≡ false
  unfolding normalize_separators
  relative = rw facts.same (laws.start _ (dropped (replace_backslashes v)))

  no_backslash : All (λ c. c ≢ backslash) p
  unfolding normalize_separators
  no_backslash = rw facts.same (laws.no_backslash _ (drop_slashes-All _ (replaced v)))

  -- An accepted object path has at most 1024 code units, no control character, no backslash, no
  -- slash at the start, and each of its segments is plain: not empty, not "." and not "..".
  pub normalize_storage_object_path-IsSafePath : IsSafePath p
  normalize_storage_object_path-IsSafePath = record {
    bounded = rw facts.same facts.bounded;
    printable = rw facts.same facts.printable;
    relative = relative;
    no_backslash = no_backslash;
    plain =
        split_slash-IsPlain p (rw facts.same facts.some_text) relative (rw facts.same facts.single)
          (rw facts.same facts.inner) (rw facts.same facts.no_dots);
  }

  renormalized : normalize_separators nfc p ≡ p
  unfolding normalize_separators
  renormalized =
      rw (replace_backslashes-id p no_backslash)
        (rw (drop_slashes-id p relative) (rw facts.same (laws.idempotent _)))

  -- An accepted path is accepted again, and normalising it a second time changes nothing.
  pub normalize_storage_object_path_idempotent : normalize_storage_object_path nfc p ≡ ok p
  unfolding normalize_storage_object_path
  normalize_storage_object_path_idempotent = rw renormalized (ap check_object facts.same ∙ accepted)
