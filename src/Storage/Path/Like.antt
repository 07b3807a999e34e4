-- ===== src/Storage/Path/Like.antt =====
-- The escaped prefix of `storageLikePrefix` against the documented rules of SQL's LIKE, with the
-- default escape character.
use druvia.Prelude.{
  ℕ, ◌==◌, ◌≡◌, refl, ap, ◌∙◌, inl, inr, if◌then◌else◌, Bool, true, false, ◌&&◌, ◌||◌, [], ◌∷◌,
  ◌++◌, arith, Bool-cases,
}
use druvia.Storage.Path.{
  Text, backslash, is_empty, is_like_special, escape_like, storage_like_prefix,
}

any_suffix : (Text → Bool) → Text → Bool
any_suffix m [] = m []
any_suffix m (c ∷ s) = m (c ∷ s) || any_suffix m s

any_char : (Text → Bool) → Text → Bool
any_char m [] = false
any_char m (c ∷ s) = m s

literal : ℕ → (Text → Bool) → Text → Bool
literal c m [] = false
literal c m (d ∷ s) = c == d && m s

-- `%` is any text, `_` any one character, and the character after a backslash is itself.
pub like_from : Bool → Text → Text → Bool
unfolding any_suffix any_char literal is_empty
like_from true [] s = false
like_from false [] s = is_empty s
like_from true (c ∷ q) s = literal c (like_from false q) s
like_from false (c ∷ q) s =
    if c == 0x25
    then any_suffix (like_from false q) s
    else if c == 0x5f
    then any_char (like_from false q) s
    else if c == backslash
    then like_from true q s
    else literal c (like_from false q) s

abbrev pub like : Text → Text → Bool
like pattern s = like_from false pattern s

pub starts_with : Text → Text → Bool
starts_with [] s = true
starts_with (c ∷ p) [] = false
starts_with (c ∷ p) (d ∷ s) = c == d && starts_with p s

any_suffix-empty : (s : Text) → any_suffix is_empty s ≡ true
unfolding any_suffix is_empty
any_suffix-empty [] = refl
any_suffix-empty (c ∷ s) = any_suffix-empty s

literal-starts_with :
    (c : ℕ) (q p s : Text)
    → ((t : Text) → like_from false q t ≡ starts_with p t)
    → literal c (like_from false q) s ≡ starts_with (c ∷ p) s
unfolding literal starts_with
literal-starts_with c q p [] ih = refl
literal-starts_with c q p (d ∷ s) ih = ap (λ b. c == d && b) (ih s)

-- A character that is not special stands for itself.
ordinary :
    (c : ℕ) (q s : Text)
    → is_like_special c ≡ false
    → like_from false (c ∷ q) s ≡ literal c (like_from false q) s
unfolding like_from is_like_special
ordinary c q s plain = ground arith

-- Under LIKE the escaped prefix matches exactly the texts that start with the prefix.
pub like-storage_like_prefix : (p s : Text) → like (storage_like_prefix p) s ≡ starts_with p s
unfolding storage_like_prefix like_from starts_with
like-storage_like_prefix [] s = any_suffix-empty s
like-storage_like_prefix (c ∷ p) s =
    let step = literal-starts_with c (storage_like_prefix p) p s (like-storage_like_prefix p) in
    elim (Bool-cases (is_like_special c)) [
      | inl special ↦ rw (special, escape_like) step
      | inr plain ↦ rw (plain, escape_like) (ordinary c (escape_like p ++ 0x25 ∷ []) s plain ∙ step)
    ]
