-- ===== src/Updater/Semver/Order.antt =====
-- The order of versions of apps/updater/src/manifest.ts.
use druvia.Prelude.{ℕ, if◌then◌else◌, ◌≡◌, refl, ap, ◌∙◌, sym, List, [], ◌∷◌, arith}
use druvia.Prelude.Codes.{Text}
use druvia.Updater.Semver.{
  Sign, less, equal, greater, is_numeric, decimal, compare_codes, compare_texts, compare_parts,
  compare_prerelease, compare_parsed,
}
use druvia.Updater.Semver.Lex.{
  opposite, then, IsPreorder, lex, self, lex-IsPreorder, compare_codes-IsPreorder, IsPreorder-of,
  compare_texts-IsPreorder, compare_texts-equal,
}

-- Parts in order: numbers by their values, before all others, which are in the order of texts.
unfoldable pub part_order : (ℕ → ℕ) → Text → Text → Sign
part_order to_double l r =
    if is_numeric l
    then if is_numeric r
      then compare_codes (to_double (decimal l)) (to_double (decimal r))
      else less
    else if is_numeric r
    then greater
    else compare_texts l r

module _ (to_double : ℕ → ℕ) where
  part_order-IsPreorder : IsPreorder (part_order to_double)
  unfolding part_order opposite
  part_order-IsPreorder = record {
    swap = λ l r. ground (
      arith,
      compare_codes-IsPreorder.swap (to_double (decimal l)) (to_double (decimal r)),
      compare_texts-IsPreorder.swap l r,
    );
    congr = λ a b c h. ground (
      arith,
      compare_codes-IsPreorder.congr (to_double (decimal a)) (to_double (decimal b))
          (to_double (decimal c)),
      compare_texts-IsPreorder.congr a b c,
    );
    trans = λ a b c h k. ground (
      arith,
      compare_codes-IsPreorder.trans (to_double (decimal a)) (to_double (decimal b))
          (to_double (decimal c)),
      compare_texts-IsPreorder.trans a b c,
    );
  }

  self_part : (l r : Text) → compare_texts l r ≡ equal → part_order to_double l r ≡ equal
  self_part l r h =
      ap (part_order to_double l) (sym (compare_texts-equal l r h))
      ∙ self (part_order to_double) part_order-IsPreorder l

  -- The loop is the lexicographic order of the parts.
  compare_parts-lex :
      (ls rs : List Text) → compare_parts to_double ls rs ≡ lex (part_order to_double) ls rs
  unfolding compare_parts lex then part_order compare_codes
  compare_parts-lex [] [] = refl
  compare_parts-lex [] (r ∷ rs) = refl
  compare_parts-lex (l ∷ ls) [] = refl
  compare_parts-lex (l ∷ ls) (r ∷ rs) = ground (arith, self_part l r, compare_parts-lex ls rs)

  compare_parts-IsPreorder : IsPreorder (compare_parts to_double)
  compare_parts-IsPreorder =
      IsPreorder-of (compare_parts to_double) (lex (part_order to_double)) compare_parts-lex
        (lex-IsPreorder (part_order to_double) part_order-IsPreorder)

  -- A version without a prerelease comes after those with one.
  compare_prerelease_swap :
      (ls rs : List Text)
      → compare_prerelease to_double rs ls ≡ opposite (compare_prerelease to_double ls rs)
  unfolding compare_prerelease opposite
  compare_prerelease_swap [] [] = refl
  compare_prerelease_swap [] (r ∷ rs) = refl
  compare_prerelease_swap (l ∷ ls) [] = refl
  compare_prerelease_swap (l ∷ ls) (r ∷ rs) = compare_parts-IsPreorder.swap (l ∷ ls) (r ∷ rs)

  compare_prerelease_congr :
      (ls ms ns : List Text)
      → compare_prerelease to_double ls ms ≡ equal
      → compare_prerelease to_double ls ns ≡ compare_prerelease to_double ms ns
  unfolding compare_prerelease
  compare_prerelease_congr [] [] ns h = refl
  compare_prerelease_congr [] (m ∷ ms) ns h = cc
  compare_prerelease_congr (l ∷ ls) [] ns h = cc
  compare_prerelease_congr (l ∷ ls) (m ∷ ms) [] h = refl
  compare_prerelease_congr (l ∷ ls) (m ∷ ms) (n ∷ ns) h =
      compare_parts-IsPreorder.congr (l ∷ ls) (m ∷ ms) (n ∷ ns) h

  compare_prerelease_trans :
      (ls ms ns : List Text)
      → compare_prerelease to_double ls ms ≡ less
      → compare_prerelease to_double ms ns ≡ less
      → compare_prerelease to_double ls ns ≡ less
  unfolding compare_prerelease
  compare_prerelease_trans [] [] ns h k = cc
  compare_prerelease_trans [] (m ∷ ms) ns h k = cc
  compare_prerelease_trans (l ∷ ls) [] [] h k = cc
  compare_prerelease_trans (l ∷ ls) [] (n ∷ ns) h k = cc
  compare_prerelease_trans (l ∷ ls) (m ∷ ms) [] h k = refl
  compare_prerelease_trans (l ∷ ls) (m ∷ ms) (n ∷ ns) h k =
      compare_parts-IsPreorder.trans (l ∷ ls) (m ∷ ms) (n ∷ ns) h k

  compare_prerelease-IsPreorder : IsPreorder (compare_prerelease to_double)
  compare_prerelease-IsPreorder = record {
    swap = compare_prerelease_swap;
    congr = compare_prerelease_congr;
    trans = compare_prerelease_trans;
  }

  -- The comparison of versions is a total preorder: swapped versions compare with the opposite sign,
  -- versions that compare as equal compare alike with every other, and "less" is transitive.
  pub compare_parsed-IsPreorder : IsPreorder (compare_parsed to_double)
  unfolding compare_parsed opposite
  compare_parsed-IsPreorder = record {
    swap = λ a b. ground (arith, compare_prerelease_swap a.prerelease b.prerelease);
    congr =
        λ a b c h. ground (arith, compare_prerelease_congr a.prerelease b.prerelease c.prerelease);
    trans = λ a b c h k.
        ground (arith, compare_prerelease_trans a.prerelease b.prerelease c.prerelease);
  }
