-- ===== src/Updater/Semver/Lex.antt =====
-- The comparisons of apps/updater/src/manifest.ts as total preorders: opposite signs for swapped
-- arguments, equals that compare alike, and "less" that is transitive; the lexicographic order.
use druvia.Prelude.{◌≡◌, refl, ap, sym, ◌∙◌, List, [], ◌∷◌, ℕ, arith}
use druvia.Updater.Semver.{Sign, less, equal, greater, compare_codes, compare_texts}

unfoldable pub opposite : Sign → Sign
opposite less = greater
opposite equal = equal
opposite greater = less

unfoldable pub then : Sign → Sign → Sign
then equal s = s
then less s = less
then greater s = greater

pub record IsPreorder {ℓ} {A : Type ℓ} (cmp : A → A → Sign) : Type ℓ where
  pub swap : (a b : A) → cmp b a ≡ opposite (cmp a b)
  pub congr : (a b c : A) → cmp a b ≡ equal → cmp a c ≡ cmp b c
  pub trans : (a b c : A) → cmp a b ≡ less → cmp b c ≡ less → cmp a c ≡ less

module _ {ℓ} {A : Type ℓ} (cmp : A → A → Sign) where
  unfoldable pub lex : List A → List A → Sign
  unfolding then
  lex [] [] = equal
  lex [] (b ∷ ms) = less
  lex (a ∷ ls) [] = greater
  lex (a ∷ ls) (b ∷ ms) = then (cmp a b) (lex ls ms)

pub compare_codes-IsPreorder : IsPreorder compare_codes
unfolding compare_codes opposite
compare_codes-IsPreorder = record {
  swap = λ a b. ground arith;
  congr = λ a b c h. ground arith;
  trans = λ a b c h k. ground arith;
}

module _ {ℓ} {A : Type ℓ} (cmp : A → A → Sign) (order : IsPreorder cmp) where
  pub self : (a : A) → cmp a a ≡ equal
  unfolding opposite
  self a = grind (arith, order.swap a a)

  pub congr_right : (a b c : A) → cmp b c ≡ equal → cmp a b ≡ cmp a c
  unfolding opposite
  congr_right a b c h = grind (arith, order.congr b c a h, order.swap b a, order.swap c a)

  lex_swap : (ls ms : List A) → lex cmp ms ls ≡ opposite (lex cmp ls ms)
  unfolding lex opposite then
  lex_swap [] [] = refl
  lex_swap [] (b ∷ ms) = refl
  lex_swap (a ∷ ls) [] = refl
  lex_swap (a ∷ ls) (b ∷ ms) = ground (arith, order.swap a b, lex_swap ls ms)

  lex_congr : (ls ms ns : List A) → lex cmp ls ms ≡ equal → lex cmp ls ns ≡ lex cmp ms ns
  unfolding lex then
  lex_congr [] [] ns h = refl
  lex_congr [] (b ∷ ms) ns h = cc
  lex_congr (a ∷ ls) [] ns h = cc
  lex_congr (a ∷ ls) (b ∷ ms) [] h = refl
  lex_congr (a ∷ ls) (b ∷ ms) (c ∷ ns) h = ground (arith, order.congr a b c, lex_congr ls ms ns)

  lex_trans :
      (ls ms ns : List A) → lex cmp ls ms ≡ less → lex cmp ms ns ≡ less → lex cmp ls ns ≡ less
  unfolding lex then
  lex_trans [] [] [] h k = cc
  lex_trans [] (b ∷ ms) [] h k = cc
  lex_trans [] ms (c ∷ ns) h k = refl
  lex_trans (a ∷ ls) [] ns h k = cc
  lex_trans (a ∷ ls) (b ∷ ms) [] h k = cc
  lex_trans (a ∷ ls) (b ∷ ms) (c ∷ ns) h k =
      ground (arith, order.congr a b c, congr_right a b c, order.trans a b c, lex_trans ls ms ns)

  pub lex-IsPreorder : IsPreorder (lex cmp)
  lex-IsPreorder = record { swap = lex_swap; congr = lex_congr; trans = lex_trans }

-- A comparison that agrees with a preorder is one.
pub IsPreorder-of {ℓ} :
    {A : Type ℓ} (cmp other : A → A → Sign)
    → ((a b : A) → cmp a b ≡ other a b)
    → IsPreorder other
    → IsPreorder cmp
IsPreorder-of cmp other same order = record {
  swap = λ a b. same b a ∙ order.swap a b ∙ ap opposite (sym (same a b));
  congr = λ a b c h. same a c ∙ order.congr a b c (sym (same a b) ∙ h) ∙ sym (same b c);
  trans = λ a b c h k. same a c ∙ order.trans a b c (sym (same a b) ∙ h) (sym (same b c) ∙ k);
}

pub compare_texts-lex : (cs ds : List ℕ) → compare_texts cs ds ≡ lex compare_codes cs ds
unfolding compare_texts lex then
compare_texts-lex [] [] = refl
compare_texts-lex [] (d ∷ ds) = refl
compare_texts-lex (c ∷ cs) [] = refl
compare_texts-lex (c ∷ cs) (d ∷ ds) = ground (arith, compare_texts-lex cs ds)

-- Only a text itself compares as equal.
pub compare_texts-equal : (cs ds : List ℕ) → compare_texts cs ds ≡ equal → cs ≡ ds
unfolding compare_texts compare_codes
compare_texts-equal [] [] h = refl
compare_texts-equal [] (d ∷ ds) h = cc
compare_texts-equal (c ∷ cs) [] h = cc
compare_texts-equal (c ∷ cs) (d ∷ ds) h = ground (arith, compare_texts-equal cs ds)

pub compare_texts-IsPreorder : IsPreorder compare_texts
compare_texts-IsPreorder =
    IsPreorder-of compare_texts (lex compare_codes) compare_texts-lex
      (lex-IsPreorder compare_codes compare_codes-IsPreorder)
