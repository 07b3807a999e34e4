-- ===== src/DeviceWipe/Rows.antt =====
-- Lemmas on the rows of a table after an INSERT and after an UPDATE.
use druvia.Prelude.{
  ◌+◌, ◌≤◌, Bool, true, false, ◌&&◌, ◌||◌, ◌≡◌, refl, none, some, List, [], ◌∷◌, ◌++◌, any, all,
  find, select, length, arith, Result, ok, err,
}
use druvia.DeviceWipe.Tables.{Store, WipeError, update_where, finish_transaction, in_transaction}

module _ {ℓ} {A : Type ℓ} (test : A → Bool) where
  pub any-append : (xs ys : List A) → any test (xs ++ ys) ≡ (any test xs || any test ys)
  any-append [] ys = refl
  any-append (x ∷ xs) ys = ground (arith, any-append xs ys)

  pub all-append : (xs ys : List A) → all test (xs ++ ys) ≡ (all test xs && all test ys)
  all-append [] ys = refl
  all-append (x ∷ xs) ys = ground (arith, all-append xs ys)

  pub length-select-append :
      (xs ys : List A)
      → length (select test (xs ++ ys)) ≡ length (select test xs) + length (select test ys)
  length-select-append [] ys = omega arith
  length-select-append (x ∷ xs) ys = ground (arith, length-select-append xs ys)

  -- No row is selected.
  pub length-select_none : (xs : List A) → any test xs ≡ false → length (select test xs) ≡ 0
  length-select_none [] h = refl
  length-select_none (x ∷ xs) h = ground (arith, length-select_none xs)

  pub find-append : (xs ys : List A) (x : A) → find test xs ≡ some x → find test (xs ++ ys) ≡ some x
  find-append [] ys x h = cc
  find-append (y ∷ xs) ys x h = ground (arith, find-append xs ys x)

  pub find-append_none :
      (xs ys : List A) → find test xs ≡ none → find test (xs ++ ys) ≡ find test ys
  find-append_none [] ys h = refl
  find-append_none (y ∷ xs) ys h = ground (arith, find-append_none xs ys)

  pub find_holds : (xs : List A) (x : A) → find test xs ≡ some x → test x ≡ true
  find_holds [] x h = cc
  find_holds (y ∷ xs) x h = ground (arith, find_holds xs x)

  module _ (other : A → Bool) where
    -- A test that the other one implies holds of more.
    pub any_imp :
        (xs : List A)
        → ((x : A) → test x ≡ true → other x ≡ true)
        → any test xs ≡ true
        → any other xs ≡ true
    any_imp [] imp h = h
    any_imp (x ∷ xs) imp h = ground (arith, imp x, any_imp xs imp)

    pub all_imp :
        (xs : List A)
        → ((x : A) → test x ≡ true → other x ≡ true)
        → all test xs ≡ true
        → all other xs ≡ true
    all_imp [] imp h = h
    all_imp (x ∷ xs) imp h = ground (arith, imp x, all_imp xs imp)

    pub any-find :
        (xs : List A) (x : A) → find test xs ≡ some x → other x ≡ true → any other xs ≡ true
    any-find [] x h holds = cc
    any-find (y ∷ xs) x h holds = ground (arith, any-find xs x)

    module _ (unless : A → Bool) where
      pub all_imp_unless :
          (xs : List A)
          → ((x : A) → test x ≡ true → unless x ≡ false → other x ≡ true)
          → any unless xs ≡ false
          → all test xs ≡ true
          → all other xs ≡ true
      all_imp_unless [] imp none_is h = h
      all_imp_unless (x ∷ xs) imp none_is h = ground (arith, imp x, all_imp_unless xs imp)

  -- UPDATE of the rows that `changed` selects.
  module _ (changed : A → Bool) (change : A → A) where
    pub any-update_where :
        (xs : List A)
        → ((x : A) → test (change x) ≡ test x)
        → any test (update_where changed change xs) ≡ any test xs
    unfolding update_where
    any-update_where [] same = refl
    any-update_where (x ∷ xs) same = ground (arith, same x, any-update_where xs same)

    pub any-update_where_kept :
        (xs : List A)
        → ((x : A) → test x ≡ true → test (change x) ≡ true)
        → any test xs ≡ true
        → any test (update_where changed change xs) ≡ true
    unfolding update_where
    any-update_where_kept [] kept h = h
    any-update_where_kept (x ∷ xs) kept h = ground (arith, kept x, any-update_where_kept xs kept)

    pub any-update_where_apart :
        (xs : List A)
        → ((x : A) → test x ≡ true → changed x ≡ false)
        → any test xs ≡ true
        → any test (update_where changed change xs) ≡ true
    unfolding update_where
    any-update_where_apart [] apart h = h
    any-update_where_apart (x ∷ xs) apart h =
        ground (arith, apart x, any-update_where_apart xs apart)

    pub all-update_where :
        (xs : List A)
        → ((x : A) → test x ≡ true → test (change x) ≡ true)
        → all test xs ≡ true
        → all test (update_where changed change xs) ≡ true
    unfolding update_where
    all-update_where [] kept h = h
    all-update_where (x ∷ xs) kept h = ground (arith, kept x, all-update_where xs kept)

    pub length-select-update_where :
        (xs : List A)
        → ((x : A) → test (change x) ≡ true → test x ≡ true)
        → length (select test (update_where changed change xs)) ≤ length (select test xs)
    unfolding update_where
    length-select-update_where [] fewer = omega arith
    length-select-update_where (x ∷ xs) fewer =
        ground (arith, fewer x, length-select-update_where xs fewer)

    pub find-update_where_apart :
        (xs : List A) (x : A)
        → ((y : A) → changed y ≡ true → test (change y) ≡ test y)
        → changed x ≡ false
        → find test xs ≡ some x
        → find test (update_where changed change xs) ≡ some x
    unfolding update_where
    find-update_where_apart [] x same apart h = cc
    find-update_where_apart (y ∷ xs) x same apart h =
        ground (arith, same y, find-update_where_apart xs x same apart)

    -- The row that is found is changed.
    pub find-update_where_changed :
        (xs : List A) (x : A)
        → ((y : A) → test (change y) ≡ test y)
        → changed x ≡ true
        → find test xs ≡ some x
        → find test (update_where changed change xs) ≡ some (change x)
    unfolding update_where
    find-update_where_changed [] x same at h = cc
    find-update_where_changed (y ∷ xs) x same at h =
        ground (arith, same y, find-update_where_changed xs x same at)

    pub find-update_where_none :
        (xs : List A)
        → ((y : A) → test (change y) ≡ test y)
        → find test xs ≡ none
        → find test (update_where changed change xs) ≡ none
    unfolding update_where
    find-update_where_none [] same h = refl
    find-update_where_none (y ∷ xs) same h = ground (arith, same y, find-update_where_none xs same)

-- What holds after a transaction that is committed, and before one that is rolled back.
pub in_transaction_kept :
    {A : Type 0} (P : Store → Type 0) (run : Store → Result WipeError (A × Store)) (s : Store)
    → ((a : A) (t : Store) → run s ≡ ok (a, t) → P t)
    → P s
    → P (in_transaction run s).1
unfolding in_transaction finish_transaction
in_transaction_kept {A} P run s committed before = after (run s) (λ a t e. committed a t e)
  where
    after :
        (done : Result WipeError (A × Store))
        → ((a : A) (t : Store) → done ≡ ok (a, t) → P t)
        → P (finish_transaction s done).1
    after (ok (a, t)) keep = keep a t refl
    after (err thrown) keep = before
