-- ===== src/DataAccess/Managed/Columns.antt =====
-- The columns that the operations on sets of columns keep.
use druvia.Prelude.{
  ◌≡◌, refl, String, str_eq, eq_iff, str_eq_self, if◌then◌else◌, Bool, true, false, ◌&&◌, ◌||◌, not,
  List, [], ◌∷◌, any, includes, arith,
}
use druvia.Prelude
use druvia.DataAccess.Policy.{has_duplicate}
use druvia.DataAccess.Policy.Sorting.{includes-sort, has_duplicate-sort, IsGrant}
use druvia.DataAccess.Managed.{unique_from, unique_sorted, difference, intersection}

includes_congr :
    (xs : List String) (x c : String) → str_eq x c ≡ true → includes xs x ≡ includes xs c
includes_congr xs x c same = ground (arith, eq_iff x c)

includes-unique_from :
    (seen xs : List String) (c : String)
    → includes (unique_from seen xs) c ≡ (includes xs c && not (includes seen c))
unfolding unique_from
includes-unique_from seen [] c = refl
includes-unique_from seen (x ∷ xs) c =
    ground (arith, includes-unique_from (x ∷ seen) xs c, includes_congr seen x c)

has_duplicate-unique_from : (seen xs : List String) → has_duplicate (unique_from seen xs) ≡ false
unfolding unique_from has_duplicate
has_duplicate-unique_from seen [] = refl
has_duplicate-unique_from seen (x ∷ xs) = ground (
  arith,
  has_duplicate-unique_from (x ∷ seen) xs,
  includes-unique_from (x ∷ seen) xs x,
  str_eq_self x,
)

pub includes-unique_sorted :
    (xs : List String) (c : String) → includes (unique_sorted xs) c ≡ includes xs c
unfolding unique_sorted
includes-unique_sorted xs c =
    ground (arith, includes-sort (unique_from [] xs) c, includes-unique_from [] xs c)

pub has_duplicate-unique_sorted : (xs : List String) → has_duplicate (unique_sorted xs) ≡ false
unfolding unique_sorted
has_duplicate-unique_sorted xs =
    ground (arith, has_duplicate-sort (unique_from [] xs), has_duplicate-unique_from [] xs)

pub includes-select_kept :
    (keep : String → Bool) (xs : List String) (c : String)
    → includes (Prelude.select keep xs) c ≡ (keep c && includes xs c)
includes-select_kept keep [] c = ground arith
includes-select_kept keep (x ∷ xs) c = ground (arith, includes-select_kept keep xs c, eq_iff x c)

pub includes-difference :
    (left right : List String) (c : String)
    → includes (difference left right) c ≡ (not (includes right c) && includes left c)
unfolding difference
includes-difference left right c =
    let keep = λ (column : String). not (includes right column) in
    ground
      (arith, includes-unique_sorted (Prelude.select keep left) c, includes-select_kept keep left c)

pub includes-intersection :
    (left right : List String) (c : String)
    → includes (intersection left right) c ≡ (includes right c && includes left c)
unfolding intersection
includes-intersection left right c =
    let keep = λ (column : String). includes right column in
    ground
      (arith, includes-unique_sorted (Prelude.select keep left) c, includes-select_kept keep left c)

-- Columns that are all among others.
any_unlisted :
    (xs allowed : List String)
    → ((c : String) → includes xs c ≡ true → includes allowed c ≡ true)
    → any (λ c. not (includes allowed c)) xs ≡ false
any_unlisted [] allowed listed = refl
any_unlisted (x ∷ xs) allowed listed =
    let ih = any_unlisted xs allowed (λ c here. listed c (ground arith)) in
    let head = listed x (ground (arith, str_eq_self x)) in ground (arith, ih, head)

pub intersection-IsGrant : (left right : List String) → IsGrant (intersection left right) right
unfolding IsGrant
intersection-IsGrant left right = (
  unfold intersection in has_duplicate-unique_sorted _,
  any_unlisted (intersection left right) right
      λ c here. ground (arith, includes-intersection left right c),
)

has_duplicate-select :
    (keep : String → Bool) (xs : List String)
    → has_duplicate xs ≡ false
    → has_duplicate (Prelude.select keep xs) ≡ false
unfolding has_duplicate
has_duplicate-select keep [] fresh = refl
has_duplicate-select keep (x ∷ xs) fresh =
    let ih = has_duplicate-select keep xs (ground arith) in
    ground (arith, ih, includes-select_kept keep xs x)

any-select :
    (keep test : String → Bool) (xs : List String)
    → any test xs ≡ false
    → any test (Prelude.select keep xs) ≡ false
any-select keep test [] none = refl
any-select keep test (x ∷ xs) none = ground (arith, any-select keep test xs)

pub select-IsGrant :
    (keep : String → Bool) (xs allowed : List String)
    → IsGrant xs allowed
    → IsGrant (Prelude.select keep xs) allowed
unfolding IsGrant
select-IsGrant keep xs allowed (fresh, listed) =
    (has_duplicate-select keep xs fresh, any-select keep (λ c. not (includes allowed c)) xs listed)

pub empty-IsGrant : (allowed : List String) → IsGrant [] allowed
unfolding IsGrant has_duplicate
empty-IsGrant allowed = (refl, refl)
