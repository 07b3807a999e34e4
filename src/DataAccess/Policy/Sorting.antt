-- ===== src/DataAccess/Policy/Sorting.antt =====
-- The sorted columns of a permission are the columns that were given.
use druvia.Prelude.{
  ◌≡◌, refl, String, str_eq, eq_iff, false, ◌||◌, not, List, [], ◌∷◌, any, includes, ok, arith,
}
use druvia.DataAccess.Policy.{sort, insert_sorted, has_duplicate, validate_grant_columns}

pub str_eq_swap : (x y : String) → str_eq x y ≡ str_eq y x
str_eq_swap x y = ground (arith, eq_iff x y, eq_iff y x)

includes-insert_sorted :
    (x : String) (ys : List String) (c : String)
    → includes (insert_sorted x ys) c ≡ (str_eq x c || includes ys c)
unfolding insert_sorted
includes-insert_sorted x [] c = refl
includes-insert_sorted x (y ∷ ys) c = ground (arith, includes-insert_sorted x ys c)

pub includes-sort : (xs : List String) (c : String) → includes (sort xs) c ≡ includes xs c
unfolding sort
includes-sort [] c = refl
includes-sort (x ∷ xs) c = ground (arith, includes-insert_sorted x (sort xs) c, includes-sort xs c)

has_duplicate-insert_sorted :
    (x : String) (ys : List String)
    → has_duplicate (insert_sorted x ys) ≡ (includes ys x || has_duplicate ys)
unfolding insert_sorted has_duplicate
has_duplicate-insert_sorted x [] = refl
has_duplicate-insert_sorted x (y ∷ ys) =
    ground (arith, has_duplicate-insert_sorted x ys, includes-insert_sorted x ys y, str_eq_swap x y)

pub has_duplicate-sort : (xs : List String) → has_duplicate (sort xs) ≡ has_duplicate xs
unfolding sort has_duplicate
has_duplicate-sort [] = refl
has_duplicate-sort (x ∷ xs) =
    ground
      (arith, has_duplicate-insert_sorted x (sort xs), has_duplicate-sort xs, includes-sort xs x)

-- Columns that a permission may be made of.
unfoldable pub IsGrant : List String → List String → Type 0
IsGrant columns allowed =
    (has_duplicate columns ≡ false) × (any (λ c. not (includes allowed c)) columns ≡ false)

pub validate_grant_columns_ok :
    (columns allowed : List String)
    → IsGrant columns allowed
    → validate_grant_columns columns allowed ≡ ok (sort columns)
unfolding validate_grant_columns IsGrant
validate_grant_columns_ok columns allowed granted = ground arith
