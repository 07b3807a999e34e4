-- ===== src/DataAccess/Managed/Reconcile/Safe.antt =====
-- The policy that materializeSafeReconcilePolicy makes of a validated one is narrower, and valid for
-- the present columns.
use mathlib.Core.Option.{Option, some}
use druvia.Prelude.{
  opt_is, ap, subst, sym, ◌≡◌, refl, String, str_eq, str_eq_self, if◌then◌else◌, Bool, Bool-cases,
  true, false, ◌||◌, not, inl, inr, includes, arith,
}
use druvia.DataAccess.Types.{
  AuthenticatedAccessMode, all, owner, unsupported, DataAccessOperation, select, insert, update,
  delete, AuthenticatedTableAccess, DataAccessColumnCapabilities,
}
use druvia.DataAccess.Policy.{is_owner, is_supported, uses_owner_mode}
use druvia.DataAccess.Policy.Materialize.Accepts.{OwnerFits}
use druvia.DataAccess.Managed.{mode_eq, is_none, column_eq}
use druvia.DataAccess.Managed.Reconcile.{
  close_owner, close_insert, safe_modes, clear_unused_owner, safe_access,
}

mode_eq_self : (mode : AuthenticatedAccessMode) → mode_eq mode mode ≡ true
mode_eq_self (unsupported s) = str_eq_self s
mode_eq_self mode = refl

-- What a mode may become.
unfoldable pub kept_mode : AuthenticatedAccessMode → AuthenticatedAccessMode → Bool
kept_mode new old = is_none new || mode_eq new old

kept_mode_self : (mode : AuthenticatedAccessMode) → kept_mode mode mode ≡ true
unfolding kept_mode
kept_mode_self mode = ground (arith, mode_eq_self mode)

module _ (mode : DataAccessOperation → AuthenticatedAccessMode) (column : String)
    (caps : DataAccessColumnCapabilities) where
  kept-close_owner : (m : AuthenticatedAccessMode) → kept_mode (close_owner m) m ≡ true
  unfolding kept_mode close_owner
  kept-close_owner owner = refl
  kept-close_owner (unsupported s) = str_eq_self s
  kept-close_owner m = refl

  kept-close_insert : (op : DataAccessOperation) → kept_mode (close_insert mode op) (mode op) ≡ true
  unfolding kept_mode close_insert
  kept-close_insert insert = refl
  kept-close_insert op = kept_mode_self (mode op)

  kept-safe_modes :
      (op : DataAccessOperation) → kept_mode (safe_modes mode column caps op) (mode op) ≡ true
  unfolding safe_modes
  kept-safe_modes op =
      ground (arith, kept-close_owner (mode op), kept-close_insert op, kept_mode_self (mode op))

  owner_closed : (m : AuthenticatedAccessMode) → is_owner (close_owner m) ≡ false
  unfolding close_owner
  owner_closed owner = refl
  owner_closed m = refl

  is_owner-safe_modes :
      (op : DataAccessOperation)
      → is_owner (safe_modes mode column caps op) ≡ true
      → includes caps.readable_columns column ≡ true
  unfolding safe_modes
  is_owner-safe_modes op owned = ground (arith, owner_closed (mode op))

  is_owner-safe_modes_insert :
      is_owner (safe_modes mode column caps insert) ≡ true
      → includes caps.insertable_columns column ≡ true
  unfolding safe_modes close_insert
  is_owner-safe_modes_insert owned = ground (arith, owner_closed (mode insert))

pub supported_kept :
    (new old : AuthenticatedAccessMode)
    → kept_mode new old ≡ true
    → is_supported old ≡ true
    → is_supported new ≡ true
unfolding kept_mode
supported_kept AuthenticatedAccessMode.none old kept supported = refl
supported_kept all old kept supported = refl
supported_kept owner old kept supported = refl
supported_kept (unsupported s) old kept supported = ground arith

module _ (a : AuthenticatedTableAccess) where
  clear_unused_owner_used : uses_owner_mode a ≡ true → clear_unused_owner a ≡ a
  unfolding clear_unused_owner
  clear_unused_owner_used uses =
      ap (λ (used : Bool). if used then a else record a { owner_column = Option.none }) uses

  clear_unused_owner_unused :
      uses_owner_mode a ≡ false → clear_unused_owner a ≡ record a { owner_column = Option.none }
  unfolding clear_unused_owner
  clear_unused_owner_unused unused =
      ap (λ (used : Bool). if used then a else record a { owner_column = Option.none }) unused

-- What an access has to be to be the next one.
pub record IsSafe (old new : AuthenticatedTableAccess) (caps : DataAccessColumnCapabilities)
    : Type 0 where
  pub kept : (op : DataAccessOperation) → kept_mode (new.mode op) (old.mode op) ≡ true
  pub column_kept :
      (not (uses_owner_mode new) || column_eq new.owner_column old.owner_column) ≡ true
  pub column_used : (uses_owner_mode new || column_eq new.owner_column Option.none) ≡ true
  pub column_fits : uses_owner_mode new ≡ true → OwnerFits new caps
  pub constraint_kept : new.select_constraint ≡ old.select_constraint

module _ (a : AuthenticatedTableAccess) (caps : DataAccessColumnCapabilities) (column : String)
    (named : a.owner_column ≡ some column) (nonempty : str_eq column "" ≡ false) where
  closed : AuthenticatedTableAccess
  closed = record a { mode = safe_modes a.mode column caps }

  closed_fits : uses_owner_mode closed ≡ true → includes caps.readable_columns column ≡ true
  unfolding uses_owner_mode closed
  closed_fits uses = ground (
    arith,
    is_owner-safe_modes a.mode column caps select,
    is_owner-safe_modes a.mode column caps insert,
    is_owner-safe_modes a.mode column caps update,
    is_owner-safe_modes a.mode column caps delete,
  )

  closed-IsSafe : uses_owner_mode closed ≡ true → IsSafe a closed caps
  unfolding closed
  closed-IsSafe uses = record {
    kept = kept-safe_modes a.mode column caps;
    column_kept = ground (arith, named, str_eq_self column);
    column_used = ground arith;
    column_fits = λ _. record {
      column = column;
      named = named;
      nonempty = nonempty;
      readable = closed_fits uses;
      insertable = is_owner-safe_modes_insert a.mode column caps;
    };
    constraint_kept = refl;
  }

  cleared : AuthenticatedTableAccess
  cleared = record a { mode = safe_modes a.mode column caps; owner_column = Option.none }

  cleared-IsSafe : uses_owner_mode closed ≡ false → IsSafe a cleared caps
  unfolding closed cleared uses_owner_mode
  cleared-IsSafe unused = record {
    kept = kept-safe_modes a.mode column caps;
    column_kept = ground arith;
    column_used = ground arith;
    column_fits = λ uses. absurd cc;
    constraint_kept = refl;
  }

  named-IsSafe : IsSafe a (clear_unused_owner closed) caps
  unfolding closed cleared
  named-IsSafe = elim (Bool-cases (uses_owner_mode closed)) [
    | inl uses ↦
        subst (λ (b : AuthenticatedTableAccess). IsSafe a b caps)
          (sym (clear_unused_owner_used closed uses)) (closed-IsSafe uses)
    | inr unused ↦
        subst (λ (b : AuthenticatedTableAccess). IsSafe a b caps)
          (sym (clear_unused_owner_unused closed unused)) (cleared-IsSafe unused)
  ]

unnamed-IsSafe :
    (a : AuthenticatedTableAccess) (caps : DataAccessColumnCapabilities)
    → a.owner_column ≡ Option.none
    → uses_owner_mode a ≡ false
    → IsSafe a a caps
unnamed-IsSafe a caps unnamed unused = record {
  kept = λ op. kept_mode_self (a.mode op);
  column_kept = ground arith;
  column_used = ground (arith, unnamed);
  column_fits = λ uses. absurd ground arith;
  constraint_kept = refl;
}

pub safe_access-IsSafe :
    (a : AuthenticatedTableAccess) (caps : DataAccessColumnCapabilities) (o : Option String)
    → a.owner_column ≡ o
    → opt_is o "" ≡ false
    → (o ≡ Option.none → uses_owner_mode a ≡ false)
    → IsSafe a (safe_access a o caps) caps
unfolding safe_access closed
safe_access-IsSafe a caps Option.none same nonempty unused =
    unnamed-IsSafe a caps same (unused refl)
safe_access-IsSafe a caps (some column) same nonempty unused =
    subst (λ (b : AuthenticatedTableAccess). IsSafe a b caps)
      (ap
        (λ (empty : Bool).
          if empty
          then a
          else clear_unused_owner (record a { mode = safe_modes a.mode column caps }))
        (sym nonempty))
      (named-IsSafe a caps column same nonempty)
