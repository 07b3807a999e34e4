-- ===== src/Updater/World/Triple.antt =====
-- Statements on what an action of the updater does to the disk while an operation is active, and
-- one rule for each way to build an action.
use druvia.Prelude.{
  ◌+◌, ◌&&◌, String, ◌≡◌, refl, Bool, true, false, some, Result, ok, err, if◌then◌else◌,
}
use druvia.Updater.Status.{DruviaUpdateStatus}
use druvia.Updater.World.{
  World, M, Disk, UpdateError, pure, throw, ◌>>=◌, continue, recover, catch, call, call?,
  call_result, CallResult, get_disk, put_disk, get_status, write_state, stored_status,
}

abbrev pub Post :
    {A : Type 0}
    → (A → Disk → Type 0)
    → (UpdateError → Disk → Type 0)
    → Result UpdateError A
    → Disk
    → Type 0
Post Q E (ok a) d = Q a d
Post Q E (err e) d = E e d

not_both {ℓ} : {A : Type ℓ} (a b : Bool) (x y : A) → (if a && (b && false) then x else y) ≡ y
not_both true true x y = refl
not_both true false x y = refl
not_both false b x y = refl

module _ (op : String) where
  read :
      (version : String) (w : World)
      → w.active_operation_id ≡ some op
      → get_status version w ≡ (ok (stored_status version w.disk), w)
  unfolding get_status
  read version w active = simp active (not_both _ _ _ _)

  written :
      (version : String) (patch : DruviaUpdateStatus → DruviaUpdateStatus) (w : World)
      → w.active_operation_id ≡ some op
      → write_state version patch w ≡ (
        ok tt,
        record w { disk = record w.disk { status = some (patch (stored_status version w.disk)) } },
      )
  unfolding write_state ◌>>=◌
  written version patch w active = rw (read version w active) refl

  -- From a disk with `P` the action returns with `Q`, or throws with `E`, and `op` stays active.
  pub record Triple {A : Type 0} (P : Disk → Type 0) (m : M A) (Q : A → Disk → Type 0)
      (E : UpdateError → Disk → Type 0) : Type 0 where
    pub at :
        (w : World)
        → w.active_operation_id ≡ some op
        → P w.disk
        → ((m w).1.active_operation_id ≡ some op) × Post Q E (m w).0 (m w).1.disk

  module _ {A : Type 0} {P : Disk → Type 0} {Q : A → Disk → Type 0}
      {E : UpdateError → Disk → Type 0} where
    pub triple_pure : (a : A) → ((d : Disk) → P d → Q a d) → Triple P (pure a) Q E
    triple_pure a imp = record { at = λ w active p. (active, imp w.disk p) }

    pub triple_throw : (e : UpdateError) → ((d : Disk) → P d → E e d) → Triple P (throw e) Q E
    triple_throw e imp = record { at = λ w active p. (active, imp w.disk p) }

    -- A fact that the precondition gives may be used to prove the statement.
    pub triple_given :
        (F : Type 0) (m : M A) → ((d : Disk) → P d → F) → (F → Triple P m Q E) → Triple P m Q E
    triple_given F m fact t = record { at = λ w active p. (t (fact w.disk p)).at w active p }

    -- A fact beside the precondition.
    pub triple_fact : (F : Type 0) (m : M A) → (F → Triple P m Q E) → Triple (λ d. P d × F) m Q E
    triple_fact F m t = record { at = λ w active p. (t p.1).at w active p.0 }

    pub triple_weaken :
        {P' : Disk → Type 0} {Q' : A → Disk → Type 0} {E' : UpdateError → Disk → Type 0} (m : M A)
        → ((d : Disk) → P d → P' d)
        → ((a : A) (d : Disk) → Q' a d → Q a d)
        → ((e : UpdateError) (d : Disk) → E' e d → E e d)
        → Triple P' m Q' E'
        → Triple P m Q E
    triple_weaken {Q'} {E'} m pre post thrown t = record {
      at = λ w active p. go (m w).0 (m w).1 (t.at w active (pre w.disk p));
    }
      where
        go :
            (r : Result UpdateError A) (w' : World)
            → (w'.active_operation_id ≡ some op) × Post Q' E' r w'.disk
            → (w'.active_operation_id ≡ some op) × Post Q E r w'.disk
        go (ok a) w' q = (q.0, post a w'.disk q.1)
        go (err e) w' q = (q.0, thrown e w'.disk q.1)

    pub triple_result :
        (r : Result UpdateError A) → ((d : Disk) → P d → Post Q E r d) → Triple P (λ w. (r, w)) Q E
    triple_result r imp = record { at = λ w active p. (active, imp w.disk p) }

    pub triple_catch :
        {R : UpdateError → Disk → Type 0} (m : M A) (h : UpdateError → M A)
        → Triple P m Q R
        → ((e : UpdateError) → Triple (R e) (h e) Q E)
        → Triple P (catch m h) Q E
    unfolding catch
    triple_catch {R} m h tm th = record { at = λ w active p. go (m w).0 (m w).1 (tm.at w active p) }
      where
        go :
            (r : Result UpdateError A) (w' : World)
            → (w'.active_operation_id ≡ some op) × Post Q R r w'.disk
            → ((recover r h w').1.active_operation_id ≡ some op)
              × Post Q E (recover r h w').0 (recover r h w').1.disk
        go (ok a) w' q = q
        go (err e) w' q = (th e).at w' q.0 q.1

  module _ {P : Disk → Type 0} {E : UpdateError → Disk → Type 0} where
    pub triple_get_disk :
        {Q : Disk → Disk → Type 0} → ((d : Disk) → P d → Q d d) → Triple P get_disk Q E
    unfolding get_disk
    triple_get_disk imp = record { at = λ w active p. (active, imp w.disk p) }

    pub triple_get_status :
        (version : String) {Q : DruviaUpdateStatus → Disk → Type 0}
        → ((d : Disk) → P d → Q (stored_status version d) d)
        → Triple P (get_status version) Q E
    triple_get_status version imp = record {
      at = λ w active p. rw (read version w active) (active, imp w.disk p);
    }

    pub triple_call? : Triple P call? (λ _ d. P d) E
    unfolding call?
    triple_call? = record { at = λ w active p. (active, p) }

  module _ {P : Disk → Type 0} {Q : Unit {0} → Disk → Type 0}
      {E : UpdateError → Disk → Type 0} where
    -- A call leaves the disk alone, whether it succeeds or fails.
    pub triple_call :
        ((d : Disk) → P d → Q tt d)
        → ((e : UpdateError) (d : Disk) → P d → E e d)
        → Triple P call Q E
    unfolding call
    triple_call good bad = record {
      at = λ w active p. go (w.results w.calls) (record w { calls = w.calls + 1 }) active p;
    }
      where
        go :
            (r : CallResult) (w : World)
            → w.active_operation_id ≡ some op
            → P w.disk
            → ((call_result r w).1.active_operation_id ≡ some op)
              × Post Q E (call_result r w).0 (call_result r w).1.disk
        go CallResult.succeeds w active p = (active, good w.disk p)
        go CallResult.missing w active p = (active, bad _ w.disk p)
        go CallResult.fails w active p = (active, bad _ w.disk p)

    pub triple_put_disk :
        (d : Disk) → ((before : Disk) → P before → Q tt d) → Triple P (put_disk d) Q E
    unfolding put_disk
    triple_put_disk d imp = record { at = λ w active p. (active, imp w.disk p) }

    -- While an operation is active the state file is written as it stands.
    pub triple_write_state :
        (version : String) (patch : DruviaUpdateStatus → DruviaUpdateStatus)
        → ((d : Disk) → P d → Q tt (record d { status = some (patch (stored_status version d)) }))
        → Triple P (write_state version patch) Q E
    triple_write_state version patch imp = record {
      at = λ w active p. rw (written version patch w active) (active, imp w.disk p);
    }

  module _ {A B : Type 0} {P : Disk → Type 0} {Q : B → Disk → Type 0}
      {E : UpdateError → Disk → Type 0} where
    pub triple_bind :
        (R : A → Disk → Type 0) (m : M A) (f : A → M B)
        → Triple P m R E
        → ((a : A) → Triple (R a) (f a) Q E)
        → Triple P (m >>= f) Q E
    unfolding ◌>>=◌
    triple_bind R m f tm tf = record { at = λ w active p. go (m w).0 (m w).1 (tm.at w active p) }
      where
        go :
            (r : Result UpdateError A) (w' : World)
            → (w'.active_operation_id ≡ some op) × Post R E r w'.disk
            → ((continue r f w').1.active_operation_id ≡ some op)
              × Post Q E (continue r f w').0 (continue r f w').1.disk
        go (ok a) w' q = (tf a).at w' q.0 q.1
        go (err e) w' q = q
