-- ===== src/DataAccess/Managed/Recover/Prefix.antt =====
-- The states that an interrupted operation may leave behind: the permissions of the source are dropped
-- one by one, then those of the target are created one by one.
use druvia.Prelude.{
  ℕ, zero, suc, ◌≡◌, refl, sym, ap, ◌∙◌, ◌↔◌, String, str_eq, eq_iff, Bool-cases, true, ◌||◌, List,
  [], ◌∷◌, ◌++◌, map, includes, includes-append, inl, inr, arith,
}
use druvia.DataAccess.Types.{MaterializedDataPermission}
use druvia.DataAccess.Managed.Recover.{
  state_delete, state_set, state_of, drop_all, create_all, is_recoverable_permission_snapshot,
}

pub data Command : Type 0 where
  drop create : MaterializedDataPermission → Command

unfoldable pub perform : Command → List MaterializedDataPermission → List MaterializedDataPermission
perform (drop p) state = state_delete p state
perform (create p) state = state_set p state

unfoldable pub run :
    List Command → List MaterializedDataPermission → List MaterializedDataPermission
unfolding perform
run [] state = state
run (c ∷ cs) state = run cs (perform c state)

unfoldable pub take : ℕ → List Command → List Command
take n [] = []
take zero (c ∷ cs) = []
take (suc n) (c ∷ cs) = c ∷ take n cs

unfoldable pub commands :
    List MaterializedDataPermission → List MaterializedDataPermission → List Command
commands source target = map drop source ++ map create target

module _ (digest : List MaterializedDataPermission → String) where
  -- The digests of the states after each command.
  later : List Command → List MaterializedDataPermission → List String
  unfolding perform
  later [] state = []
  later (c ∷ cs) state = digest (perform c state) ∷ later cs (perform c state)

  later-append :
      (cs ds : List Command) (state : List MaterializedDataPermission)
      → later (cs ++ ds) state ≡ later cs state ++ later ds (run cs state)
  unfolding later run
  later-append [] ds state = refl
  later-append (c ∷ cs) ds state =
      ap (λ (rest : List String). digest (perform c state) ∷ rest)
        (later-append cs ds (perform c state))

  -- A digest is that of a state on the way exactly when it is the first one's or a later one's.
  found_at :
      (cs : List Command) (state : List MaterializedDataPermission) (d : String)
      → (str_eq (digest state) d || includes (later cs state) d) ≡ true
      → (n : ℕ) × (d ≡ digest (run (take n cs) state))
  unfolding later run take
  found_at [] state d found = (0, ground (arith, eq_iff (digest state) d))
  found_at (c ∷ cs) state d found = elim (Bool-cases (str_eq (digest state) d)) [
    | inl here ↦ (0, ground (arith, eq_iff (digest state) d))
    | inr apart ↦ let (n, at) = found_at cs (perform c state) d (ground arith) in (suc n, at)
  ]

  at_found :
      (cs : List Command) (state : List MaterializedDataPermission) (d : String) (n : ℕ)
      → d ≡ digest (run (take n cs) state)
      → (str_eq (digest state) d || includes (later cs state) d) ≡ true
  unfolding later run take
  at_found [] state d n at = ground (arith, eq_iff (digest state) d)
  at_found (c ∷ cs) state d zero at = ground (arith, eq_iff (digest state) d)
  at_found (c ∷ cs) state d (suc n) at = ground (arith, at_found cs (perform c state) d n at)

-- The two loops run the commands and collect their digests.
module _ (snapshot : List MaterializedDataPermission → List MaterializedDataPermission)
    (digest : List MaterializedDataPermission → String) where
  drop_all-run :
      (ps state : List MaterializedDataPermission) (allowed : List String)
      → (drop_all snapshot digest ps state allowed).0 ≡ run (map drop ps) state
  unfolding drop_all run perform
  drop_all-run [] state allowed = refl
  drop_all-run (p ∷ ps) state allowed = drop_all-run ps (state_delete p state) _

  drop_all-later :
      (ps state : List MaterializedDataPermission) (allowed : List String) (d : String)
      → includes (drop_all snapshot digest ps state allowed).1 d
        ≡ (includes allowed d || includes (later digest (map drop ps) state) d)
  unfolding drop_all later perform
  drop_all-later [] state allowed d = ground arith
  drop_all-later (p ∷ ps) state allowed d =
      let next = state_delete p state in
      ground (arith, drop_all-later ps next (digest next ∷ allowed) d)

  create_all-later :
      (ps state : List MaterializedDataPermission) (allowed : List String) (d : String)
      → includes (create_all snapshot digest ps state allowed).1 d
        ≡ (includes allowed d || includes (later digest (map create ps) state) d)
  unfolding create_all later perform
  create_all-later [] state allowed d = ground arith
  create_all-later (p ∷ ps) state allowed d =
      let next = state_set p state in
      ground (arith, create_all-later ps next (digest next ∷ allowed) d)

  recoverable-later :
      (current source target : List MaterializedDataPermission)
      → is_recoverable_permission_snapshot snapshot digest current source target ≡ (
          str_eq (digest (state_of (snapshot source) [])) (digest current)
          || includes
              (later digest
                (commands (snapshot source) (snapshot target))
                (state_of (snapshot source) []))
              (digest current))
  unfolding is_recoverable_permission_snapshot commands
  recoverable-later current source target =
      let from = snapshot source in
      let to = snapshot target in
      let start = state_of from [] in
      let allowed = digest start ∷ [] in
      let dropped = run (map drop from) start in
      let d = digest current in
      ap
        (λ (state : List MaterializedDataPermission).
          includes
            (create_all snapshot digest to state (drop_all snapshot digest from start allowed).1).1
            d)
        (drop_all-run from start allowed)
      ∙ ground (
        arith,
        create_all-later to dropped (drop_all snapshot digest from start allowed).1 d,
        drop_all-later from start allowed d,
        later-append digest (map drop from) (map create to) start,
        includes-append (later digest (map drop from) start) (later digest (map create to) dropped)
            d,
      )

-- A snapshot of the permissions is recoverable exactly when its digest is that of a state which an
-- interrupted operation leaves behind: the permissions of the source after some number of the
-- commands that drop each permission of the source and then create each one of the target.
pub is_recoverable_permission_snapshot_iff :
    (snapshot : List MaterializedDataPermission → List MaterializedDataPermission)
    (digest : List MaterializedDataPermission → String)
    (current source target : List MaterializedDataPermission)
    → (is_recoverable_permission_snapshot snapshot digest current source target ≡ true) ↔ (
        (n : ℕ) × (digest current
          ≡ digest (
              run
                (take n (commands (snapshot source) (snapshot target)))
                (state_of (snapshot source) []))))
is_recoverable_permission_snapshot_iff snapshot digest current source target =
    let same = recoverable-later snapshot digest current source target in
    let all = commands (snapshot source) (snapshot target) in
    let start = state_of (snapshot source) [] in
    (
      λ found. found_at digest all start (digest current) (sym same ∙ found),
      λ (n, at). same ∙ at_found digest all start (digest current) n at,
    )
