-- ===== src/PathAnalyzer/ForwardLaws.antt =====
-- solve_path against a run over the statements of the whole path.
use clam.Prelude.{
  ℕ, suc, Bool, true, false, not, ◌&&◌, List, [], ◌∷◌, ◌++◌, ◌≡◌, refl, sym, if◌then◌else◌, arith,
}
use mathlib.Core.List.{append_assoc, append-nil}
use clam.PathAnalyzer.Interface.{Cfg, Domain}
use clam.PathAnalyzer.Forward.{is_bool_stmt, Run, run_block}
use clam.PathAnalyzer.Minimize.{run_core, reaches_bottom}

-- The statements that a run takes, and those of a path.
unfoldable pub taken : Cfg → Bool → List ℕ → List ℕ
taken c only_bool [] = []
taken c only_bool (s ∷ ss) =
    let rest = taken c only_bool ss in
    if only_bool && not (is_bool_stmt (c.stmt s).kind) then rest else s ∷ rest

unfoldable pub path_stmts : Cfg → Bool → List ℕ → List ℕ
unfolding taken
path_stmts c only_bool [] = []
path_stmts c only_bool (b ∷ bs) = taken c only_bool (c.node b) ++ path_stmts c only_bool bs

module _ (d : Domain) where
  open d use {Dom, is_bottom, top, transform}

  -- The statements up to the first that gives bottom, that one included.
  unfoldable pub executed : List ℕ → Dom → List ℕ
  executed [] v = []
  executed (s ∷ ss) v =
      let v' = transform s v in
      let rest = executed ss v' in if is_bottom v' then s ∷ [] else s ∷ rest

  pub reaches_bottom-append :
      (xs ys : List ℕ) (v : Dom)
      → reaches_bottom d (xs ++ ys) v
        ≡ (if reaches_bottom d xs v then true else reaches_bottom d ys (run_core d xs v))
  unfolding reaches_bottom run_core
  reaches_bottom-append [] ys v = refl
  reaches_bottom-append (x ∷ xs) ys v = ground (arith, reaches_bottom-append xs ys (transform x v))

  pub run_core-append :
      (xs ys : List ℕ) (v : Dom)
      → reaches_bottom d xs v ≡ false
      → run_core d (xs ++ ys) v ≡ run_core d ys (run_core d xs v)
  unfolding reaches_bottom run_core
  run_core-append [] ys v h = refl
  run_core-append (x ∷ xs) ys v h = ground (arith, run_core-append xs ys (transform x v))

  pub executed-append :
      (xs ys : List ℕ) (v : Dom)
      → executed (xs ++ ys) v ≡ (
          if reaches_bottom d xs v
          then executed xs v
          else executed xs v ++ executed ys (run_core d xs v))
  unfolding reaches_bottom run_core executed
  executed-append [] ys v = refl
  executed-append (x ∷ xs) ys v = ground (arith, executed-append xs ys (transform x v))

  -- From a state that is not bottom, the flag says whether the last state is.
  pub reaches_bottom-run_core :
      (xs : List ℕ) (v : Dom)
      → is_bottom v ≡ false
      → reaches_bottom d xs v ≡ is_bottom (run_core d xs v)
  unfolding reaches_bottom run_core
  reaches_bottom-run_core [] v h = sym h
  reaches_bottom-run_core (x ∷ xs) v h = ground (arith, reaches_bottom-run_core xs (transform x v))

  module _ (c : Cfg) (only_bool : Bool) where
    pub run_block-value :
        (ss : List ℕ) (r : Run Dom)
        → (run_block c d only_bool ss r).value ≡ run_core d (taken c only_bool ss) r.value
    unfolding run_block taken run_core
    run_block-value [] r = refl
    run_block-value (s ∷ ss) r = ground (
      arith,
      run_block-value ss (record r { bottom_stmt = suc r.bottom_stmt }),
      run_block-value ss (record r {
        value = transform s r.value;
        statements = r.statements ++ (s ∷ []);
        bottom_stmt = suc r.bottom_stmt;
      }),
    )

    pub run_block-found :
        (ss : List ℕ) (r : Run Dom)
        → r.found ≡ false
        → (run_block c d only_bool ss r).found ≡ reaches_bottom d (taken c only_bool ss) r.value
    unfolding run_block taken reaches_bottom
    run_block-found [] r h = h
    run_block-found (s ∷ ss) r h = ground (
      arith,
      run_block-found ss (record r { bottom_stmt = suc r.bottom_stmt }),
      run_block-found ss (record r {
        value = transform s r.value;
        statements = r.statements ++ (s ∷ []);
        bottom_stmt = suc r.bottom_stmt;
      }),
    )

    pub run_block-statements :
        (ss : List ℕ) (r : Run Dom)
        → (run_block c d only_bool ss r).statements
          ≡ r.statements ++ executed (taken c only_bool ss) r.value
    unfolding run_block taken executed
    run_block-statements [] r = sym (append-nil r.statements)
    run_block-statements (s ∷ ss) r = ground (
      arith,
      run_block-statements ss (record r { bottom_stmt = suc r.bottom_stmt }),
      run_block-statements ss (record r {
        value = transform s r.value;
        statements = r.statements ++ (s ∷ []);
        bottom_stmt = suc r.bottom_stmt;
      }),
      append_assoc r.statements (s ∷ []) (executed (taken c only_bool ss) (transform s r.value)),
    )
