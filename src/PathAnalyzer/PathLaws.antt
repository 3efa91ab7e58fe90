-- ===== src/PathAnalyzer/PathLaws.antt =====
-- solve_path as a whole: what it finds, what it records, and where bottom was found.
use clam.Prelude.{
  ℕ, suc, Bool, true, false, not, ◌&&◌, List, [], ◌∷◌, ◌++◌, some, ◌≡◌, refl, sym, ◌∙◌,
  if◌then◌else◌, length, get_elem?, arith, Bool-cases, inl, inr, get_elem?-append, length-append,
}
use mathlib.Core.List.{append_assoc, append-nil}
use clam.PathAnalyzer.Interface.{Cfg, Domain}
use clam.PathAnalyzer.Forward.{is_bool_stmt, Run, PathRun, run_block, run_path, insert_new}
use clam.PathAnalyzer.Minimize.{run_core, reaches_bottom}
use clam.PathAnalyzer.ForwardLaws.{
  taken, path_stmts, executed, reaches_bottom-append, executed-append, reaches_bottom-run_core,
  run_block-value, run_block-found, run_block-statements,
}

module _ (c : Cfg) (d : Domain) (only_bool : Bool) where
  open c use {node}
  open d use {Dom, is_bottom}

  -- the run over one block, started as run_path starts it
  abbrev block_run : ℕ → Run Dom → Run Dom
  block_run b r = run_block c d only_bool (node b) (record r { bottom_stmt = 0; found = false })

  pub run_path_bottom :
      (i : ℕ) (bs : List ℕ) (p : PathRun Dom)
      → is_bottom p.run.value ≡ true
      → run_path c d only_bool i bs p ≡ p
  unfolding run_path
  run_path_bottom i [] p h = refl
  run_path_bottom i (b ∷ bs) p h = rw h

  -- The state after a block of the path.
  pub after_block : ℕ → ℕ → PathRun Dom → PathRun Dom
  after_block i b p =
      let r = block_run b p.run in
      record {
        run = record r { found = if r.found then true else p.run.found };
        fwd_dom_map = insert_new b p.run.value p.fwd_dom_map;
        bottom_block = if r.found && not p.run.found then i else p.bottom_block;
      }

  pub run_path_step :
      (i b : ℕ) (bs : List ℕ) (p : PathRun Dom)
      → is_bottom p.run.value ≡ false
      → run_path c d only_bool i (b ∷ bs) p ≡ run_path c d only_bool (suc i) bs (after_block i b p)
  unfolding run_path after_block
  run_path_step i b bs p h = rw h

  module _ (i b : ℕ) (p : PathRun Dom) where
    pub after_block-value :
        (after_block i b p).run.value ≡ run_core d (taken c only_bool (node b)) p.run.value
    unfolding after_block
    after_block-value =
        run_block-value d c only_bool (node b) (record p.run { bottom_stmt = 0; found = false })

    pub after_block-map : (after_block i b p).fwd_dom_map ≡ insert_new b p.run.value p.fwd_dom_map
    unfolding after_block
    after_block-map = refl

    after_block-found :
        p.run.found ≡ false
        → (after_block i b p).run.found ≡ reaches_bottom d (taken c only_bool (node b)) p.run.value
    unfolding after_block
    after_block-found f = ground (
      arith,
      run_block-found d c only_bool (node b) (record p.run { bottom_stmt = 0; found = false }) refl,
    )

    after_block-statements :
        (after_block i b p).run.statements
        ≡ p.run.statements ++ executed d (taken c only_bool (node b)) p.run.value
    unfolding after_block
    after_block-statements =
        run_block-statements d c only_bool (node b)
          (record p.run { bottom_stmt = 0; found = false })

  pub run_path-found :
      (i : ℕ) (bs : List ℕ) (p : PathRun Dom)
      → is_bottom p.run.value ≡ false
      → p.run.found ≡ false
      → ((run_path c d only_bool i bs p).run.found
          ≡ reaches_bottom d (path_stmts c only_bool bs) p.run.value)
        × ((run_path c d only_bool i bs p).run.statements
            ≡ p.run.statements ++ executed d (path_stmts c only_bool bs) p.run.value)
  unfolding path_stmts
  run_path-found i [] p h f =
      unfold run_path reaches_bottom executed in (f, sym (append-nil p.run.statements))
  run_path-found i (b ∷ bs) p h f =
      let q = after_block i b p in
      let block = taken c only_bool (node b) in
      let v = p.run.value in
      ground (
        arith,
        run_path_step i b bs p h,
        run_path_bottom (suc i) bs q,
        after_block-value i b p,
        after_block-found i b p f,
        after_block-statements i b p,
        reaches_bottom-run_core d block v h,
        reaches_bottom-append d block (path_stmts c only_bool bs) v,
        executed-append d block (path_stmts c only_bool bs) v,
        append_assoc p.run.statements (executed d block v)
            (executed d (path_stmts c only_bool bs) (run_core d block v)),
        run_path-found (suc i) bs q,
      )

  -- Where bottom was found: the last statement taken is the one at bottom_stmt in its block.
  Last : Run Dom → List ℕ → Type 0
  Last r ss =
      (s : ℕ) × (front : List ℕ) × (r.statements ≡ front ++ (s ∷ []))
      × (get_elem? ss r.bottom_stmt ≡ some s)

  run_block-Last :
      (done ss : List ℕ) (r : Run Dom)
      → r.found ≡ false
      → r.bottom_stmt ≡ length done
      → (run_block c d only_bool ss r).found ≡ true
      → Last (run_block c d only_bool ss r) (done ++ ss)
  unfolding run_block Last
  run_block-Last done [] r f e h = ground arith
  run_block-Last done (s ∷ ss) r f e h =
      let n : suc r.bottom_stmt ≡ length (done ++ (s ∷ [])) =
        omega (arith, length-append done (s ∷ [])) in
      let skipped = record r { bottom_stmt = suc r.bottom_stmt } in
      let pushed = record r {
        value = d.transform s r.value;
        statements = r.statements ++ (s ∷ []);
        bottom_stmt = suc r.bottom_stmt;
      } in
      let assoc = append_assoc done (s ∷ []) ss in
      elim (Bool-cases (only_bool && not (is_bool_stmt (c.stmt s).kind))) [
        | inl skip ↦
            rw skip (rw assoc at (run_block-Last (done ++ (s ∷ [])) ss skipped f n (rw skip at h)))
        | inr take ↦ elim (Bool-cases (is_bottom (d.transform s r.value))) [
          | inl bot ↦ rw (take, bot) (s, r.statements, refl, rw e (get_elem?-append done s ss))
          | inr go ↦
              rw (take, go)
                (rw assoc at (run_block-Last (done ++ (s ∷ [])) ss pushed f n (rw (take, go) at h)))
        ]
      ]

  after_block-Last :
      (i b : ℕ) (p : PathRun Dom)
      → p.run.found ≡ false
      → (after_block i b p).run.found ≡ true
      → (s : ℕ) × (front : List ℕ) × ((after_block i b p).run.statements ≡ front ++ (s ∷ []))
        × (get_elem? (node b) (after_block i b p).run.bottom_stmt ≡ some s)
  unfolding after_block Last
  after_block-Last i b p f h =
      run_block-Last [] (node b) (record p.run { bottom_stmt = 0; found = false }) refl refl
        (ground arith)

  -- When a run of solve_path finds bottom, the statement at bottom_stmt of some block of the path
  -- is the last one taken.
  abbrev pub Explains : Run Dom → Type 0
  Explains r =
      (b s : ℕ) × (front : List ℕ) × (r.statements ≡ front ++ (s ∷ []))
      × (get_elem? (node b) r.bottom_stmt ≡ some s)

  pub run_path-Explains :
      (i : ℕ) (bs : List ℕ) (p : PathRun Dom)
      → is_bottom p.run.value ≡ false
      → p.run.found ≡ false
      → (run_path c d only_bool i bs p).run.found ≡ true
      → Explains (run_path c d only_bool i bs p).run
  run_path-Explains i [] p h f found = unfold run_path in cc
  run_path-Explains i (b ∷ bs) p h f found =
      let q = after_block i b p in
      let block = taken c only_bool (node b) in
      let v = p.run.value in
      let step = run_path_step i b bs p h in
      let flag = after_block-found i b p f in
      let last = reaches_bottom-run_core d block v h in
      elim (Bool-cases (reaches_bottom d block v)) [
        | inl bot ↦
            let stop : run_path c d only_bool (suc i) bs q ≡ q =
              run_path_bottom (suc i) bs q (rw (after_block-value i b p, ← last) bot) in
            let t = after_block-Last i b p f (flag ∙ bot) in rw (step, stop) (b, t.0, t.1, t.2, t.3)
        | inr go ↦ rw step (
            run_path-Explains (suc i) bs q (rw (after_block-value i b p, ← last) go) (flag ∙ go)
              (rw step at found))
      ]
