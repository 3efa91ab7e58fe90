-- ===== src/PathAnalyzer/FwdMap.antt =====
-- m_fwd_dom_map after the forward analysis, and the checks of a path.
use clam.Prelude.{
  ℕ, suc, Bool, true, false, List, [], ◌∷◌, ◌++◌, none, some, ◌≡◌, refl, sym, ap, ◌∙◌,
  if◌then◌else◌, ◌==◌, elem, arith, Bool-cases, inl, inr, length,
}
use clam.PathAnalyzer.Interface.{Cfg, Domain}
use clam.PathAnalyzer.Forward.{
  Entry, PathRun, find, insert_new, run_path, solve_path, get_fwd_constraints,
}
use clam.PathAnalyzer.Minimize.{run_core, reaches_bottom}
use clam.PathAnalyzer.Solve.{path_ok, check_path, check, has_kid}
use clam.PathAnalyzer.ForwardLaws.{
  taken, path_stmts, run_core-append, reaches_bottom-append, reaches_bottom-run_core,
}
use clam.PathAnalyzer.PathLaws.{
  run_path_bottom, run_path_step, after_block, after_block-value, after_block-map,
}

find-insert_new :
    {D : Type 0} (j b : ℕ) (v : D) (m : List (Entry D))
    → find b m ≡ none
    → find j (insert_new b v m) ≡ (if b == j then some v else find j m)
unfolding find insert_new
find-insert_new j b v m h = rw (h, insert_new) refl

find-insert_new_other :
    {D : Type 0} (j b : ℕ) (v : D) (m : List (Entry D))
    → (j == b) ≡ false
    → find j (insert_new b v m) ≡ find j m
unfolding find insert_new
find-insert_new_other j b v m h = ground arith

-- No block stands twice, and each has an edge to the next.
abbrev pub Distinct : List ℕ → Type 0
Distinct [] = Unit {0}
Distinct (b ∷ bs) = (elem b bs ≡ false) × Distinct bs

abbrev pub Linked : Cfg → List ℕ → Type 0
Linked c [] = Unit {0}
Linked c (b ∷ []) = Unit {0}
Linked c (b ∷ b' ∷ bs) = (has_kid c b b' ≡ true) × Linked c (b' ∷ bs)

module _ (c : Cfg) (d : Domain) (only_bool : Bool) where
  open d use {Dom, is_bottom}

  -- A block that is not among those to come keeps its entry.
  map_other :
      (x i : ℕ) (bs : List ℕ) (p : PathRun Dom)
      → elem x bs ≡ false
      → find x (run_path c d only_bool i bs p).fwd_dom_map ≡ find x p.fwd_dom_map
  map_other x i [] p h = unfold run_path in refl
  map_other x i (b ∷ bs) p h = elim (Bool-cases (is_bottom p.run.value)) [
    | inl e ↦ rw (run_path_bottom c d only_bool i (b ∷ bs) p e)
    | inr e ↦ rw (run_path_step c d only_bool i b bs p e) (
        map_other x (suc i) bs (after_block c d only_bool i b p) (ground arith)
        ∙ rw (after_block-map c d only_bool i b p)
            (find-insert_new_other x b p.run.value p.fwd_dom_map (ground arith)))
  ]

  -- None of the blocks has an entry yet.
  abbrev Fresh : List (Entry Dom) → List ℕ → Type 0
  Fresh m [] = Unit {0}
  Fresh m (b ∷ bs) = (find b m ≡ none) × Fresh m bs

  Fresh-insert :
      (b : ℕ) (v : Dom) (m : List (Entry Dom)) (bs : List ℕ)
      → elem b bs ≡ false
      → Fresh m bs
      → Fresh (insert_new b v m) bs
  Fresh-insert b v m [] h f = tt
  Fresh-insert b v m (x ∷ bs) h f =
      (find-insert_new_other x b v m (ground arith) ∙ f.0, Fresh-insert b v m bs (ground arith) f.1)

  map_entry :
      (front : List ℕ) (b : ℕ) (back : List ℕ) (i : ℕ) (p : PathRun Dom)
      → is_bottom p.run.value ≡ false
      → Distinct (front ++ (b ∷ back))
      → Fresh p.fwd_dom_map (front ++ (b ∷ back))
      → reaches_bottom d (path_stmts c only_bool front) p.run.value ≡ false
      → find b (run_path c d only_bool i (front ++ (b ∷ back)) p).fwd_dom_map
        ≡ some (run_core d (path_stmts c only_bool front) p.run.value)
  map_entry [] b back i p h dis fresh go = rw (run_path_step c d only_bool i b back p h) (
      map_other b (suc i) back (after_block c d only_bool i b p) dis.0
      ∙ rw (after_block-map c d only_bool i b p) (
          find-insert_new b b p.run.value p.fwd_dom_map fresh.0
          ∙ unfold path_stmts run_core in ground arith))
  map_entry (a ∷ front) b back i p h dis fresh go =
      let q = after_block c d only_bool i a p in
      let block = taken c only_bool (c.node a) in
      let rest = path_stmts c only_bool front in
      let v = p.run.value in
      let split : reaches_bottom d (block ++ rest) v ≡ false = unfold path_stmts in go in
      let parts = reaches_bottom-append d block rest v in
      let stays : reaches_bottom d block v ≡ false = ground (arith, split, parts) in
      let later : reaches_bottom d rest (run_core d block v) ≡ false =
        ground (arith, split, parts, stays) in
      let value = after_block-value c d only_bool i a p in
      let open_state : is_bottom q.run.value ≡ false =
        rw value (sym (reaches_bottom-run_core d block v h) ∙ stays) in
      let fresh' : Fresh q.fwd_dom_map (front ++ (b ∷ back)) =
        rw (after_block-map c d only_bool i a p)
          (Fresh-insert a v p.fwd_dom_map (front ++ (b ∷ back)) dis.0 fresh.1) in
      let entry = map_entry front b back (suc i) q open_state dis.1 fresh' (rw value later) in
      rw (run_path_step c d only_bool i a (front ++ (b ∷ back)) p h, entry, value)
        (unfold path_stmts in ap some (sym (run_core-append d block rest v stays)))

  Fresh-empty : (bs : List ℕ) → Fresh [] bs
  Fresh-empty [] = tt
  Fresh-empty (b ∷ bs) = (unfold find in refl, Fresh-empty bs)

  -- After solve_path over a path of distinct blocks, started with an empty map, get_fwd_constraints
  -- gives each block that the analysis reaches the abstract state at its entry: the one after the
  -- statements of the blocks before it.
  pub get_fwd_constraints-entry :
      (init : Dom) (front : List ℕ) (b : ℕ) (back : List ℕ)
      → is_bottom init ≡ false
      → Distinct (front ++ (b ∷ back))
      → reaches_bottom d (path_stmts c only_bool front) init ≡ false
      → get_fwd_constraints c d
          (solve_path c d init (front ++ (b ∷ back)) only_bool [] [] 0).fwd_dom_map
          b
        ≡ run_core d (path_stmts c only_bool front) init
  unfolding solve_path get_fwd_constraints
  get_fwd_constraints-entry init front b back h dis go =
      let e =
        map_entry front b back 0
          (record {
            run = record { value = init; statements = []; bottom_stmt = 0; found = false };
            fwd_dom_map = [];
            bottom_block = length (front ++ (b ∷ back));
          })
          h dis (Fresh-empty (front ++ (b ∷ back))) go in
      rw (e, get_fwd_constraints)

module _ (c : Cfg) where
  -- none of the blocks has been visited
  abbrev Unseen : List ℕ → List ℕ → Type 0
  Unseen visited [] = Unit {0}
  Unseen visited (b ∷ bs) = (elem b visited ≡ false) × Unseen visited bs

  Unseen-later :
      (a : ℕ) (visited bs : List ℕ)
      → Unseen (a ∷ visited) bs
      → Unseen visited bs × (elem a bs ≡ false)
  Unseen-later a visited [] h = (tt, refl)
  Unseen-later a visited (b ∷ bs) h =
      let (later, apart) = Unseen-later a visited bs h.1 in
      let first : ((b == a) ≡ false) × (elem b visited ≡ false) = ground (arith, h.0) in
      ((first.1, later), ground (arith, first.0, apart))

  check_path_sound :
      (visited bs : List ℕ)
      → check_path c visited bs ≡ path_ok
      → Unseen visited bs × Distinct bs × Linked c bs
  unfolding check_path
  check_path_sound visited [] h = (tt, tt, tt)
  check_path_sound visited (b ∷ []) h = (ground arith, ground arith, tt)
  check_path_sound visited (b ∷ b' ∷ bs) h = elim (Bool-cases (elem b visited)) [
    | inl e ↦ absurd (cc (rw e at h))
    | inr e ↦ elim (Bool-cases (has_kid c b b')) [
      | inr no_edge ↦ absurd (cc (rw (e, no_edge) at h))
      | inl edge ↦
          let (unseen, distinct, linked) =
            check_path_sound (b ∷ visited) (b' ∷ bs) (rw (e, edge) at h) in
          let (later, apart) = Unseen-later b visited (b' ∷ bs) unseen in
          ((e, later), (apart, distinct), (edge, linked))
    ]
  ]

  -- A path that passes the checks of solve has no repeated block, and every block has an edge to
  -- the next.
  pub check_sound : (path : List ℕ) → check c path ≡ path_ok → Distinct path × Linked c path
  unfolding check
  check_sound [] h = (tt, tt)
  check_sound (b ∷ []) h = ((refl, tt), tt)
  check_sound (b ∷ b' ∷ bs) h = let r = check_path_sound [] (b ∷ b' ∷ bs) h in (r.1, r.2)
