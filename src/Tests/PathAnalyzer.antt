-- ===== src/Tests/PathAnalyzer.antt =====
-- The path analyzer on a path of two blocks, `x := 1` and then `assume(x == 2)`.
use clam.Prelude.{
  ℕ, zero, suc, ◌≡◌, refl, ◌∙◌, Bool, true, false, not, ◌&&◌, ◌||◌, List, [], ◌∷◌, ◌++◌, some, ◌==◌,
  if◌then◌else◌, elem, get_elem?, arith,
}
use clam.PathAnalyzer.Interface.{assume, other, Stmt, Cfg, Domain, VarDom, VarDomLaws, ok}
use clam.PathAnalyzer.Forward.{is_bool_stmt, solve_path, get_fwd_constraints}
use clam.PathAnalyzer.Slice.{remove_irrelevant_statements}
use clam.PathAnalyzer.Minimize.{switches, run_core, reaches_bottom, minimize_core, semantic_core}
use clam.PathAnalyzer.Solve.{check, forward, solve}
use clam.PathAnalyzer.ForwardLaws.{path_stmts, executed}
use clam.PathAnalyzer.SliceLaws.{OwnsStmts}
use clam.PathAnalyzer.SliceSound.{Concrete, Runs}
use clam.PathAnalyzer.SliceRuns.{UsesVariables, remove-infeasible}
use clam.PathAnalyzer.SolveLaws.{semantic_core-ok}
use clam.PathAnalyzer.SolveAnswers.{solve_path_lem, forward_layered, SolveAnswer, solve-answers}
use clam.PathAnalyzer.FwdMap.{get_fwd_constraints-entry, check_sound, Distinct, Linked}

-- Statement 0 is `x := 1`, statement 1 is `assume(x == 2)`, and 2 is `y := 5`.
abbrev stmt_of : ℕ → Stmt
stmt_of zero = record {
  kind = other;
  contradiction = false;
  variables = [];
  uses = [];
  defs = 0 ∷ [];
}
stmt_of (suc zero) = record {
  kind = assume;
  contradiction = false;
  variables = 0 ∷ [];
  uses = 0 ∷ [];
  defs = [];
}
stmt_of (suc (suc s)) = record {
  kind = other;
  contradiction = false;
  variables = [];
  uses = [];
  defs = 1 ∷ [];
}

abbrev block_of : ℕ → List ℕ
block_of zero = 0 ∷ 2 ∷ []
block_of (suc zero) = 1 ∷ []
block_of (suc (suc b)) = []

abbrev parent_block : ℕ → ℕ
parent_block zero = 0
parent_block (suc zero) = 1
parent_block (suc (suc s)) = 0

abbrev two_blocks : Cfg
two_blocks = record {
  node = block_of;
  next_nodes = λ b. if b == 0 then 1 ∷ [] else [];
  stmt = stmt_of;
  parent = parent_block;
}

two_blocks-OwnsStmts : OwnsStmts two_blocks
two_blocks-OwnsStmts = record { parent_of = owner }
  where
    owner : (b i s : ℕ) → get_elem? (block_of b) i ≡ some s → parent_block s ≡ b
    owner zero zero s h = ground arith
    owner zero (suc zero) s h = ground arith
    owner zero (suc (suc i)) s h = cc
    owner (suc zero) zero s h = ground arith
    owner (suc zero) (suc i) s h = cc
    owner (suc (suc b)) i s h = cc

-- What is known of x.
data Known : Type 0 where
  nothing anything : Known
  value : ℕ → Known

abbrev known-is_bottom : Known → Bool
known-is_bottom nothing = true
known-is_bottom _ = false

abbrev known-step : ℕ → Known → Known
known-step zero nothing = nothing
known-step zero _ = value 1
known-step (suc zero) nothing = nothing
known-step (suc zero) anything = value 2
known-step (suc zero) (value n) = if n == 2 then value n else nothing
known-step (suc (suc s)) k = k

abbrev constants : Domain
constants = record {
  Dom = Known;
  is_bottom = known-is_bottom;
  top = anything;
  bottom = nothing;
  transform = known-step;
}

abbrev is_nil : List ℕ → Bool
is_nil [] = true
is_nil (x ∷ xs) = false

abbrev keep_if : (ℕ → Bool) → List ℕ → List ℕ
keep_if p [] = []
keep_if p (x ∷ xs) = if p x then x ∷ keep_if p xs else keep_if p xs

elem-append : (x : ℕ) (xs ys : List ℕ) → elem x (xs ++ ys) ≡ (elem x xs || elem x ys)
elem-append x [] ys = refl
elem-append x (y ∷ xs) ys = ground (arith, elem-append x xs ys)

elem-keep_if : (x : ℕ) (p : ℕ → Bool) (xs : List ℕ) → elem x (keep_if p xs) ≡ (elem x xs && p x)
elem-keep_if x p [] = refl
elem-keep_if x p (y ∷ xs) = ground (arith, elem-keep_if x p xs)

elem-is_nil : (x : ℕ) (xs : List ℕ) → is_nil xs ≡ true → elem x xs ≡ false
elem-is_nil x [] h = refl
elem-is_nil x (y ∷ xs) h = cc

abbrev lists : VarDom
lists = record {
  Set = List ℕ;
  empty = [];
  add = λ a x. x ∷ a;
  join = λ a b. a ++ b;
  minus = λ a b. keep_if (λ x. not (elem x b)) a;
  meet = λ a b. keep_if (λ x. elem x b) a;
  is_empty = is_nil;
  has = elem;
}

lists_laws : VarDomLaws lists
lists_laws = record {
  has-empty = λ x. refl;
  has-add = λ x y a. refl;
  has-join = elem-append;
  has-minus = λ x a b. elem-keep_if x (λ y. not (elem y b)) a;
  has-meet = λ x a b. elem-keep_if x (λ y. elem y b) a;
  is_empty-empty = refl;
  has-is_empty = elem-is_nil;
}

abbrev both : List ℕ
both = 0 ∷ 1 ∷ []

solve_path_lem_example :
    ((solve_path two_blocks constants anything both false [] [] 0).run.found ≡ true)
    × ((solve_path two_blocks constants anything both false [] [] 0).run.statements
        ≡ 0 ∷ 2 ∷ 1 ∷ [])
unfolding path_stmts reaches_bottom executed
solve_path_lem_example = solve_path_lem two_blocks constants anything both false [] [] 0 refl

forward_layered_example :
    (forward lists constants two_blocks switches anything both true).run.statements ≡ 0 ∷ 2 ∷ 1 ∷ []
unfolding path_stmts executed is_bool_stmt
forward_layered_example =
    forward_layered two_blocks constants lists anything both refl
      (unfold path_stmts reaches_bottom in refl)

solve-answers_example :
    SolveAnswer two_blocks constants lists both
      (forward lists constants two_blocks switches anything both false)
      (solve lists constants two_blocks switches anything both false)
solve-answers_example =
    solve-answers two_blocks constants lists two_blocks-OwnsStmts anything both false

get_fwd_constraints-entry_example :
    get_fwd_constraints two_blocks constants
      (solve_path two_blocks constants anything both false [] [] 0).fwd_dom_map
      1
    ≡ value 1
unfolding path_stmts run_core
get_fwd_constraints-entry_example =
    get_fwd_constraints-entry two_blocks constants false anything (0 ∷ []) 1 [] refl
      (refl, (refl, tt)) (unfold path_stmts reaches_bottom in refl)

check_sound_example : Distinct both × Linked two_blocks both
check_sound_example = check_sound two_blocks both (unfold check in refl)

-- the core of the path: `y := 5` is dropped
solve_core :
    solve lists constants two_blocks switches anything both false
    ≡ ok (
      false,
      record {
        fwd_dom_map =
            record { block = 1; state = value 1 } ∷ record { block = 0; state = anything } ∷ [];
        core = 0 ∷ 1 ∷ [];
      },
    )
unfolding solve
solve_core = refl

-- The concrete meaning of the three statements.
abbrev set_to : (ℕ → ℕ) → ℕ → ℕ → ℕ → ℕ
set_to σ x n y = if y == x then n else σ y

abbrev ExecOf : ℕ → (ℕ → ℕ) → (ℕ → ℕ) → Type 0
ExecOf zero σ σ' = σ' ≡ set_to σ 0 1
ExecOf (suc zero) σ σ' = (σ 0 ≡ 2) × (σ' ≡ σ)
ExecOf (suc (suc s)) σ σ' = σ' ≡ set_to σ 1 5

frame_of :
    (s : ℕ) (σ σ' : ℕ → ℕ) (x : ℕ) → ExecOf s σ σ' → elem x (stmt_of s).defs ≡ false → σ' x ≡ σ x
frame_of zero σ σ' x e h = rw e (ground arith)
frame_of (suc zero) σ σ' x e h = rw e.1 refl
frame_of (suc (suc s)) σ σ' x e h = rw e (ground arith)

local_of :
    (s : ℕ) (σ σ' τ : ℕ → ℕ)
    → ExecOf s σ σ'
    → ((x : ℕ) → elem x (stmt_of s).uses ≡ true → τ x ≡ σ x)
    → (τ' : ℕ → ℕ) × ExecOf s τ τ' × ((x : ℕ) → elem x (stmt_of s).defs ≡ true → τ' x ≡ σ' x)
local_of zero σ σ' τ e h = (set_to τ 0 1, refl, λ x hx. rw e (ground arith))
local_of (suc zero) σ σ' τ e h = (τ, (h 0 refl ∙ e.0, refl), λ x hx. cc)
local_of (suc (suc s)) σ σ' τ e h = (set_to τ 1 5, refl, λ x hx. rw e (ground arith))

abbrev concrete : Concrete stmt_of
concrete = record { Val = ℕ; exec = ExecOf; frame = frame_of; local = local_of }

known_uses : UsesVariables stmt_of
known_uses = record { uses_of = uses }
  where
    uses :
        (s x : ℕ)
        → clam.PathAnalyzer.SliceRuns.IsCondition (stmt_of s).kind
        → elem x (stmt_of s).uses ≡ true
        → elem x (stmt_of s).variables ≡ true
    uses zero x c h = h
    uses (suc zero) x c h = h
    uses (suc (suc s)) x c h = h

no_run : (σ : ℕ → ℕ) → ¬ Runs concrete (0 ∷ 1 ∷ []) σ
no_run σ (σ1, e, (σ2, (two, e'), _)) =
    let one : σ1 0 ≡ 1 = rw e refl in absurd (omega (arith, one, two))

remove-infeasible_example : ¬ Runs concrete (0 ∷ 2 ∷ 1 ∷ []) (λ x. x)
remove-infeasible_example =
    remove-infeasible lists lists_laws two_blocks known_uses concrete true (0 ∷ 2 ∷ []) 1 0
      (0 ∷ 1 ∷ []) refl (unfold remove_irrelevant_statements in refl) no_run (λ x. x)

semantic_core-ok_example :
    semantic_core constants switches [] (0 ∷ 2 ∷ 1 ∷ [])
    ≡ ok (true, minimize_core constants [] (0 ∷ 2 ∷ 1 ∷ []))
semantic_core-ok_example =
    semantic_core-ok constants (0 ∷ 2 ∷ 1 ∷ []) refl (unfold reaches_bottom in refl)

-- A domain in which statement 7 alone, wherever it stands, gives bottom.
abbrev flag : Domain
flag = record {
  Dom = Bool;
  is_bottom = λ b. b;
  top = false;
  bottom = true;
  transform = λ s b. b || s == 7;
}
