-- ===== src/Ir/Runs.antt =====
-- Blocks of statements, run one after the other.
use clam.Prelude.{
  ◌≡◌, refl, sym, ap, ◌∙◌, Bool, true, false, ◌||◌, List, [], ◌∷◌, ◌++◌, Option, none, some,
  if◌then◌else◌,
}
use clam.Ir.{Stmt, Env, IntOps, step, exec}

-- what is left of a state where `right` is assumed, if it is assumed at all
abbrev pub guard : Bool → Bool → Env → Option Env
guard asked right e = if asked then (if right then some e else none) else some e

-- the rest of a block, from what is left after its start
abbrev pub and_then : Option Env → (Env → Option Env) → Option Env
and_then none k = none
and_then (some e) k = k e

pub guard_twice :
    (asked also right : Bool) (e : Env) (k : Env → Option Env)
    → k e ≡ guard also right e
    → and_then (guard asked right e) k ≡ guard (asked || also) right e
guard_twice true true true e k h = h
guard_twice true true false e k h = refl
guard_twice true false true e k h = h
guard_twice true false false e k h = refl
guard_twice false also right e k h = h

and_then_assoc :
    (r : Option Env) (g h k : Env → Option Env)
    → ((e : Env) → g e ≡ and_then (h e) k)
    → and_then r g ≡ and_then (and_then r h) k
and_then_assoc none g h k same = refl
and_then_assoc (some e) g h k same = same e

module _ (o : IntOps) (picked : Env) where
  exec-∷ :
      (s : Stmt) (ss : List Stmt) (e : Env)
      → exec o picked (s ∷ ss) e ≡ and_then (step o picked s e) (exec o picked ss)
  unfolding exec
  exec-∷ s ss e = on (step o picked s e)
    where
      on :
          (r : Option Env)
          → elim r as (λ _. Option Env) [ none ↦ none | some e' ↦ exec o picked ss e' ]
            ≡ and_then r (exec o picked ss)
      on none = refl
      on (some e') = refl

  pub exec-++ :
      (xs ys : List Stmt) (e : Env)
      → exec o picked (xs ++ ys) e ≡ and_then (exec o picked xs e) (exec o picked ys)
  unfolding exec
  exec-++ [] ys e = refl
  exec-++ (s ∷ xs) ys e =
      exec-∷ s (xs ++ ys) e
      ∙ (and_then_assoc (step o picked s e) (exec o picked (xs ++ ys)) (exec o picked xs)
            (exec o picked ys) (exec-++ xs ys)
          ∙ ap (λ r. and_then r (exec o picked ys)) (sym (exec-∷ s xs e)))
