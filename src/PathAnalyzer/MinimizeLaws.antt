-- ===== src/PathAnalyzer/MinimizeLaws.antt =====
-- minimize_path: the semantic core keeps bottom and is a part of the path.
use mathlib.Core.List.{Sublist, append_assoc, append-nil}
use mathlib.Core.List.Sublist
use clam.Prelude.{ℕ, Bool, true, List, [], ◌∷◌, ◌++◌, ◌≡◌, Bool-cases, inl, inr}
use clam.PathAnalyzer.Interface.{Domain}
use clam.PathAnalyzer.Minimize.{run_core, minimize_core}

module _ (d : Domain) where
  open d use {is_bottom, top}

  -- Whether interpreting the statements from top gives bottom.
  abbrev pub bottoms : List ℕ → Bool
  bottoms xs = is_bottom (run_core d xs top)

  pub minimize_core-bottoms :
      (kept ss : List ℕ) → bottoms (kept ++ ss) ≡ true → bottoms (minimize_core d kept ss) ≡ true
  unfolding minimize_core
  minimize_core-bottoms kept [] h = rw append-nil at h
  minimize_core-bottoms kept (s ∷ ss) h = elim (Bool-cases (bottoms (kept ++ ss))) [
    | inl e ↦ rw e (minimize_core-bottoms kept ss e)
    | inr e ↦
        rw e (minimize_core-bottoms (kept ++ (s ∷ [])) ss (rw (append_assoc kept (s ∷ []) ss) h))
  ]

  pub minimize_core-sublist : (kept ss : List ℕ) → Sublist (minimize_core d kept ss) (kept ++ ss)
  unfolding minimize_core
  minimize_core-sublist kept [] = rw (append-nil kept) (Sublist.refl kept)
  minimize_core-sublist kept (s ∷ ss) = elim (Bool-cases (bottoms (kept ++ ss))) [
    | inl e ↦ rw e (
        Sublist.trans (minimize_core-sublist kept ss)
          (Sublist.append (Sublist.refl kept) (Sublist.cons s (Sublist.refl ss))))
    | inr e ↦
        rw e (rw (append_assoc kept (s ∷ []) ss) at (minimize_core-sublist (kept ++ (s ∷ [])) ss))
  ]
