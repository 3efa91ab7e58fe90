-- ===== src/PathAnalyzer/SliceSound.antt =====
-- The slice against concrete runs: what a run needs of the statements, and that a run of the path
-- gives a run of its slice.
use mathlib.Core.List.{append_assoc, reverse-cons}
use clam.Prelude.{
  ℕ, Bool, true, false, List, [], ◌∷◌, ◌++◌, ◌≡◌, refl, sym, ◌∙◌, reverse, elem, arith, Bool-cases,
  inl, inr,
}
use clam.PathAnalyzer.Interface.{Stmt, VarDom, VarDomLaws}
use clam.PathAnalyzer.Slice.{set_of, relevant, slice}

-- What a statement does to the values of the variables: it changes only what it defines, and
-- depends only on what it uses. `exec s` may relate a store to several or to none.
pub record Concrete (stmt : ℕ → Stmt) : Type 1 where
  pub Val : Type 0
  pub exec : ℕ → (ℕ → Val) → (ℕ → Val) → Type 0
  pub frame :
      (s : ℕ) (σ σ' : ℕ → Val) (x : ℕ) → exec s σ σ' → elem x (stmt s).defs ≡ false → σ' x ≡ σ x
  pub local :
      (s : ℕ) (σ σ' τ : ℕ → Val)
      → exec s σ σ'
      → ((x : ℕ) → elem x (stmt s).uses ≡ true → τ x ≡ σ x)
      → (τ' : ℕ → Val) × exec s τ τ' × ((x : ℕ) → elem x (stmt s).defs ≡ true → τ' x ≡ σ' x)

-- A run of the statements in order from a store.
abbrev pub Runs : {stmt : ℕ → Stmt} (k : Concrete stmt) → List ℕ → (ℕ → k.Val) → Type 0
Runs k [] σ = Unit
Runs k (s ∷ ss) σ = (σ' : ℕ → k.Val) × k.exec s σ σ' × Runs k ss σ'

module _ (v : VarDom) (laws : VarDomLaws v) where
  open v use {Set, has}

  pub has-set_of : (x : ℕ) (xs : List ℕ) → has x (set_of v xs) ≡ elem x xs
  unfolding set_of
  has-set_of x [] = laws.has-empty x
  has-set_of x (y ∷ ys) = laws.has-add x y (set_of v ys) ∙ ground (arith, has-set_of x ys)

  module _ (only_data : Bool) (d : Set) (s : Stmt) where
    -- A statement that is dropped leaves the set as it is, and defines nothing in it.
    pub relevant_drops :
        (relevant v only_data d s).0 ≡ false
        → ((relevant v only_data d s).1 ≡ d) × ((x : ℕ) → has x d ≡ true → elem x s.defs ≡ false)
    unfolding relevant
    relevant_drops h = (
      ground arith,
      λ x hx.
          let defs = set_of v s.defs in
          ground (
            arith,
            laws.has-is_empty x defs,
            laws.has-is_empty x (v.meet d defs),
            laws.has-meet x d defs,
            has-set_of x s.defs,
          ),
    )

    -- After one that is kept the set has what the statement uses, and what it does not define.
    pub relevant_keeps :
        (relevant v only_data d s).0 ≡ true
        → ((x : ℕ) → elem x s.uses ≡ true → has x (relevant v only_data d s).1 ≡ true)
          × ((x : ℕ)
              → has x d ≡ true
              → elem x s.defs ≡ false
              → has x (relevant v only_data d s).1 ≡ true)
    unfolding relevant
    relevant_keeps h = (
      λ x hx.
          let uses = set_of v s.uses in
          ground (
            arith,
            laws.has-join x d uses,
            laws.has-join x (v.minus d (set_of v s.defs)) uses,
            has-set_of x s.uses,
          ),
      λ x hx hd.
          let uses = set_of v s.uses in
          let defs = set_of v s.defs in
          ground (
            arith,
            laws.has-join x d uses,
            laws.has-join x (v.minus d defs) uses,
            laws.has-minus x d defs,
            has-set_of x s.defs,
          ),
    )

  module _ {stmt : ℕ → Stmt} (k : Concrete stmt) (only_data : Bool) where
    open k use {Val, exec, frame, local}

    -- A run of `done` gives one of `kept` from every store that agrees on the set.
    abbrev Covers : Set → List ℕ → List ℕ → Type 0
    Covers d done kept =
        (σ τ : ℕ → Val) → ((x : ℕ) → has x d ≡ true → τ x ≡ σ x) → Runs k done σ → Runs k kept τ

    Covers-drop :
        (d : Set) (s : ℕ) (done kept : List ℕ)
        → (relevant v only_data d (stmt s)).0 ≡ false
        → Covers d done kept
        → Covers (relevant v only_data d (stmt s)).1 (s ∷ done) kept
    Covers-drop d s done kept h cover σ τ agree (σ', e, run) =
        let (same, dropped) = relevant_drops only_data d (stmt s) h in
        cover σ' τ (λ x hx. agree x (rw same hx) ∙ sym (frame s σ σ' x e (dropped x hx))) run

    Covers-keep :
        (d : Set) (s : ℕ) (done kept : List ℕ)
        → (relevant v only_data d (stmt s)).0 ≡ true
        → Covers d done kept
        → Covers (relevant v only_data d (stmt s)).1 (s ∷ done) (s ∷ kept)
    Covers-keep d s done kept h cover σ τ agree (σ', e, run) =
        let (uses, rest) = relevant_keeps only_data d (stmt s) h in
        let (τ', e', defs) = local s σ σ' τ e (λ x hx. agree x (uses x hx)) in
        (
          τ',
          e',
          cover σ' τ'
              (λ x hx. elim (Bool-cases (elem x (stmt s).defs)) [
                | inl hd ↦ defs x hd
                | inr hd ↦ frame s τ τ' x e' hd ∙ agree x (rest x hx hd) ∙ sym (frame s σ σ' x e hd)
              ])
              run,
        )

    pub slice-Runs :
        (d : Set) (ss done kept : List ℕ)
        → Covers d done kept
        → (σ : ℕ → Val) → Runs k (reverse ss ++ done) σ
        → Runs k (slice v only_data stmt d ss kept) σ
    unfolding slice
    slice-Runs d [] done kept cover σ run = cover σ σ (λ x hx. refl) run
    slice-Runs d (s ∷ ss) done kept cover σ run =
        let r = relevant v only_data d (stmt s) in
        let shape : reverse (s ∷ ss) ++ done ≡ reverse ss ++ (s ∷ done) =
          rw (reverse-cons s ss) (append_assoc (reverse ss) (s ∷ []) done) in
        let run' = rw shape at run in
        elim (Bool-cases r.0) [
          | inl e ↦
              rw e
                (slice-Runs r.1 ss (s ∷ done) (s ∷ kept) (Covers-keep d s done kept e cover) σ run')
          | inr e ↦
              rw e (slice-Runs r.1 ss (s ∷ done) kept (Covers-drop d s done kept e cover) σ run')
        ]
