-- ===== src/Exits/Laws.antt =====
-- What the block is that becomes the exit.
use clam.Prelude.{
  ℕ, ◌+◌, ◌≤◌, ◌≡◌, refl, sym, ap, subst, ◌∙◌, ◌⊎◌, inl, inr, true, false, List, [], ◌∷◌, Option,
  none, some, ◌==◌, if◌then◌else◌, Bool-cases, All, arith, some_inv, ==_iff,
}
use clam.Lit.Literal.{Checked, ok, clam_error, ◌>>=◌}
use clam.Exits.{
  Block, find_return, succs_of, only_itself, goto_loop, first_unreachable, last_without_succs,
  or_else, set_exit_block,
}

-- one of the blocks has the number and is of the kind
abbrev pub Among : (Block → Type 0) → List Block → ℕ → Type 0
Among P [] n = ⊥
Among P (b ∷ bs) n = (P b × (b.id ≡ n)) ⊎ Among P bs n

abbrev pub Returns : Block → Type 0
Returns b = b.is_return ≡ true

abbrev pub Unreachable : Block → Type 0
Unreachable b = b.has_unreachable ≡ true

abbrev pub IsSink : Block → Type 0
IsSink b = b.succs ≡ []

abbrev pub returns : List Block → ℕ
returns [] = 0
returns (b ∷ bs) = (if b.is_return then 1 else 0) + returns bs

-- the only block that returns, or that none does, or that more than one does
abbrev Found : List Block → Checked (Option ℕ) → Type 0
Found bs (ok (some n)) = Among Returns bs n × (returns bs ≡ 1)
Found bs (ok none) = All (λ b. ¬ Returns b) bs
Found bs clam_error = 2 ≤ returns bs

abbrev FoundAfter : ℕ → List Block → Checked (Option ℕ) → Type 0
FoundAfter n bs (ok (some k)) = (k ≡ n) × (returns bs ≡ 0)
FoundAfter n bs (ok none) = ⊥
FoundAfter n bs clam_error = 1 ≤ returns bs

no_more : (b : Block) (bs : List Block) → b.is_return ≡ false → returns (b ∷ bs) ≡ returns bs
no_more b bs e =
    let count : returns (b ∷ bs) ≡ 0 + returns bs = ap (λ c. (if c then 1 else 0) + returns bs) e in
    omega (arith, count)

FoundAfter-more :
    (n : ℕ) (b : Block) (bs : List Block) (c : Checked (Option ℕ))
    → b.is_return ≡ false
    → FoundAfter n bs c
    → FoundAfter n (b ∷ bs) c
FoundAfter-more n b bs (ok (some k)) e h = (h.0, no_more b bs e ∙ h.1)
FoundAfter-more n b bs (ok none) e h = h
FoundAfter-more n b bs clam_error e h = omega (arith, h)

one_more : (b : Block) (bs : List Block) → Returns b → returns (b ∷ bs) ≡ 1 + returns bs
one_more b bs e = ap (λ c. (if c then 1 else 0) + returns bs) e

find_return-FoundAfter : (bs : List Block) (n : ℕ) → FoundAfter n bs (find_return bs (some n))
unfolding find_return
find_return-FoundAfter [] n = (refl, refl)
find_return-FoundAfter (b ∷ bs) n = elim (Bool-cases b.is_return) [
  | inl e ↦
      let made : find_return (b ∷ bs) (some n) ≡ clam_error =
        ap (λ c. if c then clam_error else find_return bs (some n)) e in
      subst (FoundAfter n (b ∷ bs)) (sym made) (omega (arith, one_more b bs e))
  | inr e ↦
      let made : find_return (b ∷ bs) (some n) ≡ find_return bs (some n) =
        ap (λ c. if c then clam_error else find_return bs (some n)) e in
      subst (FoundAfter n (b ∷ bs)) (sym made)
        (FoundAfter-more n b bs (find_return bs (some n)) e (find_return-FoundAfter bs n))
]

Found-first :
    (b : Block) (bs : List Block) (c : Checked (Option ℕ))
    → Returns b
    → FoundAfter b.id bs c
    → Found (b ∷ bs) c
Found-first b bs (ok (some k)) e h = (inl (e, sym h.0), one_more b bs e ∙ ap (λ m. 1 + m) h.1)
Found-first b bs (ok none) e h = absurd h
Found-first b bs clam_error e h = omega (arith, h, one_more b bs e)

Found-more :
    (b : Block) (bs : List Block) (c : Checked (Option ℕ))
    → b.is_return ≡ false
    → Found bs c
    → Found (b ∷ bs) c
Found-more b bs (ok (some k)) e h = (inr h.0, no_more b bs e ∙ h.1)
Found-more b bs (ok none) e h = (λ k. absurd (cc (e, k)), h)
Found-more b bs clam_error e h = omega (arith, h)

find_return-Found : (bs : List Block) → Found bs (find_return bs none)
unfolding find_return
find_return-Found [] = tt
find_return-Found (b ∷ bs) = elim (Bool-cases b.is_return) [
  | inl e ↦
      let made : find_return (b ∷ bs) none ≡ find_return bs (some b.id) =
        ap (λ c. if c then find_return bs (some b.id) else find_return bs none) e in
      subst (Found (b ∷ bs)) (sym made)
        (Found-first b bs (find_return bs (some b.id)) e (find_return-FoundAfter bs b.id))
  | inr e ↦
      let made : find_return (b ∷ bs) none ≡ find_return bs none =
        ap (λ c. if c then find_return bs (some b.id) else find_return bs none) e in
      subst (Found (b ∷ bs)) (sym made)
        (Found-more b bs (find_return bs none) e (find_return-Found bs))
]

-- the first of the blocks that has an unreachable instruction
abbrev pub FirstUnreachable : List Block → ℕ → Type 0
FirstUnreachable [] n = ⊥
FirstUnreachable (b ∷ bs) n =
    (Unreachable b × (b.id ≡ n)) ⊎ ((¬ Unreachable b) × FirstUnreachable bs n)

-- that block, or that there is none
abbrev FirstOf : List Block → Option ℕ → Type 0
FirstOf bs (some n) = FirstUnreachable bs n
FirstOf bs none = All (λ b. ¬ Unreachable b) bs

first_unreachable-FirstOf : (bs : List Block) → FirstOf bs (first_unreachable bs)
unfolding first_unreachable
first_unreachable-FirstOf [] = tt
first_unreachable-FirstOf (b ∷ bs) = elim (Bool-cases b.has_unreachable) [
  | inl e ↦
      let made : first_unreachable (b ∷ bs) ≡ some b.id =
        ap (λ c. if c then some b.id else first_unreachable bs) e in
      subst (FirstOf (b ∷ bs)) (sym made) (inl (e, refl))
  | inr e ↦
      let made : first_unreachable (b ∷ bs) ≡ first_unreachable bs =
        ap (λ c. if c then some b.id else first_unreachable bs) e in
      subst (FirstOf (b ∷ bs)) (sym made)
        (more (first_unreachable bs) e (first_unreachable-FirstOf bs))
]
  where
    more : (o : Option ℕ) → b.has_unreachable ≡ false → FirstOf bs o → FirstOf (b ∷ bs) o
    more (some n) e h = inr (λ k. absurd (cc (e, k)), h)
    more none e h = (λ k. absurd (cc (e, k)), h)

-- the last of the blocks that has no successors
abbrev pub LastSink : List Block → ℕ → Type 0
LastSink [] n = ⊥
LastSink (b ∷ bs) n = (IsSink b × (b.id ≡ n) × All (λ s. ¬ IsSink s) bs) ⊎ LastSink bs n

-- the last sink, unless none is left and the exit is the one before
abbrev SinkOf : List Block → Option ℕ → Option ℕ → Type 0
SinkOf bs before (some n) = LastSink bs n ⊎ ((before ≡ some n) × All (λ b. ¬ IsSink b) bs)
SinkOf bs before none = (before ≡ none) × All (λ b. ¬ IsSink b) bs

succs-cases : (xs : List ℕ) → (xs ≡ []) ⊎ ((s : ℕ) × (ss : List ℕ) × (xs ≡ s ∷ ss))
succs-cases [] = inl refl
succs-cases (s ∷ ss) = inr (s, ss, refl)

SinkOf-here :
    (b : Block) (bs : List Block) (before r : Option ℕ)
    → IsSink b
    → SinkOf bs (some b.id) r
    → SinkOf (b ∷ bs) before r
SinkOf-here b bs before (some n) e (inl h) = inl (inr h)
SinkOf-here b bs before (some n) e (inr (same, h)) = inl (inl (e, some_inv same, h))
SinkOf-here b bs before none e (same, h) = absurd (cc same)

SinkOf-more :
    (b : Block) (bs : List Block) (before r : Option ℕ)
    → ¬ IsSink b
    → SinkOf bs before r
    → SinkOf (b ∷ bs) before r
SinkOf-more b bs before (some n) e (inl h) = inl (inr h)
SinkOf-more b bs before (some n) e (inr (same, h)) = inr (same, (e, h))
SinkOf-more b bs before none e (same, h) = (same, (e, h))

last_without_succs-SinkOf :
    (bs : List Block) (before : Option ℕ) → SinkOf bs before (last_without_succs bs before)
unfolding last_without_succs
last_without_succs-SinkOf [] none = (refl, tt)
last_without_succs-SinkOf [] (some n) = inr (refl, tt)
last_without_succs-SinkOf (b ∷ bs) before = elim (succs-cases b.succs) [
  | inl e ↦
      let made : last_without_succs (b ∷ bs) before ≡ last_without_succs bs (some b.id) =
        rw (e, last_without_succs) refl in
      subst (SinkOf (b ∷ bs) before) (sym made) (
        SinkOf-here b bs before (last_without_succs bs (some b.id)) e
          (last_without_succs-SinkOf bs (some b.id)))
  | inr (s, ss, e) ↦
      let made : last_without_succs (b ∷ bs) before ≡ last_without_succs bs before =
        rw (e, last_without_succs) refl in
      subst (SinkOf (b ∷ bs) before) (sym made) (
        SinkOf-more b bs before (last_without_succs bs before) (λ k. absurd (cc (e, k)))
          (last_without_succs-SinkOf bs before))
]

-- the entry goes only to the block, which goes only to itself
abbrev pub IsLoop : List ℕ → List Block → ℕ → Type 0
IsLoop entry bs n = (entry ≡ n ∷ []) × (succs_of n bs ≡ n ∷ [])

abbrev LoopOf : List ℕ → List Block → Option ℕ → Type 0
LoopOf entry bs (some n) = IsLoop entry bs n
LoopOf entry bs none = (n : ℕ) → ¬ IsLoop entry bs n

abbrev first_or : ℕ → List ℕ → ℕ
first_or s [] = s
first_or s (x ∷ xs) = x

-- the entry goes to a block whose successors are not only itself
other_succs :
    (s : ℕ) (bs : List Block) (ts : List ℕ)
    → succs_of s bs ≡ ts
    → ¬ (ts ≡ s ∷ [])
    → LoopOf (s ∷ []) bs none
other_succs s bs ts e other n (one, loop) =
    let same : n ≡ s = ap (first_or s) (sym one) in
    other (sym e ∙ subst (λ k. succs_of k bs ≡ k ∷ []) same loop)

differs : (t s : ℕ) → (t == s) ≡ false → ¬ (t ≡ s)
differs t s h e = ground arith

only_itself-LoopOf :
    (s : ℕ) (bs : List Block) (ts : List ℕ)
    → succs_of s bs ≡ ts
    → LoopOf (s ∷ []) bs (only_itself s ts)
only_itself-LoopOf s bs [] e = other_succs s bs [] e (λ h. cc h)
only_itself-LoopOf s bs (t ∷ []) e = elim (Bool-cases (t == s)) [
  | inl h ↦ rw h (refl, e ∙ ap (λ u. u ∷ []) ((==_iff t s).0 h))
  | inr h ↦ rw h (other_succs s bs (t ∷ []) e (λ k. differs t s h (ap (first_or s) k)))
]
only_itself-LoopOf s bs (t ∷ u ∷ ts) e = other_succs s bs (t ∷ u ∷ ts) e (λ h. cc h)

goto_loop-LoopOf : (entry : List ℕ) (bs : List Block) → LoopOf entry bs (goto_loop entry bs)
unfolding goto_loop
goto_loop-LoopOf [] bs = λ n h. cc (h.0)
goto_loop-LoopOf (s ∷ []) bs = only_itself-LoopOf s bs (succs_of s bs) refl
goto_loop-LoopOf (s ∷ t ∷ ts) bs = λ n h. cc (h.0)

abbrev pub NoneReturns : List Block → Type 0
NoneReturns bs = All (λ b. ¬ Returns b) bs

abbrev pub NoneUnreachable : List Block → Type 0
NoneUnreachable bs = All (λ b. ¬ Unreachable b) bs

abbrev pub NoLoop : List ℕ → List Block → Type 0
NoLoop entry bs = (n : ℕ) → ¬ IsLoop entry bs n

-- Why the block is the exit, in the order of preference, or that there is no candidate, or the error.
abbrev pub IsExit : List ℕ → List Block → Checked (Option ℕ) → Type 0
IsExit entry bs (ok (some n)) =
    (Among Returns bs n × (returns bs ≡ 1))
    ⊎ (NoneReturns bs
        × (IsLoop entry bs n
            ⊎ (NoLoop entry bs × (FirstUnreachable bs n ⊎ (NoneUnreachable bs × LastSink bs n)))))
IsExit entry bs (ok none) =
    NoneReturns bs × NoLoop entry bs × NoneUnreachable bs × All (λ b. ¬ IsSink b) bs
IsExit entry bs clam_error = 2 ≤ returns bs

choice :
    (entry : List ℕ) (bs : List Block) (l u s : Option ℕ)
    → NoneReturns bs
    → LoopOf entry bs l
    → FirstOf bs u
    → SinkOf bs none s
    → IsExit entry bs (ok (or_else l (or_else u s)))
choice entry bs (some n) u s r hl hu hs = inr (r, inl hl)
choice entry bs none (some n) s r hl hu hs = inr (r, inr (hl, inl hu))
choice entry bs none none (some n) r hl hu (inl hs) = inr (r, inr (hl, inr (hu, hs)))
choice entry bs none none (some n) r hl hu (inr (same, h)) = absurd (cc same)
choice entry bs none none none r hl hu (same, h) = (r, hl, hu, h)

by_return :
    (entry : List ℕ) (bs : List Block) (c : Checked (Option ℕ)) (l u s : Option ℕ)
    → Found bs c
    → LoopOf entry bs l
    → FirstOf bs u
    → SinkOf bs none s
    → IsExit entry bs (c >>= (λ r. ok (or_else r (or_else l (or_else u s)))))
by_return entry bs (ok (some n)) l u s h hl hu hs = inl h
by_return entry bs (ok none) l u s h hl hu hs = choice entry bs l u s h hl hu hs
by_return entry bs clam_error l u s h hl hu hs = h

-- setExitBlock makes the block that returns the exit if there is exactly one, and stops with an error
-- exactly if two or more blocks return. If none returns, the exit is the block of the loop that the
-- entry goes to; if there is no such loop, the first block with an unreachable instruction; if there
-- is none either, the last block without successors. No exit is set exactly if there is none of these.
pub set_exit_block-IsExit :
    (entry : List ℕ) (bs : List Block) → IsExit entry bs (set_exit_block entry bs)
unfolding set_exit_block
set_exit_block-IsExit entry bs =
    by_return entry bs (find_return bs none) (goto_loop entry bs) (first_unreachable bs)
      (last_without_succs bs none) (find_return-Found bs) (goto_loop-LoopOf entry bs)
      (first_unreachable-FirstOf bs) (last_without_succs-SinkOf bs none)
