-- ===== src/ActionLog/Standing.antt =====
-- The actions that stand after a number of entries, and that the loop of `revert` finds the last.
use publiq_pp.Base.{
  ℕ, zero, suc, ◌+◌, ◌-◌, ◌<◌, ◌≡◌, refl, ap, ◌∙◌, true, Option, none, some, List, [], ◌∷◌, ◌++◌,
  arith, if◌then◌else◌, get_elem?-lt, Bool-cases, inl, inr, ◌⊎◌,
}
use publiq_pp.Base.Effects.{Result, ok, err, runtime_error}
use publiq_pp.Loaders.{VectorLoader}
use publiq_pp.ActionLog.{Entry, Logged, ActionLog, at, find_standing}

-- An index and the action that it holds.
abbrev pub Stack : Type 0
Stack = List (ℕ × Logged)

abbrev pub tail : Stack → Stack
tail [] = []
tail (x ∷ xs) = xs

abbrev pub after : ℕ → Option Entry → Stack → Stack
after k none s = s
after k (some e) s = if e.is_apply then (k, e.action) ∷ s else tail s

-- What stands of the first `k` entries: an applied action is put on top, a revert takes the top away.
unfoldable pub standing : (ℕ → Option Entry) → ℕ → Stack
standing f zero = []
standing f (suc k) = after k (f k) (standing f k)

-- What an entry that put an action on top was.
abbrev pub Applies : Option Entry → Logged → Type 0
Applies q a = (x : Entry) × (q ≡ some x) × (x.is_apply ≡ true) × (x.action ≡ a)

on_top :
    (k j : ℕ) (a : Logged) (pre s : Stack) (x : Entry) (t : Stack)
    → x.is_apply ≡ true
    → (k, x.action) ∷ t ≡ pre ++ (j, a) ∷ s
    → ((j ≡ k) × (t ≡ s) × Applies (some x) a) ⊎ ((pre' : Stack) × (t ≡ pre' ++ (j, a) ∷ s))
on_top k j a [] s x t h e =
    inl (ground (arith, e), ground (arith, e), (x, refl, h, ground (arith, e)))
on_top k j a (y ∷ pre) s x t h e = inr (pre, ground (arith, e))

taken :
    (j : ℕ) (a : Logged) (pre s t : Stack)
    → tail t ≡ pre ++ (j, a) ∷ s
    → (pre' : Stack) × (t ≡ pre' ++ (j, a) ∷ s)
taken j a [] s [] e = absurd (ground (arith, e))
taken j a (y ∷ pre) s [] e = absurd (ground (arith, e))
taken j a pre s (x ∷ t) e = (x ∷ pre, ap (λ r. x ∷ r) e)

before :
    (k j : ℕ) (a : Logged) (pre s : Stack) (q : Option Entry) (t : Stack)
    → after k q t ≡ pre ++ (j, a) ∷ s
    → ((j ≡ k) × (t ≡ s) × Applies q a) ⊎ ((pre' : Stack) × (t ≡ pre' ++ (j, a) ∷ s))
before k j a pre s none t e = inr (pre, e)
before k j a pre s (some x) t e = elim (Bool-cases x.is_apply) [
  | inl p ↦ on_top k j a pre s x t p (ground (arith, p, e))
  | inr p ↦ inr (taken j a pre s t (ground (arith, p, e)))
]

-- An action that stands was applied at its index, and has below it what stood when it came.
pub standing-below :
    (f : ℕ → Option Entry) (k j : ℕ) (a : Logged) (pre s : Stack)
    → standing f k ≡ pre ++ (j, a) ∷ s
    → (standing f j ≡ s) × (j < k) × Applies (f j) a
unfolding standing
standing-below f zero j a [] s e = absurd (ground arith)
standing-below f zero j a (x ∷ pre) s e = absurd (ground arith)
standing-below f (suc k) j a pre s e = elim (before k j a pre s (f k) (standing f k) e) [
  | inl (here, same, (x, p, q, r)) ↦
      (ap (standing f) here ∙ same, omega (arith, here), (x, ap f here ∙ p, q, r))
  | inr (pre', same) ↦
      let (below, less, applies) = standing-below f k j a pre' s same in
      (below, omega arith, applies)
]

-- The entries from `n` on do not change what stands of the first.
pub standing-same :
    (f g : ℕ → Option Entry) (k : ℕ) → ((j : ℕ) → j < k → f j ≡ g j) → standing f k ≡ standing g k
unfolding standing
standing-same f g zero h = refl
standing-same f g (suc k) h =
    rw (h k (omega arith), standing-same f g k (λ j p. h j (omega arith))) refl

-- The index of the action with `mark` others above it.
abbrev pub nth : ℕ → Stack → Option ℕ
nth m [] = none
nth zero (x ∷ xs) = some x.0
nth (suc m) (x ∷ xs) = nth m xs

abbrev pub found : Option ℕ → Result ℕ
found none = err runtime_error
found (some i) = ok i

nth-tail : (m : ℕ) (s : Stack) → nth m (tail s) ≡ nth (suc m) s
nth-tail m [] = refl
nth-tail m (x ∷ s) = refl

module _ ⦃L : VectorLoader⦄ where
  entry_at :
      (l : ActionLog) (i : ℕ) → i < L.size l.actions → (e : Entry) × (L.at l.actions i ≡ some e)
  entry_at l i h =
      let (e, p) = get_elem?-lt (L.contents l.actions) i (omega (arith, L.size_lem l.actions)) in
      (e, L.at_lem l.actions i ∙ p)

  -- The loop finds the action that stands with as many others above it as its mark counts.
  pub find_standing_lem :
      (l : ActionLog) (mark i : ℕ)
      → i < L.size l.actions
      → find_standing l mark i ≡ found (nth mark (standing (L.at l.actions) (suc i)))
  unfolding find_standing at standing
  find_standing_lem l mark zero h = let (e, p) = entry_at l zero h in ground (arith, p)
  find_standing_lem l mark (suc i) h =
      let (e, p) = entry_at l (suc i) h in
      let t : Stack = standing (L.at l.actions) (suc i) in
      elim (Bool-cases e.is_apply) [
        | inl a ↦ ground (arith, p, a, find_standing_lem l (mark - 1) i (omega arith))
        | inr a ↦
            ground (arith, p, a, nth-tail mark t, find_standing_lem l (mark + 1) i (omega arith))
      ]
