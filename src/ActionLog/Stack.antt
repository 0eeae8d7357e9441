-- ===== src/ActionLog/Stack.antt =====
-- The log as a stack of the actions that stand: logging puts one on top, reverting takes one away.
use publiq_pp.Base.{
  ℕ, zero, suc, ◌+◌, ◌-◌, ◌%◌, ◌<◌, ◌≤◌, ◌≡◌, refl, sym, ap, ◌∙◌, true, false, Option, none, some,
  List, [], ◌∷◌, ◌++◌, arith, get_elem?, get_elem?-none, get_elem?-snoc, length-snoc,
  length as count,
}
use native.Mathlib.Decide.{dec_lt}
use publiq_pp.Base.Effects.{Error, ok, err, runtime_error, out_of_range}
use publiq_pp.Coin.{u64_mod}
use publiq_pp.Loaders.{VectorLoader}
use publiq_pp.ActionLog.{Entry, Logged, ActionLog, length, at, insert, find_standing, revert}
use publiq_pp.ActionLog.Standing.{
  Stack, standing, standing-below, standing-same, nth, found, find_standing_lem,
}

abbrev actions_of : Stack → List Logged
actions_of [] = []
actions_of (x ∷ xs) = x.1 ∷ actions_of xs

no_actions : (s : Stack) → actions_of s ≡ [] → s ≡ []
no_actions [] e = refl
no_actions (x ∷ s) e = absurd (ground (arith, e))

module _ ⦃L : VectorLoader⦄ where
  open L use {contents, size_lem, at_lem, contents-push_back}

  stack_of : ActionLog → Stack
  stack_of l = standing (L.at l.actions) (L.size l.actions)

  -- The actions that stand, the last one first.
  unfoldable pub pending : ActionLog → List Logged
  unfolding stack_of
  pending l = actions_of (stack_of l)

  -- Up to the index where the next revert starts there stands what stands in all.
  pub record IsLog (l : ActionLog) : Type 0 where
    pub bounded : (l.revert_index + 1) % u64_mod ≤ L.size l.actions
    pub fits : l.revert_index < u64_mod
    pub same :
        standing (L.at l.actions) ((l.revert_index + 1) % u64_mod)
        ≡ standing (L.at l.actions) (L.size l.actions)

  -- An entry more: what stood before, and the new entry on it.
  pushed :
      (l : ActionLog) (e : Entry)
      → let v = L.push_back l.actions e in
        (L.size v ≡ suc (L.size l.actions))
        × (L.at v (L.size l.actions) ≡ some e)
        × ((k : ℕ) → k ≤ L.size l.actions → standing (L.at v) k ≡ standing (L.at l.actions) k)
  pushed l e =
      let v = L.push_back l.actions e in
      let grown = contents-push_back l.actions e in
      let n : L.size l.actions ≡ count (contents l.actions) = size_lem l.actions in
      let at_new = λ (j : ℕ).
        at_lem v j ∙ ap (λ c. get_elem? c j) grown ∙ get_elem?-snoc (contents l.actions) e j in
      (
        size_lem v ∙ ap count grown ∙ length-snoc (contents l.actions) e ∙ ap suc (sym n),
        ground (arith, at_new (L.size l.actions), n),
        λ k h.
            standing-same (L.at v) (L.at l.actions) k
              (λ j p. ground (arith, at_new j, at_lem l.actions j, n, p, h)),
      )

  -- Short of 2^64 entries, logging puts the action on top, and the log is well formed.
  pub insert-pending :
      (a : Logged) (l : ActionLog)
      → L.size l.actions + 1 < u64_mod
      → (pending (insert a l) ≡ a ∷ pending l) × IsLog (insert a l)
  unfolding pending insert length standing
  insert-pending a l small =
      let e : Entry = record { is_apply = true; index = L.size l.actions; action = a } in
      let (n, here, kept) = pushed l e in
      let whole = kept (L.size l.actions) (omega arith) in
      let wraps : (L.size l.actions + 1) % u64_mod ≡ L.size (L.push_back l.actions e) =
        omega (arith, n) in
      (
        rw (n, here, whole) refl,
        record {
          bounded = omega (arith, wraps);
          fits = omega arith;
          same = ap (standing (L.at (L.push_back l.actions e))) wraps;
        },
      )

  standing_zero :
      (f : ℕ → Option Entry) (k : ℕ) (x : ℕ × Logged) (s : Stack) → standing f k ≡ x ∷ s → 0 < k
  unfolding standing
  standing_zero f zero x s e = absurd (ground (arith, e))
  standing_zero f (suc k) x s e = omega arith

  abbrev pub mark_of : Entry → Entry
  mark_of e = record e { is_apply = false }

  revert_step :
      (l : ActionLog) (j : ℕ) (a : Logged) (s : Stack)
      → IsLog l
      → l.enabled ≡ true
      → L.size l.actions < u64_mod
      → stack_of l ≡ (j, a) ∷ s
      → (e : Entry) × (l' : ActionLog) × (revert l ≡ (ok tt, l'))
        × (e.action ≡ a)
        × (contents l'.actions ≡ contents l.actions ++ mark_of e ∷ [])
        × (stack_of l' ≡ s)
        × IsLog l'
  unfolding revert at standing stack_of
  revert_step l j a s h on small e =
      let f : ℕ → Option Entry = L.at l.actions in
      let start : standing f ((l.revert_index + 1) % u64_mod) ≡ (j, a) ∷ s = h.same ∙ e in
      let some_entry : 0 < (l.revert_index + 1) % u64_mod = standing_zero f _ (j, a) s start in
      let place : (l.revert_index + 1) % u64_mod ≡ suc l.revert_index = omega (arith, h.fits) in
      let from_here : standing f (suc l.revert_index) ≡ (j, a) ∷ s =
        ap (standing f) (sym place) ∙ start in
      let finds : find_standing l 0 l.revert_index ≡ ok j =
        find_standing_lem l 0 l.revert_index (omega (arith, h.bounded, place))
        ∙ ap (λ (t : Stack). found (nth 0 t)) from_here in
      let (below, less, (x, there, applied, action)) =
        standing-below f (L.size l.actions) j a [] s e in
      let (n, here, kept) = pushed l (mark_of x) in
      let v = L.push_back l.actions (mark_of x) in
      let l' : ActionLog = record l { actions = v; revert_index = (j + u64_mod - 1) % u64_mod } in
      let back : ((j + u64_mod - 1) % u64_mod + 1) % u64_mod ≡ j = omega arith in
      let left : standing (L.at v) (L.size v) ≡ s =
        ap (standing (L.at v)) n ∙ ground (arith, here, kept (L.size l.actions) (omega arith), e) in
      (
        x,
        l',
        ground (arith, on, finds, there, applied),
        action,
        contents-push_back l.actions (mark_of x),
        left,
        record {
          bounded = omega (arith, back, n);
          fits = omega arith;
          same = ap (standing (L.at v)) back ∙ kept j (omega arith) ∙ below ∙ sym left;
        },
      )

  stack_cases :
      (s : Stack) (a : Logged) (rest : List Logged)
      → actions_of s ≡ a ∷ rest
      → (j : ℕ) × (t : Stack) × (s ≡ (j, a) ∷ t) × (actions_of t ≡ rest)
  stack_cases [] a rest e = absurd (ground (arith, e))
  stack_cases ((j, b) ∷ t) a rest e = (j, t, ground (arith, e), ground (arith, e))

  -- In a log that is switched on, is well formed and has fewer than 2^64 entries, with an action
  -- pending, reverting returns, appends a mark for the entry of the last pending action and nothing
  -- else, and leaves pending the others; the log stays well formed.
  pub revert-pending :
      (l : ActionLog) (a : Logged) (rest : List Logged)
      → IsLog l
      → l.enabled ≡ true
      → L.size l.actions < u64_mod
      → pending l ≡ a ∷ rest
      → (e : Entry) × (l' : ActionLog) × (revert l ≡ (ok tt, l'))
        × (e.action ≡ a)
        × (contents l'.actions ≡ contents l.actions ++ mark_of e ∷ [])
        × (pending l' ≡ rest)
        × IsLog l'
  unfolding pending
  revert-pending l a rest h on small e =
      let (j, t, whole, below) = stack_cases (stack_of l) a rest e in
      let (x, l', runs, action, grown, left, h') = revert_step l j a t h on small whole in
      (x, l', runs, action, grown, ap actions_of left ∙ below, h')

  absent : (l : ActionLog) (i : ℕ) → L.size l.actions ≤ i → L.at l.actions i ≡ none
  absent l i h =
      at_lem l.actions i ∙ get_elem?-none (contents l.actions) i (omega (arith, size_lem l.actions))

  out_of_reach :
      (l : ActionLog) (mark i : ℕ)
      → L.size l.actions ≤ i
      → find_standing l mark i ≡ err out_of_range
  unfolding find_standing at
  out_of_reach l mark zero h = ground (arith, absent l zero h)
  out_of_reach l mark (suc i) h = ground (arith, absent l (suc i) h)

  -- With nothing pending, reverting throws and changes nothing.
  pub revert_nothing :
      (l : ActionLog)
      → IsLog l
      → l.enabled ≡ true
      → L.size l.actions < u64_mod
      → pending l ≡ []
      → (x : Error) × (revert l ≡ (err x, l))
  unfolding pending revert stack_of
  revert_nothing l h on small e = elim (dec_lt l.revert_index (L.size l.actions)) [
    | no p ↦ (out_of_range, ground (arith, on, out_of_reach l 0 l.revert_index (omega arith)))
    | yes p ↦
        let place : (l.revert_index + 1) % u64_mod ≡ suc l.revert_index = omega arith in
        let start : standing (L.at l.actions) (suc l.revert_index) ≡ [] =
          ap (standing (L.at l.actions)) (sym place) ∙ h.same ∙ no_actions (stack_of l) e in
        let fails : find_standing l 0 l.revert_index ≡ err runtime_error =
          find_standing_lem l 0 l.revert_index p ∙ ap (λ (t : Stack). found (nth 0 t)) start in
        (runtime_error, ground (arith, on, fails))
  ]
