-- ===== src/Authority/Edits.antt =====
-- What each call on the authority store leaves at the address that it changes.
use publiq_pp.Base.{
  ◌≡◌, refl, ap, subst, ◌∙◌, ◌&&◌, Option, none, some, [], ◌∷◌, String, str_eq, eq_iff, eq_refl,
  if◌then◌else◌, length, ◌==◌, arith, Bool-cases, Option-cases, inl, inr,
}
use publiq_pp.Base.Dict.{lookup, assign, insert, erase}
use publiq_pp.Base.Effects.{Result, ok, Eff, ◌>>=◌, ◌>>◌}
use publiq_pp.Loaders.{MapLoader}
use publiq_pp.Authority.{
  AccountAuthorization, AccountAuthorizations, full, nothing, is_nothing, is_full, Store,
  set_record, create_address, create_signer, cleanup_signer, cleanup_address,
}
use publiq_pp.Authority.Entries.{owned_entry, signer_entry, cleaned_entry, dropped_entry}

module _ ⦃L : MapLoader⦄ where
  open L use {
    Map, find, insert as add_entry, update, erase as remove_entry, find-insert, find-update,
    find-erase,
  }

  -- A call that returned and left `e` at the address `o`, and everything else as it was.
  abbrev pub Leaves :
      String → Option AccountAuthorizations → Store → Result (Unit {0}) × Store → Type 0
  Leaves o e s (r, t) =
      (r ≡ ok tt) × ((j : String) → find t j ≡ (if str_eq o j then e else find s j))

  pub Leaves-bind :
      (o : String) (e e' : Option AccountAuthorizations) (s : Store) (m k : Eff Store (Unit {0}))
      → Leaves o e s (m s)
      → ((t : Store) → find t o ≡ e → Leaves o e' t (k t))
      → Leaves o e' s ((m >> k) s)
  Leaves-bind o e e' s m k h next =
      let at : find (m s).1 o ≡ e = rw (h.1 o, eq_refl o) refl in
      let after = next (m s).1 at in
      rw (h.0, ◌>>=◌) (after.0, λ j. ground (arith, h.1 j, after.1 j))

  update-Leaves :
      (o : String) (u v : AccountAuthorizations) (s : Store)
      → find s o ≡ some u
      → Leaves o (some v) s (ok tt, update s o v)
  update-Leaves o u v s e = (refl, λ j. find-update s o j u v e)

  keep-Leaves :
      (o : String) (e : Option AccountAuthorizations) (s : Store)
      → find s o ≡ e
      → Leaves o e s (ok tt, s)
  keep-Leaves o e s h = (refl, λ j. ground (arith, eq_iff o j))

  pub create_address-Leaves :
      (o : String) (s : Store) → Leaves o (some (owned_entry o (find s o))) s (create_address o s)
  unfolding create_address owned_entry
  create_address-Leaves o s = elim (Option-cases (find s o)) [
    | inl e ↦ rw e (refl, λ j. find-insert s o j ((o, full) ∷ []) e)
    | inr (auths, e) ↦ rw e (keep-Leaves o (some auths) s e)
  ]

  pub create_signer-Leaves :
      (o c : String) (auths : AccountAuthorizations) (s : Store)
      → find s o ≡ some auths
      → Leaves o (some (signer_entry o c auths)) s (create_signer o c s)
  unfolding create_signer signer_entry
  create_signer-Leaves o c auths s e = elim (Bool-cases (str_eq o c)) [
    | inl p ↦ rw p (keep-Leaves o (some auths) s e)
    | inr p ↦
        let runs : create_signer o c s ≡ (ok tt, update s o (insert c nothing auths)) =
          ground arith in
        rw (runs, p) (update-Leaves o auths (insert c nothing auths) s e)
  ]

  pub set_record-Leaves :
      (o c : String) (q r : AccountAuthorization) (auths : AccountAuthorizations) (s : Store)
      → find s o ≡ some auths
      → lookup c auths ≡ some q
      → Leaves o (some (assign c r auths)) s (set_record o c r s)
  unfolding set_record
  set_record-Leaves o c q r auths s e f =
      let runs : set_record o c r s ≡ (ok tt, update s o (assign c r auths)) = ground arith in
      rw runs (update-Leaves o auths (assign c r auths) s e)

  pub cleanup_signer-Leaves :
      (o c : String) (q : AccountAuthorization) (auths : AccountAuthorizations) (s : Store)
      → find s o ≡ some auths
      → lookup c auths ≡ some q
      → Leaves o (some (cleaned_entry o c auths)) s (cleanup_signer o c s)
  unfolding cleanup_signer cleaned_entry
  cleanup_signer-Leaves o c q auths s e f = elim (Bool-cases (str_eq o c)) [
    | inl p ↦ rw p (keep-Leaves o (some auths) s e)
    | inr p ↦ elim (Bool-cases (is_nothing q)) [
      | inl n ↦
          let runs : cleanup_signer o c s ≡ (ok tt, update s o (erase c auths)) = ground arith in
          let left : erase c auths ≡ cleaned_entry o c auths = ground arith in
          rw runs (
            subst (λ x. Leaves o (some x) s (ok tt, update s o (erase c auths))) left
              (update-Leaves o auths (erase c auths) s e))
      | inr n ↦
          let runs : cleanup_signer o c s ≡ (ok tt, s) = ground arith in
          let left : auths ≡ cleaned_entry o c auths = ground arith in
          rw runs (keep-Leaves o _ s (e ∙ ap some left))
    ]
  ]

  pub cleanup_address-Leaves :
      (o : String) (q : AccountAuthorization) (auths : AccountAuthorizations) (s : Store)
      → find s o ≡ some auths
      → lookup o auths ≡ some q
      → Leaves o (dropped_entry o auths) s (cleanup_address o s)
  unfolding cleanup_address dropped_entry
  cleanup_address-Leaves o q auths s e f = elim (Bool-cases (is_full q && length auths == 1)) [
    | inl d ↦
        let runs : cleanup_address o s ≡ (ok tt, remove_entry s o) = ground arith in
        let left : none ≡ dropped_entry o auths = ground arith in
        rw runs (refl, λ j. find-erase s o j ∙ ap (λ x. if str_eq o j then x else find s j) left)
    | inr d ↦
        let runs : cleanup_address o s ≡ (ok tt, s) = ground arith in
        let left : some auths ≡ dropped_entry o auths = ground arith in
        rw runs (keep-Leaves o _ s (e ∙ left))
  ]
