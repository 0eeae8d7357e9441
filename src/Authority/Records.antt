-- ===== src/Authority/Records.antt =====
-- The authority store seen as one record for every address and signer, and the updates of it.
use publiq_pp.Base.{
  ◌≡◌, ◌∙◌, true, ◌&&◌, Option, some, String, str_eq, eq_iff, eq_refl, if◌then◌else◌, is_some,
  arith, Bool-cases, inl, inr,
}
use publiq_pp.Base.Dict.{lookup, assign}
use publiq_pp.Base.Effects.{Result, ok, ◌>>◌}
use publiq_pp.Loaders.{MapLoader}
use publiq_pp.Authority.{
  AccountAuthorization, AccountAuthorizations, Store, get_record, set_record, create_address,
  create_signer, smart_create_dummy_record, cleanup_signer, cleanup_address,
  smart_cleanup_dummy_record,
}
use publiq_pp.Authority.Entries.{
  record_in, IsOwned, owned_entry, signer_entry, cleaned_entry, dropped_entry,
  record_in-owned_entry, owned_entry-IsOwned, record_in-signer_entry, signer_entry-has,
  signer_entry-signer, record_in-assign, assign-has, record_in-cleaned_entry, cleaned_entry-IsOwned,
  record_in-dropped_entry, dropped_entry-IsOwned,
}
use publiq_pp.Authority.Edits.{
  Leaves, Leaves-bind, create_address-Leaves, create_signer-Leaves, set_record-Leaves,
  cleanup_signer-Leaves, cleanup_address-Leaves,
}

module _ ⦃L : MapLoader⦄ where
  open L use {
    Map, find, insert as add_entry, update, erase as remove_entry, find-insert, find-update,
    find-erase,
  }

  -- The record that the store gives a signer for an address, written down or not.
  abbrev pub grant : String → String → Store → AccountAuthorization
  grant a b s = record_in a b (find s a)

  -- Every address that is stored has a record of its own.
  abbrev pub IsSound : Store → Type 0
  IsSound s = (a : String) → IsOwned a (find s a)

  -- The address `o` is stored and the signer `c` has a record there.
  pub record Lists (o c : String) (s : Store) : Type 0 where
    pub auths : AccountAuthorizations
    pub stored : find s o ≡ some auths
    pub own : is_some (lookup o auths) ≡ true
    pub signer : is_some (lookup c auths) ≡ true

  pub get_record_lem : (a b : String) (s : Store) → IsSound s → get_record a b s ≡ ok (grant a b s)
  unfolding get_record
  get_record_lem a b s h = ground (arith, h a, eq_iff b a)

  Leaves-IsSound :
      (o : String) (e : Option AccountAuthorizations) (s : Store) (r : Result (Unit {0}) × Store)
      → Leaves o e s r
      → IsOwned o e
      → IsSound s
      → IsSound r.1
  Leaves-IsSound o e s r h own sound a = elim (Bool-cases (str_eq o a)) [
    | inl p ↦ ground (arith, h.1 a, eq_iff o a)
    | inr p ↦ ground (arith, h.1 a, sound a)
  ]

  Leaves-grant :
      (o : String) (e : Option AccountAuthorizations) (s : Store) (r : Result (Unit {0}) × Store)
      → Leaves o e s r
      → (a b : String) → grant a b r.1 ≡ (if str_eq o a then record_in o b e else grant a b s)
  Leaves-grant o e s r h a b = ground (arith, h.1 a, eq_iff o a)

  Leaves-at :
      (o : String) (e : Option AccountAuthorizations) (s : Store) (r : Result (Unit {0}) × Store)
      → Leaves o e s r
      → find r.1 o ≡ e
  Leaves-at o e s r h = ground (arith, h.1 o, eq_refl o)

  create-Leaves :
      (o c : String) (s : Store)
      → Leaves o
          (some (signer_entry o c (owned_entry o (find s o))))
          s
          (smart_create_dummy_record o c s)
  unfolding smart_create_dummy_record
  create-Leaves o c s =
      Leaves-bind o (some (owned_entry o (find s o))) _ s (create_address o) (create_signer o c)
        (create_address-Leaves o s) (create_signer-Leaves o c (owned_entry o (find s o)))

  -- The dummies change nothing that the store says, and the signer has a record after them.
  pub record Prepared (o c : String) (s : Store) (r : Result (Unit {0}) × Store) : Type 0 where
    pub returned : r.0 ≡ ok tt
    pub listed : Lists o c r.1
    pub sound : IsSound r.1
    pub same : (a b : String) → grant a b r.1 ≡ grant a b s

  pub create_lem :
      (o c : String) (s : Store) → IsSound s → Prepared o c s (smart_create_dummy_record o c s)
  create_lem o c s h =
      let e : AccountAuthorizations = signer_entry o c (owned_entry o (find s o)) in
      let own = owned_entry-IsOwned o (find s o) (h o) in
      let own' = signer_entry-has o c o (owned_entry o (find s o)) own in
      let done = create-Leaves o c s in
      record {
        returned = done.0;
        listed = record {
          auths = e;
          stored = Leaves-at o (some e) s _ done;
          own = own';
          signer = signer_entry-signer o c _ own;
        };
        sound = Leaves-IsSound o (some e) s _ done own' h;
        same = λ a b.
            Leaves-grant o (some e) s _ done a b
            ∙ ground (
              arith,
              eq_iff o a,
              record_in-signer_entry o c b (owned_entry o (find s o)),
              record_in-owned_entry o b (find s o),
            );
      }

  abbrev replaced :
      String → String → AccountAuthorization → AccountAuthorizations → Option AccountAuthorizations
  replaced o c r auths = dropped_entry o (cleaned_entry o c (assign c r auths))

  has→some :
      (c : String) (auths : AccountAuthorizations)
      → is_some (lookup c auths) ≡ true
      → (q : AccountAuthorization) × (lookup c auths ≡ some q)
  has→some c auths h = ground arith

  cleanup-Leaves :
      (o c : String) (auths : AccountAuthorizations) (s : Store)
      → find s o ≡ some auths
      → is_some (lookup o auths) ≡ true
      → is_some (lookup c auths) ≡ true
      → Leaves o (dropped_entry o (cleaned_entry o c auths)) s (smart_cleanup_dummy_record o c s)
  unfolding smart_cleanup_dummy_record
  cleanup-Leaves o c auths s e own signer =
      let (q, f) = has→some c auths signer in
      let (p, g) = has→some o (cleaned_entry o c auths) (cleaned_entry-IsOwned o c auths own) in
      Leaves-bind o (some (cleaned_entry o c auths)) _ s (cleanup_signer o c) (cleanup_address o)
        (cleanup_signer-Leaves o c q auths s e f)
        (λ t at. cleanup_address-Leaves o p (cleaned_entry o c auths) t at g)

  replace-Leaves :
      (o c : String) (r : AccountAuthorization) (s : Store) (l : Lists o c s)
      → Leaves o (replaced o c r l.auths) s ((set_record o c r >> smart_cleanup_dummy_record o c) s)
  replace-Leaves o c r s l =
      let (q, f) = has→some c l.auths l.signer in
      Leaves-bind o (some (assign c r l.auths)) _ s (set_record o c r)
        (smart_cleanup_dummy_record o c) (set_record-Leaves o c q r l.auths s l.stored f)
        (λ t at.
          cleanup-Leaves o c (assign c r l.auths) t at (assign-has c o r l.auths l.own)
            (assign-has c c r l.auths l.signer))

  -- A new record for a signer that has one, and the dummies swept away: the store now gives that
  -- record there, and what it gave everywhere else.
  pub record Replaced (o c : String) (q : AccountAuthorization) (s : Store)
      (r : Result (Unit {0}) × Store) : Type 0 where
    pub returned : r.0 ≡ ok tt
    pub sound : IsSound r.1
    pub given :
        (a b : String) → grant a b r.1 ≡ (if str_eq o a && str_eq c b then q else grant a b s)

  -- In a store where every address has a record of its own and the signer has one, writing a new
  -- record and cleaning up the dummies returns, keeps that invariant, and the store then gives the
  -- new record for that address and signer and the old ones everywhere else.
  pub replace_lem :
      (o c : String) (q : AccountAuthorization) (s : Store)
      → IsSound s
      → Lists o c s
      → Replaced o c q s ((set_record o c q >> smart_cleanup_dummy_record o c) s)
  replace_lem o c q s h l =
      let done = replace-Leaves o c q s l in
      let own = assign-has c o q l.auths l.own in
      let own' = cleaned_entry-IsOwned o c (assign c q l.auths) own in
      record {
        returned = done.0;
        sound =
            Leaves-IsSound o (replaced o c q l.auths) s _ done (dropped_entry-IsOwned o _ own') h;
        given = λ a b.
            Leaves-grant o (replaced o c q l.auths) s _ done a b
            ∙ ground (
              arith,
              eq_iff o a,
              l.stored,
              record_in-dropped_entry o b (cleaned_entry o c (assign c q l.auths)) own',
              record_in-cleaned_entry o c b (assign c q l.auths),
              record_in-assign o c b q l.auths,
            );
      }
