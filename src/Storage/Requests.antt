-- ===== src/Storage/Requests.antt =====
-- What `get_file_requests` hands out.
use publiq_pp.Base.{
  ℕ, ◌+◌, ◌≤◌, ◌≡◌, refl, sym, ap, ◌∙◌, true, false, not, ◌||◌, ◌==◌, some, List, [], ◌∷◌, String,
  str_eq, eq_iff, eq_refl, arith, Bool-cases, Option-cases, inl, inr, is_some, length,
}
use publiq_pp.Base.Effects.{ok}
use publiq_pp.Base.Dict.{Dict, lookup, assign, lookup-assign}
use publiq_pp.Base.Texts.{contains, Distinct}
use publiq_pp.Loaders.{MapLoader}
use publiq_pp.Storage.{
  FileRequest, max_file_requests, requesting, StorageController, Round, pass_over, request_file,
  visit, visit_all, count_requests, get_file_requests,
}

length-assign : (k v : String) (d : Dict String) → length (assign k v d) ≤ length d + 1
unfolding assign
length-assign k v [] = omega arith
length-assign k v ((j, w) ∷ d) = ground (arith, length-assign k v d)

-- The files of a round are few, and all for channels that are resolved.
record IsFair (resolved : List String) (count_all : ℕ) (given : Dict String) : Type 0 where
  most : count_all ≤ max_file_requests
  counted : length given ≤ count_all
  known :
      (file channel : String) → lookup file given ≡ some channel → contains channel resolved ≡ true

more-IsFair :
    (resolved : List String) (count_all : ℕ) (given : Dict String) (file channel : String)
    → (count_all == max_file_requests) ≡ false
    → contains channel resolved ≡ true
    → IsFair resolved count_all given
    → IsFair resolved (count_all + 1) (assign file channel given)
more-IsFair resolved count_all given file channel room c h = record {
  most = ground (arith, room, h.most);
  counted = omega (arith, length-assign file channel given, h.counted);
  known = λ f ch e. ground (arith, e, c, h.known f ch, lookup-assign file f channel given);
}

nothing_given :
    (resolved : List String) (file channel : String)
    → lookup file [] ≡ some channel
    → contains channel resolved ≡ true
unfolding lookup
nothing_given resolved file channel e = absurd (ground (arith, e))

module _ ⦃L : MapLoader⦄ where
  open L use {find, keys, find-erase, contains-keys}

  abbrev Fair : List String → Round → Type 0
  Fair resolved r = IsFair resolved r.count_all r.file_to_channel

  visit-Fair :
      (resolved : List String) (file : String) (fr : FileRequest) (r : Round)
      → find r.controller.requests file ≡ some fr
      → Fair resolved r
      → (r' : Round) × (visit resolved file r ≡ ok r')
        × Fair resolved r'
        × ((k : String)
            → str_eq file k ≡ false
            → find r'.controller.requests k ≡ find r.controller.requests k)
  unfolding visit
  visit-Fair resolved file fr r e h = elim (Bool-cases (contains fr.channel_address resolved)) [
    | inl c ↦ (
      request_file file fr.channel_address r,
      ground (arith, e, c),
      elim (Bool-cases (r.count_all == max_file_requests)) [
        | inl full ↦ rw full h
        | inr room ↦
            rw room
              (elim (Bool-cases (
                is_some
                  (requesting r.controller.channels_files_requesting file fr.channel_address))) [
                    | inl there ↦ rw there h
                    | inr absent ↦ rw absent (
                        more-IsFair resolved r.count_all r.file_to_channel file fr.channel_address
                          room c h)
                  ])
      ],
      λ k d. ground arith,
    )
    | inr c ↦ (
      pass_over file fr.channel_address r,
      ground (arith, e, c),
      elim (Bool-cases (length r.unresolved == 10)) [
        | inl ten ↦ rw ten (elim (Bool-cases (contains fr.channel_address r.unresolved)) [
          | inl there ↦ rw there h
          | inr absent ↦ rw absent h
        ])
        | inr fewer ↦ rw fewer h
      ],
      λ k d. ground (arith, d, find-erase r.controller.requests file k),
    )
  ]

  visit_all-Fair :
      (resolved files : List String) (r : Round)
      → Distinct files
      → ((k : String) → contains k files ≡ true → is_some (find r.controller.requests k) ≡ true)
      → Fair resolved r
      → (r' : Round) × (visit_all resolved files r ≡ ok r') × Fair resolved r'
  unfolding visit_all contains
  visit_all-Fair resolved [] r d there h = (r, refl, h)
  visit_all-Fair resolved (file ∷ files) r (fresh, d) there h =
      elim (Option-cases (find r.controller.requests file)) [
        | inl e ↦ absurd (ground (arith, e, there file, eq_refl file))
        | inr (fr, e) ↦
            let (r1, runs, h1, kept) = visit-Fair resolved file fr r e h in
            let there1 : (k : String)
                → contains k files ≡ true
                → is_some (find r1.controller.requests k) ≡ true =
              λ k c.
                ap is_some (kept k (ground (arith, c, fresh, eq_iff file k)))
                ∙ there k (ground (arith, c)) in
            let (r2, runs', h2) = visit_all-Fair resolved files r1 d there1 h1 in
            (r2, rw runs runs', h2)
      ]

  -- With every file requested once, `get_file_requests` returns at most `max_file_requests` files,
  -- each for a channel that is resolved.
  pub get_file_requests_lem :
      (resolved_channels : List String) (s : StorageController)
      → Distinct (keys s.requests)
      → (given : Dict String) × (s' : StorageController) × (get_file_requests resolved_channels s
          ≡ ok (given, s'))
        × (length given ≤ max_file_requests)
        × ((file channel : String)
            → lookup file given ≡ some channel
            → contains channel resolved_channels ≡ true)
  unfolding get_file_requests
  get_file_requests_lem resolved s d =
      elim (Bool-cases (not s.active || not (count_requests s.channels_files_requesting == 0))) [
        | inl busy ↦ ([], s, rw busy refl, omega arith, nothing_given resolved)
        | inr free ↦
            let start : Round = record {
              controller = s;
              unresolved = [];
              count_all = 0;
              file_to_channel = [];
            } in
            let (r, runs, h) =
              visit_all-Fair resolved (keys s.requests) start d
                (λ k c. sym (contains-keys s.requests k) ∙ c)
                (record {
                  most = omega arith;
                  counted = omega arith;
                  known = nothing_given resolved;
                }) in
            (
              r.file_to_channel,
              r.controller,
              rw (free, runs) refl,
              omega (arith, h.most, h.counted),
              h.known,
            )
      ]
