-- ===== src/Ls/ObStore/Calls.antt =====
-- What a store hands out after any calls.
use lsm_storage.Prelude.{
  ℕ, ◌≡◌, ◌≢◌, ◌⊎◌, refl, ap, ◌∙◌, inl, inr, Option, none, some, List, [], ◌∷◌, Option-cases,
  success, failure,
}
use lsm_storage.Prelude.Assoc
use lsm_storage.Prelude.Dict
use lsm_storage.Ls.Tablet.{Tablet}
use lsm_storage.Ls.ObStore.{
  Store, new_store, init, get_by_name, get_by_id, create_tablet, drop_tablet, forget,
}
use lsm_storage.Ls.ObStore.Sound.{IsLive, IsSound, created, created-IsSound, forget-IsSound}

-- A call that changes what the store holds.
pub data Call : Type 0 where
  create : List ℕ → ℕ → Call
  drop : List ℕ → Call

unfoldable pub step : Call → Store → Option Store
unfolding create_tablet drop_tablet
step (create name id) s = some (create_tablet name id s).0
step (drop name) s = elim (drop_tablet name s) [ none ↦ none | some (s', done) ↦ some s' ]

-- None where a call uses a tablet that is deleted.
unfoldable pub run : List Call → Store → Option Store
unfolding step
run [] s = some s
run (c ∷ calls) s = elim (step c s) [ none ↦ none | some s' ↦ run calls s' ]

create-created :
    (name : List ℕ) (id : ℕ) (s : Store)
    → get_by_name name s ≡ none
    → create_tablet name id s ≡ (created name id s, success)
unfolding create_tablet
create-created name id s free =
    ap (λ o. elim o [ some address ↦ (s, failure) | none ↦ (created name id s, success) ]) free

create-taken :
    (name : List ℕ) (id a : ℕ) (s : Store)
    → get_by_name name s ≡ some a
    → create_tablet name id s ≡ (s, failure)
unfolding create_tablet
create-taken name id a s taken =
    ap (λ o. elim o [ some address ↦ (s, failure) | none ↦ (created name id s, success) ]) taken

drop-free :
    (name : List ℕ) (s : Store) → get_by_name name s ≡ none → drop_tablet name s ≡ some (s, failure)
unfolding drop_tablet
drop-free name s free =
    ap
      (λ o. elim o [
        | none ↦ some (s, failure)
        | some address ↦ elim (Assoc.lookup address s.heap) [
          | none ↦ none
          | some t ↦ some (forget name address t s, success)
        ]
      ])
      free

drop-forget :
    (name : List ℕ) (a : ℕ) (t : Tablet) (s : Store)
    → get_by_name name s ≡ some a
    → Assoc.lookup a s.heap ≡ some t
    → drop_tablet name s ≡ some (forget name a t s, success)
unfolding drop_tablet
drop-forget name a t s taken object =
    ap
      (λ o. elim o [
        | none ↦ some (s, failure)
        | some address ↦ elim (Assoc.lookup address s.heap) [
          | none ↦ none
          | some t ↦ some (forget name address t s, success)
        ]
      ])
      taken
    ∙ ap (λ o. elim o [ none ↦ none | some t ↦ some (forget name a t s, success) ]) object

step-IsSound : (c : Call) (s : Store) → IsSound s → (s' : Store) × (step c s ≡ some s') × IsSound s'
unfolding step
step-IsSound (create name id) s h = elim (Option-cases (get_by_name name s)) [
  | inl free ↦ (
    created name id s,
    ap (λ r. some r.0) (create-created name id s free),
    created-IsSound name id s free h,
  )
  | inr (a, taken) ↦ (s, ap (λ r. some r.0) (create-taken name id a s taken), h)
]
step-IsSound (drop name) s h = elim (Option-cases (get_by_name name s)) [
  | inl free ↦ (s, ap (λ o. elim o [ none ↦ none | some r ↦ some r.0 ]) (drop-free name s free), h)
  | inr (a, taken) ↦
      let (t, object) = h.named name a taken in
      (
        forget name a t s,
        ap (λ o. elim o [ none ↦ none | some r ↦ some r.0 ]) (drop-forget name a t s taken object),
        forget-IsSound name a t s taken object h,
      )
]

run-IsSound :
    (calls : List Call) (s : Store)
    → IsSound s
    → (s' : Store) × (run calls s ≡ some s') × IsSound s'
unfolding run
run-IsSound [] s h = (s, refl, h)
run-IsSound (c ∷ calls) s h =
    let (s₁, first, h₁) = step-IsSound c s h in
    let (s₂, rest, h₂) = run-IsSound calls s₁ h₁ in
    (s₂, ap (λ o. elim o [ none ↦ none | some s' ↦ run calls s' ]) first ∙ rest, h₂)

none-some : {A : Type 0} (a : A) → none ≢ some a
none-some a e = cc

new-IsSound : IsSound (init new_store).0
unfolding init get_by_name get_by_id Dict.lookup Assoc.lookup
new-IsSound = record {
  named = λ n a e. absurd (none-some a e);
  named_small = λ n a e. absurd (none-some a e);
  apart = λ n n' a e e'. absurd (none-some a e);
  numbered = λ i a e. absurd (none-some a e);
  numbered_small = λ i a e. absurd (none-some a e);
}

module _ (calls : List Call) (name : List ℕ) (id : ℕ) where
  -- Whatever tablets are created and dropped on a new store, in any order, no call uses a tablet
  -- that is deleted. Afterwards the lookup by any name gives nothing or a pointer to a tablet that
  -- is not deleted, and the lookup by any id gives nothing or a pointer to a tablet that is not
  -- deleted and has that id.
  pub run-IsLive :
      (s : Store) × (run calls (init new_store).0 ≡ some s)
      × ((get_by_name name s ≡ none) ⊎ ((a : ℕ) × (get_by_name name s ≡ some a) × IsLive a s))
      × ((get_by_id id s ≡ none)
          ⊎ ((a : ℕ) × (t : Tablet) × (get_by_id id s ≡ some a)
              × (Assoc.lookup a s.heap ≡ some t)
              × (t.tablet_id ≡ id)))
  run-IsLive =
      let (s, done, h) = run-IsSound calls (init new_store).0 new-IsSound in
      (
        s,
        done,
        elim (Option-cases (get_by_name name s)) [
          | inl free ↦ inl free
          | inr (a, taken) ↦ inr (a, taken, h.named name a taken)
        ],
        elim (Option-cases (get_by_id id s)) [
          | inl free ↦ inl free
          | inr (a, taken) ↦ let (t, at, own) = h.numbered id a taken in inr (a, t, taken, at, own)
        ],
      )
