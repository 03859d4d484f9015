-- ===== src/Ls/ObStore/Sound.antt =====
-- The pointers that a store hands out.
use lsm_storage.Prelude.{
  ℕ, ◌+◌, ◌<◌, ◌≡◌, ◌↔◌, refl, inl, inr, true, none, some, List, [], ◌∷◌, ◌==◌, if◌then◌else◌,
  arith, Bool-cases, subst,
}
use lsm_storage.Prelude.Assoc
use lsm_storage.Prelude.Dict
use lsm_storage.Schema.{same_string}
use lsm_storage.Schema.Names.{same_string_refl}
use lsm_storage.Ls.Tablet.{Tablet, new_tablet, prepare}
use lsm_storage.Ls.Tablet
use lsm_storage.Ls.ObStore.{Store, get_by_name, get_by_id, forget}

same_string-eq : (a b : List ℕ) → same_string a b ≡ true → a ≡ b
unfolding same_string
same_string-eq [] [] e = refl
same_string-eq [] (y ∷ ys) e = cc
same_string-eq (x ∷ xs) [] e = cc
same_string-eq (x ∷ xs) (y ∷ ys) e = ground (arith, same_string-eq xs ys)

same_string_iff : (a b : List ℕ) → (same_string a b ≡ true) ↔ (a ≡ b)
same_string_iff a b =
    (same_string-eq a b, λ e. subst (λ c. same_string a c ≡ true) e (same_string_refl a))

-- What stands under an address.
abbrev pub IsLive : ℕ → Store → Type 0
IsLive a s = (t : Tablet) × (Assoc.lookup a s.heap ≡ some t)

pub record IsSound (s : Store) : Type 0 where
  pub named : (n : List ℕ) (a : ℕ) → get_by_name n s ≡ some a → IsLive a s
  pub named_small : (n : List ℕ) (a : ℕ) → get_by_name n s ≡ some a → a < s.next_address
  pub apart :
      (n n' : List ℕ) (a : ℕ) → get_by_name n s ≡ some a → get_by_name n' s ≡ some a → n ≡ n'
  pub numbered :
      (id a : ℕ)
      → get_by_id id s ≡ some a
      → (t : Tablet) × (Assoc.lookup a s.heap ≡ some t) × (t.tablet_id ≡ id)
  pub numbered_small : (id a : ℕ) → get_by_id id s ≡ some a → a < s.next_address

abbrev pub created : List ℕ → ℕ → Store → Store
created name id s = record s {
  heap = Assoc.insert s.next_address (Tablet.init id new_tablet).0 s.heap;
  tablets_by_name = Dict.insert same_string name s.next_address s.tablets_by_name;
  tablets_by_id = Assoc.insert id s.next_address s.tablets_by_id;
  next_address = s.next_address + 1;
}

init_id : (id : ℕ) → (Tablet.init id new_tablet).0.tablet_id ≡ id
unfolding Tablet.init prepare
init_id id = refl

module _ (name : List ℕ) (id : ℕ) (s : Store) where
  created_name :
      (n : List ℕ)
      → get_by_name n (created name id s)
        ≡ (if same_string name n then some s.next_address else get_by_name n s)
  unfolding get_by_name
  created_name n = Dict.lookup-insert same_string name n s.next_address s.tablets_by_name

  created_id :
      (i : ℕ)
      → get_by_id i (created name id s) ≡ (if id == i then some s.next_address else get_by_id i s)
  unfolding get_by_id
  created_id i = Assoc.lookup-insert id i s.next_address s.tablets_by_id

  created_heap :
      (a : ℕ)
      → Assoc.lookup a (created name id s).heap ≡ (
          if s.next_address == a then some (Tablet.init id new_tablet).0 else Assoc.lookup a s.heap)
  created_heap a = Assoc.lookup-insert s.next_address a (Tablet.init id new_tablet).0 s.heap

  pub created-IsSound : get_by_name name s ≡ none → IsSound s → IsSound (created name id s)
  created-IsSound free h = record {
    named = λ n a e. elim (Bool-cases (same_string name n)) [
      | inl new ↦ ((Tablet.init id new_tablet).0, ground (arith, created_name n, created_heap a))
      | inr old ↦
          let before : get_by_name n s ≡ some a = ground (arith, created_name n) in
          let (t, at) = h.named n a before in (t, ground (arith, created_heap a, h.named_small n a))
    ];
    named_small = λ n a e. ground (arith, created_name n, h.named_small n a);
    apart = λ n n' a e e'. ground (
      arith,
      created_name n,
      created_name n',
      h.named_small n a,
      h.named_small n' a,
      h.apart n n' a,
      same_string-eq name n,
      same_string-eq name n',
    );
    numbered = λ i a e. elim (Bool-cases (id == i)) [
      | inl new ↦ (
        (Tablet.init id new_tablet).0,
        ground (arith, created_id i, created_heap a),
        ground (arith, init_id id),
      )
      | inr old ↦
          let before : get_by_id i s ≡ some a = ground (arith, created_id i) in
          let (t, at, own) = h.numbered i a before in
          (t, ground (arith, created_heap a, h.numbered_small i a), own)
    ];
    numbered_small = λ i a e. ground (arith, created_id i, h.numbered_small i a);
  }

module _ (name : List ℕ) (address : ℕ) (t : Tablet) (s : Store) where
  forget_name :
      (n : List ℕ)
      → get_by_name n (forget name address t s)
        ≡ (if same_string name n then none else get_by_name n s)
  unfolding get_by_name forget
  forget_name n = Dict.lookup-remove same_string same_string_iff name n s.tablets_by_name

  forget_id :
      (i : ℕ)
      → get_by_id i (forget name address t s) ≡ (if t.tablet_id == i then none else get_by_id i s)
  unfolding get_by_id forget
  forget_id i = Assoc.lookup-remove t.tablet_id i s.tablets_by_id

  forget_heap :
      (a : ℕ)
      → Assoc.lookup a (forget name address t s).heap
        ≡ (if address == a then none else Assoc.lookup a s.heap)
  unfolding forget
  forget_heap a = Assoc.lookup-remove address a s.heap

  forget_next : (forget name address t s).next_address ≡ s.next_address
  unfolding forget
  forget_next = refl

  pub forget-IsSound :
      get_by_name name s ≡ some address
      → Assoc.lookup address s.heap ≡ some t
      → IsSound s
      → IsSound (forget name address t s)
  forget-IsSound found object h = record {
    named = λ n a e.
        let before : get_by_name n s ≡ some a = ground (arith, forget_name n) in
        let (u, at) = h.named n a before in
        (
          u,
          ground
              (arith, forget_name n, forget_heap a, h.apart name n a, (same_string_iff name n).1),
        );
    named_small = λ n a e. ground (arith, forget_name n, h.named_small n a, forget_next);
    apart = λ n n' a e e'. ground (arith, forget_name n, forget_name n', h.apart n n' a);
    numbered = λ i a e.
        let before : get_by_id i s ≡ some a = ground (arith, forget_id i) in
        let (u, at, own) = h.numbered i a before in
        (u, ground (arith, forget_id i, forget_heap a), own);
    numbered_small = λ i a e. ground (arith, forget_id i, h.numbered_small i a, forget_next);
  }
