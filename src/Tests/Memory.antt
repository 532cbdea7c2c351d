-- ===== src/Tests/Memory.antt =====
-- A server of Redis in memory, for the tests: a list of the entries, each with its deadline.
use event_booking_ticketing.Redis.{
  Redis, count_of, Listed, counter, second, until, RedisKey-discrete, RedisValue, RedisKey,
}
use event_booking_ticketing.Common.{
  ◌⊎◌, is_some, not, ◌-◌, Option-cases, sym, ◌∙◌, inr, subst, inl, Bool-cases, false, ap, arith,
  ◌≤◌, ◌≢◌, true, refl, ◌*◌, [], ◌+◌, if◌then◌else◌, none, some, Bool, ◌∷◌, ◌≡◌, List, Option, ℕ,
}

pub record Entry : Type 0 where
  pub value : RedisValue
  pub deadline : Option ℕ

abbrev pub Memory : Type 0
Memory = List (RedisKey × Entry)

unfoldable pub is_key : RedisKey → RedisKey → Bool
unfolding RedisKey-discrete
is_key k j = elim (RedisKey-discrete k j) [ yes p ↦ true | no p ↦ false ]

is_key→eq : (k j : RedisKey) → is_key k j ≡ true → k ≡ j
unfolding is_key
is_key→eq k j =
    elim (RedisKey-discrete k j)
      as (λ d. elim d as (λ x. Bool) [ yes p ↦ true | no p ↦ false ] ≡ true → k ≡ j) [
        | yes p ↦ λ h. p
        | no p ↦ λ h. cc
      ]

is_key-ne : (k j : RedisKey) → k ≢ j → is_key k j ≡ false
is_key-ne k j ne = elim (Bool-cases (is_key k j)) [
  | inl h ↦ absurd (ne (is_key→eq k j h))
  | inr h ↦ h
]

is_key_refl : (k : RedisKey) → is_key k k ≡ true
unfolding is_key
is_key_refl k =
    elim (RedisKey-discrete k k)
      as (λ d. elim d as (λ x. Bool) [ yes p ↦ true | no p ↦ false ] ≡ true) [
        | yes p ↦ refl
        | no p ↦ absurd (p refl)
      ]

abbrev pub entry : RedisKey → Memory → Option Entry
entry k [] = none
entry k ((j, x) ∷ s) = if is_key k j then some x else entry k s

abbrev pub remove : RedisKey → Memory → Memory
remove k [] = []
remove k ((j, x) ∷ s) = if is_key k j then remove k s else (j, x) ∷ remove k s

abbrev pub alive : ℕ → Option Entry → Option RedisValue
alive t none = none
alive t (some x) = elim x.deadline [ none ↦ some x.value | some d ↦ until d t (some x.value) ]

abbrev pub put : RedisKey → RedisValue → Option ℕ → Memory → Memory
put k v d s = (k, record { value = v; deadline = d }) ∷ remove k s

abbrev pub deadline_of : ℕ → Option Entry → Option ℕ
deadline_of t none = none
deadline_of t (some x) = elim (alive t (some x)) [ none ↦ none | some v ↦ x.deadline ]

-- The keys of the entries that a pattern fits, alive or not.
abbrev pub keys : (RedisKey → Bool) → Memory → List RedisKey
keys p [] = []
keys p ((j, x) ∷ s) = if p j then j ∷ keys p s else keys p s

abbrev pub expire_key : ℕ → RedisKey → ℕ → Memory → Memory
expire_key now k ex s = elim (alive now (entry k s)) [
  | none ↦ remove k s
  | some v ↦ put k v (some (now + ex * second)) s
]

pub entry-remove_self : (k : RedisKey) (s : Memory) → entry k (remove k s) ≡ none
entry-remove_self k [] = refl
entry-remove_self k ((j, x) ∷ s) = ground (arith, entry-remove_self k s)

pub entry-remove_other : (j k : RedisKey) (s : Memory) → j ≢ k → entry j (remove k s) ≡ entry j s
entry-remove_other j k [] ne = refl
entry-remove_other j k ((i, x) ∷ s) ne = elim (Bool-cases (is_key k i)) [
  | inl h ↦
      let q : is_key j i ≡ false = is_key-ne j i (λ e. ne (e ∙ sym (is_key→eq k i h))) in
      ground (arith, entry-remove_other j k s ne)
  | inr h ↦ ground (arith, entry-remove_other j k s ne)
]

pub keys_complete :
    (t : ℕ) (p : RedisKey → Bool) (k : RedisKey) (v : RedisValue) (s : Memory)
    → p k ≡ true
    → alive t (entry k s) ≡ some v
    → Listed k (keys p s)
keys_complete t p k v [] fits h = cc
keys_complete t p k v ((j, x) ∷ s) fits h = elim (Bool-cases (is_key k j)) [
  | inl same ↦
      let q : p j ≡ true = subst (λ i. p i ≡ true) (is_key→eq k j same) fits in
      rw q (inl (is_key→eq k j same))
  | inr other ↦
      let rest : Listed k (keys p s) = keys_complete t p k v s fits (ground arith) in
      elim (Bool-cases (p j)) [ inl q ↦ rw q (inr rest) | inr q ↦ rw q rest ]
]

pub keys-fits : (p : RedisKey → Bool) (k : RedisKey) (s : Memory) → Listed k (keys p s) → p k ≡ true
keys-fits p k [] h = absurd h
keys-fits p k ((j, x) ∷ s) h = elim (Bool-cases (p j)) [
  | inl q ↦
      let h' : (k ≡ j) ⊎ Listed k (keys p s) =
        subst (λ b. Listed k (if b then j ∷ keys p s else keys p s)) q h in
      elim h' [ inl e ↦ ap p e ∙ q | inr r ↦ keys-fits p k s r ]
  | inr q ↦ keys-fits p k s (subst (λ b. Listed k (if b then j ∷ keys p s else keys p s)) q h)
]

pub get_earlier_lem :
    (t t' : ℕ) (o : Option Entry) (v : RedisValue)
    → t ≤ t'
    → alive t' o ≡ some v
    → alive t o ≡ some v
get_earlier_lem t t' none v later h = h
get_earlier_lem t t' (some x) v later h = ground arith

pub incr_later_lem :
    (now t n : ℕ) (o : Option Entry)
    → now ≤ t
    → alive t o ≡ some (counter n)
    → alive t (
        some
          (record { value = counter (count_of (alive now o) + 1); deadline = deadline_of now o }))
      ≡ some (counter (n + 1))
incr_later_lem now t n none later h = cc
incr_later_lem now t n (some x) later h = ground arith

-- A new value under the deadline of the old one is not over yet.
deadline_alive :
    (now : ℕ) (v : RedisValue) (o : Option Entry)
    → alive now (some (record { value = v; deadline = deadline_of now o })) ≡ some v
deadline_alive now v none = refl
deadline_alive now v (some x) = ground arith

deadline_again :
    (now : ℕ) (v : RedisValue) (o : Option Entry)
    → deadline_of now (some (record { value = v; deadline = deadline_of now o }))
      ≡ deadline_of now o
deadline_again now v none = refl
deadline_again now v (some x) = ground arith

pub get_put_self :
    (t : ℕ) (k : RedisKey) (v : RedisValue) (d : Option ℕ) (s : Memory)
    → alive t (entry k (put k v d s)) ≡ alive t (some (record { value = v; deadline = d }))
get_put_self t k v d s = rw (is_key_refl k)

pub get_put_other :
    (t : ℕ) (j k : RedisKey) (v : RedisValue) (d : Option ℕ) (s : Memory)
    → j ≢ k
    → alive t (entry j (put k v d s)) ≡ alive t (entry j s)
get_put_other t j k v d s ne = rw (is_key-ne j k ne) (ap (alive t) (entry-remove_other j k s ne))

pub get_expire_self_lem :
    (now t : ℕ) (k : RedisKey) (v : RedisValue) (ex : ℕ) (s : Memory)
    → now ≤ t
    → alive now (entry k s) ≡ some v
    → alive t (entry k (expire_key now k ex s)) ≡ until (now + ex * second) t (some v)
get_expire_self_lem now t k v ex s later h =
    rw (h, expire_key) (get_put_self t k v (some (now + ex * second)) s)

pub get_expire_other_lem :
    (now t : ℕ) (j k : RedisKey) (ex : ℕ) (s : Memory)
    → j ≢ k
    → alive t (entry j (expire_key now k ex s)) ≡ alive t (entry j s)
get_expire_other_lem now t j k ex s ne = elim (Option-cases (alive now (entry k s))) [
  | inl q ↦ rw (q, expire_key) (ap (alive t) (entry-remove_other j k s ne))
  | inr (v, q) ↦ rw (q, expire_key) (get_put_other t j k v (some (now + ex * second)) s ne)
]

pub incr_self_lem :
    (now : ℕ) (k : RedisKey) (s : Memory)
    → let n = count_of (alive now (entry k s)) + 1 in
      alive now (entry k (put k (counter n) (deadline_of now (entry k s)) s)) ≡ some (counter n)
incr_self_lem now k s =
    get_put_self now k _ _ s
    ∙ deadline_alive now (counter (count_of (alive now (entry k s)) + 1)) (entry k s)

pub persists_incr_lem :
    (now : ℕ) (k : RedisKey) (v : RedisValue) (s : Memory)
    → alive now (entry k s) ≡ some v
    → not (
        is_some (
          deadline_of now (
            entry k (
              put k
                (counter (count_of (alive now (entry k s)) + 1))
                (deadline_of now (entry k s))
                s))))
      ≡ not (is_some (deadline_of now (entry k s)))
persists_incr_lem now k v s h = rw (is_key_refl k) (
    ap (λ (o : Option ℕ). not (is_some o))
      (deadline_again now (counter (count_of (alive now (entry k s)) + 1)) (entry k s)))

pub persists_later_lem :
    (now t : ℕ) (o : Option Entry) (v : RedisValue)
    → now ≤ t
    → alive t o ≡ some v
    → not (is_some (deadline_of t o)) ≡ not (is_some (deadline_of now o))
persists_later_lem now t none v later h = cc
persists_later_lem now t (some x) v later h = ground arith

-- The server that keeps to the laws.
abbrev pub memory : Redis Memory
memory = record {
  get = λ t k s. alive t (entry k s);
  set = λ now k v ex s. put k v (some (now + ex * second)) s;
  incr = λ now k s.
      let n = count_of (alive now (entry k s)) + 1 in
      (n, put k (counter n) (deadline_of now (entry k s)) s);
  decr = λ now k s.
      let n = count_of (alive now (entry k s)) - 1 in
      (n, put k (counter n) (deadline_of now (entry k s)) s);
  persists = λ now k s. not (is_some (deadline_of now (entry k s)));
  expire = λ now k ex s. expire_key now k ex s;
  del = remove;
  scan = λ now p s. keys p s;
  get-set_self = λ now t k v ex s later. get_put_self t k v (some (now + ex * second)) s;
  get-incr_self = λ now k s. incr_self_lem now k s;
  incr-count = λ now k s. refl;
  get-incr_later =
      λ now t n k s later h. get_put_self t k _ _ s ∙ incr_later_lem now t n (entry k s) later h;
  get-expire_self = λ now t k v ex s later h. get_expire_self_lem now t k v ex s later h;
  persists-incr = λ now k v s h. persists_incr_lem now k v s h;
  persists_later = λ now t k v s later h. persists_later_lem now t (entry k s) v later h;
  set_nx = λ now k v ex s.
      if is_some (alive now (entry k s))
      then (false, s)
      else (true, put k v (some (now + ex * second)) s);
  set_nx-set = λ now k v ex s. refl;
  get-del_self = λ t k s. ap (alive t) (entry-remove_self k s);
  get-set_other = λ now t j k v ex s ne. get_put_other t j k v (some (now + ex * second)) s ne;
  get-incr_other = λ now t j k s ne. get_put_other t j k _ _ s ne;
  get-decr_other = λ now t j k s ne. get_put_other t j k _ _ s ne;
  get-expire_other = λ now t j k ex s ne. get_expire_other_lem now t j k ex s ne;
  get-del_other = λ t j k s ne. ap (alive t) (entry-remove_other j k s ne);
  get_earlier = λ t t' k v s later h. get_earlier_lem t t' (entry k s) v later h;
  scan-fits = λ t p k s h. keys-fits p k s h;
  scan-complete = λ t p k v s fits h. keys_complete t p k v s fits h;
}
