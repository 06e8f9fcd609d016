-- ===== src/Core/StateStore/Expiry.antt =====
-- Lazy expiry is invisible: evicting what has expired changes nothing that can be read later.
use rtcforge.Map
use rtcforge.Map.{Map, Distinct, contains}
use rtcforge.Map.Laws.{get-set_self, get-set_ne, get-delete_self, get-delete_ne, delete-Distinct}
use rtcforge.Prelude.{
  ℕ, ◌≤◌, Bool, true, false, ◌&&◌, List, [], ◌∷◌, Option, none, some, String, ◌≡◌, ◌≢◌, refl, sym,
  ap, subst, ◌∙◌, inl, inr, arith, ◌===◌, if◌then◌else◌, text_key, Bool-cases, eq_of_same,
  ne_of_same, same_of_eq, same_self, filter_by,
}
use rtcforge.Core.StateStore.{
  Entry, MemoryStateStore, is_expired, deadline, matches, live_found, live, get, set, keys_loop,
  keys, is_found, value_of, purge_loop, purge,
}

expired_on :
    (now later : ℕ) (o : Option ℕ)
    → is_expired now o ≡ true
    → now ≤ later
    → is_expired later o ≡ true
expired_on now later none old after = old
expired_on now later (some t) old after = ground arith

module _ {V : Type 0} where
  -- What a reader sees of an entry at a time.
  abbrev pub visible : ℕ → Option (Entry V) → Option V
  visible now none = none
  visible now (some e) = if is_expired now e.expires_at then none else some e.value

  -- What a reader sees at a key.
  abbrev pub lookup : ℕ → String → MemoryStateStore V → Option V
  lookup now key s = visible now (Map.get key s.entries)

  -- From `now` on, readers see the same in both stores.
  pub record Unseen (now : ℕ) (s s' : MemoryStateStore V) : Type 0 where
    pub distinct : Distinct (Map.keys s'.entries)
    pub same : (later : ℕ) (key : String) → now ≤ later → lookup later key s' ≡ lookup later key s

  still_expired :
      (now later : ℕ) (e : Entry V)
      → is_expired now e.expires_at ≡ true
      → now ≤ later
      → visible later (some e) ≡ none
  still_expired now later e old after = rw (expired_on now later e.expires_at old after)

  delete-Unseen :
      (now : ℕ) (key : String) (e : Entry V) (s : MemoryStateStore V)
      → Distinct (Map.keys s.entries)
      → Map.get key s.entries ≡ some e
      → is_expired now e.expires_at ≡ true
      → Unseen now s (record { entries = Map.delete key s.entries })
  delete-Unseen now key e s d found old = record {
    distinct = delete-Distinct key s.entries d;
    same = λ later j after. elim (Bool-cases (key === j)) [
      | inl same ↦
          subst
            (λ i.
              visible later (Map.get i (Map.delete key s.entries))
              ≡ visible later (Map.get i s.entries))
            (eq_of_same key j same)
            (ap (visible later) (get-delete_self key s.entries d)
              ∙ sym (ap (visible later) found ∙ still_expired now later e old after))
      | inr differs ↦ ap (visible later) (get-delete_ne key j s.entries (ne_of_same key j differs))
    ];
  }

  Unseen-refl : (now : ℕ) (s : MemoryStateStore V) → Distinct (Map.keys s.entries) → Unseen now s s
  Unseen-refl now s d = record { distinct = d; same = λ later key after. refl }

  Unseen-trans :
      {now : ℕ} {s t u : MemoryStateStore V} → Unseen now s t → Unseen now t u → Unseen now s u
  Unseen-trans a b = record {
    distinct = b.distinct;
    same = λ later key after. b.same later key after ∙ a.same later key after;
  }

  live_found-Unseen :
      (now : ℕ) (key : String) (o : Option (Entry V)) (s : MemoryStateStore V)
      → Distinct (Map.keys s.entries)
      → Map.get key s.entries ≡ o
      → (value_of (live_found now key o s).1 ≡ visible now o)
        × Unseen now s (live_found now key o s).0
  unfolding live_found
  live_found-Unseen now key none s d found = (refl, Unseen-refl now s d)
  live_found-Unseen now key (some e) s d found = elim (Bool-cases (is_expired now e.expires_at)) [
    | inl old ↦ rw old (refl, delete-Unseen now key e s d found old)
    | inr fresh ↦ rw fresh (refl, Unseen-refl now s d)
  ]

  live-Unseen :
      (now : ℕ) (key : String) (s : MemoryStateStore V)
      → Distinct (Map.keys s.entries)
      → (value_of (live now key s).1 ≡ lookup now key s) × Unseen now s (live now key s).0
  unfolding live
  live-Unseen now key s d = live_found-Unseen now key (Map.get key s.entries) s d refl

  -- `get` reads what is visible, and the eviction that it may do cannot be seen from then on.
  pub get_lem :
      (now : ℕ) (key : String) (s : MemoryStateStore V)
      → Distinct (Map.keys s.entries)
      → ((get now key s).1 ≡ lookup now key s) × Unseen now s (get now key s).0
  unfolding get
  get_lem now key s d = live-Unseen now key s d

  -- After a `set` its key reads as the value for less than the lifetime, and as nothing after that; an
  -- entry that was set without a lifetime never expires; other keys read as before.
  pub set_lem :
      (now later : ℕ) (key : String) (value : V) (ttl : Option ℕ) (s : MemoryStateStore V)
      → (lookup later key (set now key value ttl s)
          ≡ (if is_expired later (deadline now ttl) then none else some value))
        × ((other : String)
            → key ≢ other
            → lookup later other (set now key value ttl s) ≡ lookup later other s)
  unfolding set
  set_lem now later key value ttl s = (
    ap (visible later) (get-set_self key _ s.entries),
    λ other ne. ap (visible later) (get-set_ne key other _ s.entries ne),
  )

  keys_loop-Unseen :
      (now : ℕ) (prefix : Option String) (ks : List String) (s : MemoryStateStore V)
      → Distinct (Map.keys s.entries)
      → Unseen now s (keys_loop now prefix ks s).0
  unfolding keys_loop
  keys_loop-Unseen now prefix [] s d = Unseen-refl now s d
  keys_loop-Unseen now prefix (key ∷ rest) s d = elim (Bool-cases (matches prefix key)) [
    | inl wanted ↦
        let first = (live-Unseen now key s d).1 in
        rw wanted
          (Unseen-trans first (keys_loop-Unseen now prefix rest (live now key s).0 first.distinct))
    | inr skipped ↦ rw skipped (keys_loop-Unseen now prefix rest s d)
  ]

  abbrev pub is_some : Option V → Bool
  is_some none = false
  is_some (some v) = true

  is_found-value_of : (o : Option (Entry V)) → is_found o ≡ is_some (value_of o)
  is_found-value_of none = refl
  is_found-value_of (some e) = refl

  -- The keys that have the prefix, and a visible value in `s`.
  abbrev pub is_listed : ℕ → Option String → MemoryStateStore V → String → Bool
  is_listed now prefix s key = matches prefix key && is_some (lookup now key s)

  keys_loop-filter_by :
      (now : ℕ) (prefix : Option String) (ks : List String) (s t : MemoryStateStore V)
      → Unseen now s t
      → (keys_loop now prefix ks t).1 ≡ filter_by (is_listed now prefix s) ks
  unfolding keys_loop
  keys_loop-filter_by now prefix [] s t u = refl
  keys_loop-filter_by now prefix (key ∷ rest) s t u =
      let (read, first) = live-Unseen now key t u.distinct in
      let found : is_found (live now key t).1 ≡ is_some (lookup now key s) =
        is_found-value_of (live now key t).1 ∙ ap is_some (read ∙ u.same now key (omega arith)) in
      let kept = keys_loop-filter_by now prefix rest s (live now key t).0 (Unseen-trans u first) in
      let skipped = keys_loop-filter_by now prefix rest s t u in
      elim (Bool-cases (matches prefix key)) [
        | inl wanted ↦ rw (wanted, found, kept)
        | inr other ↦ rw other skipped
      ]

  -- `keys` lists, in the order of insertion, exactly the keys with the prefix at which there is a
  -- visible value, and its evictions cannot be seen from then on.
  pub keys_lem :
      (now : ℕ) (prefix : Option String) (s : MemoryStateStore V)
      → Distinct (Map.keys s.entries)
      → ((keys now prefix s).1 ≡ filter_by (is_listed now prefix s) (Map.keys s.entries))
        × Unseen now s (keys now prefix s).0
  unfolding keys
  keys_lem now prefix s d = (
    keys_loop-filter_by now prefix (Map.keys s.entries) s s (Unseen-refl now s d),
    keys_loop-Unseen now prefix (Map.keys s.entries) s d,
  )

  -- Every entry of `rest` stands in the store.
  abbrev AllFound : Map String (Entry V) → MemoryStateStore V → Type 0
  AllFound [] s = Unit
  AllFound ((key, e) ∷ rest) s = (Map.get key s.entries ≡ some e) × AllFound rest s

  AllFound-delete :
      (gone : String) (rest : Map String (Entry V)) (s : MemoryStateStore V)
      → contains gone (Map.keys rest) ≡ false
      → AllFound rest s
      → AllFound rest (record { entries = Map.delete gone s.entries })
  unfolding contains
  AllFound-delete gone [] s fresh all = tt
  AllFound-delete gone ((key, e) ∷ rest) s fresh (here, all) =
      let differs : (key === gone) ≡ false = ground arith in
      let later : contains gone (Map.keys rest) ≡ false = ground arith in
      (
        get-delete_ne gone key s.entries (λ e. ne_of_same key gone differs (sym e)) ∙ here,
        AllFound-delete gone rest s later all,
      )

  purge_loop-Unseen :
      (now : ℕ) (rest : Map String (Entry V)) (s : MemoryStateStore V)
      → Distinct (Map.keys s.entries)
      → Distinct (Map.keys rest)
      → AllFound rest s
      → Unseen now s (purge_loop now rest s)
  unfolding purge_loop
  purge_loop-Unseen now [] s d fresh all = Unseen-refl now s d
  purge_loop-Unseen now ((key, e) ∷ rest) s d (fresh, distinct) (here, all) =
      elim (Bool-cases (is_expired now e.expires_at)) [
        | inl old ↦
            let first = delete-Unseen now key e s d here old in
            rw old (
              Unseen-trans first (
                purge_loop-Unseen now rest (record { entries = Map.delete key s.entries })
                  first.distinct distinct (AllFound-delete key rest s fresh all)))
        | inr live ↦ rw live (purge_loop-Unseen now rest s d distinct all)
      ]

  AllFound-cons :
      (key : String) (e : Entry V) (rest m : Map String (Entry V))
      → contains key (Map.keys rest) ≡ false
      → AllFound rest (record { entries = m })
      → AllFound rest (record { entries = (key, e) ∷ m })
  unfolding Map.get contains
  AllFound-cons key e [] m fresh all = tt
  AllFound-cons key e ((k, v) ∷ rest) m fresh (here, all) =
      let differs : (k === key) ≡ false = ground arith in
      let flipped : (key === k) ≡ false = ground (arith, eq_of_same key k, same_of_eq k key) in
      let later : contains key (Map.keys rest) ≡ false = ground arith in
      (rw flipped here, AllFound-cons key e rest m later all)

  AllFound-self :
      (m : Map String (Entry V)) → Distinct (Map.keys m) → AllFound m (record { entries = m })
  unfolding Map.get
  AllFound-self [] d = tt
  AllFound-self ((key, e) ∷ m) (fresh, d) =
      (rw (same_self key), AllFound-cons key e m m fresh (AllFound-self m d))

  -- A purge cannot be seen from then on: it drops only what has expired.
  pub purge_lem :
      (now : ℕ) (s : MemoryStateStore V)
      → Distinct (Map.keys s.entries)
      → Unseen now s (purge now s)
  unfolding purge
  purge_lem now s d = purge_loop-Unseen now s.entries s d d (AllFound-self s.entries d)
