-- ===== src/Map/Laws.antt =====
-- Laws of `Map`: what is read after a write, and the keys.
use rtcforge.Prelude.{
  suc, true, false, ◌||◌, [], ◌∷◌, ◌≢◌, none, some, ◌≡◌, refl, arith, Key, ◌===◌, if◌then◌else◌,
  length, same_self, same_of_eq, eq_of_same,
}
use rtcforge.Map.{Map, Distinct, contains, get, has, set, delete, keys}

module _ {ℓ κ} {K : Type ℓ} {V : Type κ} ⦃k : Key K⦄ where
  pub get-set :
      (i j : K) (v : V) (m : Map K V) → get j (set i v m) ≡ (if i === j then some v else get j m)
  unfolding get set
  get-set i j v [] = refl
  get-set i j v ((b, w) ∷ m) = ground (
    arith,
    eq_of_same b i,
    eq_of_same b j,
    eq_of_same i j,
    same_of_eq i j,
    same_of_eq b i,
    same_of_eq b j,
    get-set i j v m,
  )

  pub get-set_self : (i : K) (v : V) (m : Map K V) → get i (set i v m) ≡ some v
  get-set_self i v m = ground (arith, get-set i i v m, same_self i)

  pub get-set_ne : (i j : K) (v : V) (m : Map K V) → i ≢ j → get j (set i v m) ≡ get j m
  get-set_ne i j v m h = ground (arith, get-set i j v m, eq_of_same i j)

  pub has-set : (i j : K) (v : V) (m : Map K V) → has j (set i v m) ≡ (i === j || has j m)
  unfolding has set
  has-set i j v [] = refl
  has-set i j v ((b, w) ∷ m) =
      ground (arith, eq_of_same b i, eq_of_same b j, same_of_eq i j, has-set i j v m)

  pub contains-keys : (i : K) (m : Map K V) → contains i (keys m) ≡ has i m
  unfolding contains has
  contains-keys i [] = refl
  contains-keys i ((b, w) ∷ m) = ground (arith, contains-keys i m)

  pub get-eq-none_of_not_has : (i : K) (m : Map K V) → has i m ≡ false → get i m ≡ none
  unfolding get has
  get-eq-none_of_not_has i [] h = refl
  get-eq-none_of_not_has i ((b, w) ∷ m) h = ground (arith, get-eq-none_of_not_has i m)

  pub not_has_of_get : (i : K) (m : Map K V) → get i m ≡ none → has i m ≡ false
  unfolding get has
  not_has_of_get i [] h = refl
  not_has_of_get i ((b, w) ∷ m) h = ground (arith, not_has_of_get i m)

  pub has_of_get : (i : K) (m : Map K V) (v : V) → get i m ≡ some v → has i m ≡ true
  unfolding get has
  has_of_get i [] v h = ground arith
  has_of_get i ((b, w) ∷ m) v h = ground (arith, has_of_get i m v)

  pub has-delete_ne : (i j : K) (m : Map K V) → i ≢ j → has j (delete i m) ≡ has j m
  unfolding has delete
  has-delete_ne i j [] h = refl
  has-delete_ne i j ((b, w) ∷ m) h =
      ground (arith, eq_of_same b i, eq_of_same b j, has-delete_ne i j m h)

  pub get-delete_ne : (i j : K) (m : Map K V) → i ≢ j → get j (delete i m) ≡ get j m
  unfolding get delete
  get-delete_ne i j [] h = refl
  get-delete_ne i j ((b, w) ∷ m) h =
      ground (arith, eq_of_same b i, eq_of_same b j, get-delete_ne i j m h)

  pub has-delete_self : (i : K) (m : Map K V) → Distinct (keys m) → has i (delete i m) ≡ false
  unfolding has delete
  has-delete_self i [] d = refl
  has-delete_self i ((b, w) ∷ m) d =
      ground (arith, eq_of_same b i, contains-keys b m, has-delete_self i m d.1)

  pub get-delete_self : (i : K) (m : Map K V) → Distinct (keys m) → get i (delete i m) ≡ none
  get-delete_self i m d = get-eq-none_of_not_has i (delete i m) (has-delete_self i m d)

  pub delete_absent : (i : K) (m : Map K V) → has i m ≡ false → delete i m ≡ m
  unfolding has delete
  delete_absent i [] h = refl
  delete_absent i ((b, w) ∷ m) h = ground (arith, delete_absent i m)

  -- No write makes a key appear twice.
  pub set-Distinct : (i : K) (v : V) (m : Map K V) → Distinct (keys m) → Distinct (keys (set i v m))
  unfolding set contains
  set-Distinct i v [] d = (refl, tt)
  set-Distinct i v ((b, w) ∷ m) d = ground (
    arith,
    contains-keys b m,
    contains-keys b (set i v m),
    has-set i b v m,
    eq_of_same i b,
    same_of_eq b i,
    set-Distinct i v m d.1,
  )

  pub has-delete-le : (i j : K) (m : Map K V) → has j m ≡ false → has j (delete i m) ≡ false
  unfolding has delete
  has-delete-le i j [] h = refl
  has-delete-le i j ((b, w) ∷ m) h = ground (arith, has-delete-le i j m)

  pub delete-Distinct : (i : K) (m : Map K V) → Distinct (keys m) → Distinct (keys (delete i m))
  unfolding delete
  delete-Distinct i [] d = tt
  delete-Distinct i ((b, w) ∷ m) d = ground (
    arith,
    contains-keys b m,
    contains-keys b (delete i m),
    has-delete-le i b m,
    delete-Distinct i m d.1,
  )

  pub keys-set_old : (i : K) (v : V) (m : Map K V) → has i m ≡ true → keys (set i v m) ≡ keys m
  unfolding has set
  keys-set_old i v [] h = ground arith
  keys-set_old i v ((b, w) ∷ m) h = ground (arith, keys-set_old i v m)

  pub length-set_new :
      (i : K) (v : V) (m : Map K V) → get i m ≡ none → length (set i v m) ≡ suc (length m)
  unfolding get set
  length-set_new i v [] h = refl
  length-set_new i v ((b, w) ∷ m) h = ground (arith, length-set_new i v m)

  pub length-set_old :
      (i : K) (v w : V) (m : Map K V) → get i m ≡ some w → length (set i v m) ≡ length m
  unfolding get set
  length-set_old i v w [] h = ground arith
  length-set_old i v w ((b, x) ∷ m) h = ground (arith, length-set_old i v w m)

  pub length-delete :
      (i : K) (w : V) (m : Map K V) → get i m ≡ some w → suc (length (delete i m)) ≡ length m
  unfolding get delete
  length-delete i w [] h = ground arith
  length-delete i w ((b, x) ∷ m) h = ground (arith, length-delete i w m)
