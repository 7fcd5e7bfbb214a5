-- ===== src/Prelude/Dict.antt =====
-- `HashMap`: an association list. An insertion replaces the value of a key in place, so a map
-- that is built by `insert` lists no key twice; iteration visits the entries in list order, and
-- the theorems hold for every order.
use mathlib.Core.Path.{◌≡◌, refl}
use mathlib.Core.Bool.{◌&&◌, Bool, true, false}
use mathlib.Core.Option.{Option, none, some}
use mathlib.Core.List.{List, [], ◌∷◌}
use native.Mathlib.Omega.{arith}
use krustlet.Prelude.Tests.{if◌then◌else◌}
use krustlet.Prelude.Lists.{keep_if}
use krustlet.Prelude.Equality.{contains, Eq, ◌==◌}

abbrev pub Dict {ℓ κ} : Type ℓ → Type κ → Type (ℓ ⊔ κ)
Dict K V = List (K × V)

module _ {ℓ κ} {K : Type ℓ} {V : Type κ} where
  -- `HashMap::keys`
  abbrev pub keys : Dict K V → List K
  keys [] = []
  keys ((k, v) ∷ d) = k ∷ keys d

  -- `HashMap::values`
  abbrev pub values : Dict K V → List V
  values [] = []
  values ((k, v) ∷ d) = v ∷ values d

module _ {ℓ κ} {K : Type ℓ} {V : Type κ} ⦃e : Eq K⦄ where
  -- `HashMap::get`
  unfoldable pub lookup : K → Dict K V → Option V
  lookup k [] = none
  lookup k ((j, v) ∷ d) = if j == k then some v else lookup k d

  -- `HashMap::insert`
  unfoldable pub insert : K → V → Dict K V → Dict K V
  insert k v [] = (k, v) ∷ []
  insert k v ((j, w) ∷ d) = if j == k then (j, v) ∷ d else (j, w) ∷ insert k v d

  -- `HashMap::remove`
  unfoldable pub remove : K → Dict K V → Dict K V
  remove k [] = []
  remove k ((j, w) ∷ d) = let rest = remove k d in if j == k then rest else (j, w) ∷ rest

  -- `HashMap::contains_key`
  abbrev pub contains_key : K → Dict K V → Bool
  contains_key k d = elim (lookup k d) [ none ↦ false | some _ ↦ true ]

  -- `HashMap::extend`
  unfoldable pub extend : Dict K V → Dict K V → Dict K V
  extend d [] = d
  extend d ((k, v) ∷ more) = extend (insert k v d) more

  -- No key is listed twice.
  abbrev pub NodupKeys : Dict K V → Type κ
  NodupKeys [] = Unit
  NodupKeys ((k, v) ∷ d) = (lookup k d ≡ none) × NodupKeys d

  pub extend-nil : (d : Dict K V) → extend d [] ≡ d
  unfolding extend
  extend-nil d = refl

  pub extend-cons :
      (k : K) (v : V) (d more : Dict K V) → extend d ((k, v) ∷ more) ≡ extend (insert k v d) more
  unfolding extend
  extend-cons k v d more = refl

  pub lookup-nil : (k : K) → lookup k [] ≡ none
  unfolding lookup
  lookup-nil k = refl

  pub lookup-cons :
      (k j : K) (v : V) (d : Dict K V)
      → lookup k ((j, v) ∷ d) ≡ (if j == k then some v else lookup k d)
  unfolding lookup
  lookup-cons k j v d = refl

  pub lookup-insert :
      (k j : K) (v : V) (d : Dict K V)
      → lookup j (insert k v d) ≡ (if k == j then some v else lookup j d)
  unfolding lookup insert
  lookup-insert k j v [] = refl
  lookup-insert k j v ((i, w) ∷ d) =
      ground (arith, e.eqb_iff k j, e.eqb_iff i k, e.eqb_iff i j, lookup-insert k j v d)

  pub lookup-remove :
      (k j : K) (d : Dict K V) → lookup j (remove k d) ≡ (if k == j then none else lookup j d)
  unfolding lookup remove
  lookup-remove k j [] = ground arith
  lookup-remove k j ((i, w) ∷ d) =
      ground (arith, lookup-remove k j d, e.eqb_iff i k, e.eqb_iff i j, e.eqb_iff k j)

  pub insert-NodupKeys : (k : K) (v : V) (d : Dict K V) → NodupKeys d → NodupKeys (insert k v d)
  unfolding insert
  insert-NodupKeys k v [] u = (lookup-nil k, tt)
  insert-NodupKeys k v ((j, w) ∷ d) u =
      ground
        (arith, u, insert-NodupKeys k v d u.1, lookup-insert k j v d, e.eqb_iff k j, e.eqb_iff j k)

  pub remove-NodupKeys : (k : K) (d : Dict K V) → NodupKeys d → NodupKeys (remove k d)
  unfolding remove
  remove-NodupKeys k [] u = tt
  remove-NodupKeys k ((j, w) ∷ d) u =
      ground (arith, u, remove-NodupKeys k d u.1, lookup-remove k j d)

pub ruleset dict_laws = (lookup-nil, lookup-insert, lookup-remove)

module _ {ℓ κ} {K : Type ℓ} {V : Type κ} ⦃e : Eq K⦄ where
  -- A key is listed exactly if it has a value.
  pub contains-keys : (k : K) (d : Dict K V) → contains k (keys d) ≡ contains_key k d
  unfolding lookup contains
  contains-keys k [] = refl
  contains-keys k ((j, v) ∷ d) = ground (arith, contains-keys k d)

module _ {ℓ} {K : Type ℓ} ⦃e : Eq K⦄ where
  pub contains-keep_if :
      (p : K → Bool) (k : K) (ks : List K) → contains k (keep_if p ks) ≡ (contains k ks && p k)
  unfolding contains keep_if
  contains-keep_if p k [] = refl
  contains-keep_if p k (j ∷ ks) = ground (arith, contains-keep_if p k ks, e.eqb_iff j k)

module _ {ℓ κ} {K : Type ℓ} {V : Type κ} ⦃e : Eq K⦄ where
  pub lookup-extend :
      (k : K) (d more : Dict K V)
      → NodupKeys more
      → lookup k (extend d more) ≡ elim (lookup k more) [ none ↦ lookup k d | some v ↦ some v ]
  unfolding extend
  lookup-extend k d [] u = rw lookup-nil
  lookup-extend k d ((j, v) ∷ more) u = ground (
    arith,
    u.0,
    lookup-extend k (insert j v d) more u.1,
    lookup-insert j k v d,
    lookup-cons k j v more,
    e.eqb_iff j k,
  )
