-- ===== src/Container/Keys.antt =====
-- Maps of containers, looked up by name.
use krustlet.Container.{
  ContainerMap, ContainerKey, init, app, get_mut_by_name, contains_key_name, key_eq,
}
use krustlet.Prelude.{
  String, true, false, none, some, ◌≡◌, ◌⊎◌, inl, inr, Option-cases, arith, refl,
}
use krustlet.Prelude.Dict.{lookup}

module _ {V : Type 0} where
  -- What a lookup by name may find: the app container of that name, or the init container where there
  -- is no such app container.
  abbrev pub IsNamed : String → ContainerMap V → ContainerKey → V → Type 0
  IsNamed name m (app n) v = (n ≡ name) × (lookup (app name) m ≡ some v)
  IsNamed name m (init n) v =
      (n ≡ name) × (lookup (app name) m ≡ none) × (lookup (init name) m ≡ some v)

  -- A map has a name exactly if the lookup by that name finds a value: the app container's, and the
  -- init container's only where no app container has the name.
  pub get_mut_by_name-IsNamed :
      (name : String) (m : ContainerMap V)
      → ((contains_key_name name m ≡ false) × (get_mut_by_name name m ≡ none))
        ⊎ ((contains_key_name name m ≡ true)
            × ((k : ContainerKey) × (v : V) × (get_mut_by_name name m ≡ some (k, v))
                × IsNamed name m k v))
  unfolding get_mut_by_name contains_key_name
  get_mut_by_name-IsNamed name m = elim (Option-cases (lookup (app name) m)) [
    | inr (v, a) ↦ inr (ground (arith, a), (app name, v, ground (arith, a), (refl, a)))
    | inl a ↦ elim (Option-cases (lookup (init name) m)) [
      | inr (v, i) ↦ inr (ground (arith, a, i), (init name, v, ground (arith, a, i), (refl, a, i)))
      | inl i ↦ inl (ground (arith, a, i), ground (arith, a, i))
    ]
  ]
