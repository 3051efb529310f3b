-- ===== src/Kernel/Registry/Room.antt =====
-- The measure under which a resolution ends: the entries that are not being visited
-- (crates/kernel/src/registry.rs).
use masonwing.Prelude.{
  ℕ, suc, ◌≤◌, ◌<◌, ◌≡◌, false, ◌||◌, some, List, [], ◌∷◌, ◌++◌, arith, length, map_get, contains,
  contains-append, contains-singleton, if◌then◌else◌, Text, text_eq, text_eq_iff,
}

pub free : List Text → List (Text × List Text) → ℕ
free visiting [] = 0
free visiting ((key, deps) ∷ rest) =
    let n = free visiting rest in if contains visiting key then n else suc n

pub free-le-length :
    (visiting : List Text) (entries : List (Text × List Text))
    → free visiting entries ≤ length entries
unfolding free
free-le-length visiting [] = omega arith
free-le-length visiting ((key, deps) ∷ rest) = ground (arith, free-le-length visiting rest)

module _ (visiting : List Text) (p : Text) where
  contains-concat :
      (a : Text) → contains (visiting ++ p ∷ []) a ≡ (contains visiting a || text_eq p a)
  contains-concat a = rw (contains-append, contains-singleton)

  free_enter_le :
      (entries : List (Text × List Text))
      → free (visiting ++ p ∷ []) entries ≤ free visiting entries
  unfolding free
  free_enter_le [] = omega arith
  free_enter_le ((key, deps) ∷ rest) = ground (arith, contains-concat key, free_enter_le rest)

  -- To enter a plugin that has an entry and is not being visited uses up one entry.
  pub free_enter :
      (entries : List (Text × List Text)) (deps : List Text)
      → map_get p entries ≡ some deps
      → contains visiting p ≡ false
      → free (visiting ++ p ∷ []) entries < free visiting entries
  unfolding free map_get
  free_enter [] deps e out = cc
  free_enter ((key, found) ∷ rest) deps e out = ground (
    arith,
    contains-concat key,
    text_eq_iff key p,
    text_eq_iff p key,
    free_enter_le rest,
    free_enter rest deps,
  )
