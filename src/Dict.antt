-- ===== src/Dict.antt =====
-- Python's `dict`, in insertion order, over keys with `==`.
use domain_watcher.Prelude.{
  Bool, true, false, ◌||◌, ◌≡◌, refl, Option, none, some, List, [], ◌∷◌, map, arith, if◌then◌else◌,
  Eq, ◌==◌, eq_iff, eq_refl, is_some,
}

abbrev pub Dict {ℓ κ} : Type ℓ → Type κ → Type (ℓ ⊔ κ)
Dict K V = List (K × V)

module _ {ℓ κ} {K : Type ℓ} {V : Type κ} where
  abbrev pub keys : Dict K V → List K
  keys = map (λ e. e.0)

  abbrev pub values : Dict K V → List V
  values = map (λ e. e.1)

contains_if {ℓ} :
    {A : Type ℓ} (b : Bool) (a : A) (o : Option A)
    → is_some (if b then some a else o) ≡ (b || is_some o)
contains_if true a o = refl
contains_if false a o = refl

module _ {ℓ κ} {K : Type ℓ} {V : Type κ} ⦃e : Eq K⦄ where
  -- `d.get(k)`
  unfoldable pub get : Dict K V → K → Option V
  get [] k = none
  get ((j, v) ∷ d) k = if j == k then some v else get d k

  -- `k in d`
  abbrev pub contains : Dict K V → K → Bool
  contains d k = is_some (get d k)

  -- `d[k] = v`: a key that is there keeps its place
  unfoldable pub insert : Dict K V → K → V → Dict K V
  insert [] k v = (k, v) ∷ []
  insert ((j, w) ∷ d) k v = if j == k then (j, v) ∷ d else (j, w) ∷ insert d k v

  -- `d.pop(k, None)`
  unfoldable pub remove : Dict K V → K → Dict K V
  remove [] k = []
  remove ((j, w) ∷ d) k = let rest = remove d k in if j == k then rest else (j, w) ∷ rest

  pub get-insert :
      (d : Dict K V) (k j : K) (v : V) → get (insert d k v) j ≡ (if k == j then some v else get d j)
  unfolding get insert
  get-insert [] k j v = refl
  get-insert ((i, w) ∷ d) k j v =
      ground (arith, get-insert d k j v, eq_iff i k, eq_iff i j, eq_iff k j)

  pub get-remove :
      (d : Dict K V) (k j : K) → get (remove d k) j ≡ (if k == j then none else get d j)
  unfolding get remove
  get-remove [] k j = ground arith
  get-remove ((i, w) ∷ d) k j = ground (arith, get-remove d k j, eq_iff i k, eq_iff i j, eq_iff k j)

  pub get-insert_self : (d : Dict K V) (k : K) (v : V) → get (insert d k v) k ≡ some v
  get-insert_self d k v = ground (arith, get-insert d k k v, eq_refl k)

  pub contains-insert :
      (d : Dict K V) (k j : K) (v : V) → contains (insert d k v) j ≡ ((k == j) || contains d j)
  contains-insert d k j v = rw (get-insert d k j v) (contains_if (k == j) v (get d j))

  -- No key twice, as in every Python dict.
  abbrev pub IsDict : Dict K V → Type κ
  IsDict [] = Unit
  IsDict ((k, v) ∷ d) = (get d k ≡ none) × IsDict d

  pub insert-IsDict : (d : Dict K V) (k : K) (v : V) → IsDict d → IsDict (insert d k v)
  unfolding insert get
  insert-IsDict [] k v h = (refl, tt)
  insert-IsDict ((i, w) ∷ d) k v h =
      ground (arith, insert-IsDict d k v h.1, get-insert d k i v, eq_iff i k, eq_iff k i)

  pub remove-IsDict : (d : Dict K V) (k : K) → IsDict d → IsDict (remove d k)
  unfolding remove
  remove-IsDict [] k h = tt
  remove-IsDict ((i, w) ∷ d) k h =
      ground (arith, remove-IsDict d k h.1, get-remove d k i, eq_iff k i)

pub get-nil {ℓ κ} : {K : Type ℓ} {V : Type κ} ⦃e : Eq K⦄ (k : K) → get {V = V} [] k ≡ none
unfolding get
get-nil k = refl

pub ruleset dict_laws = (get-nil, get-insert, get-remove)
