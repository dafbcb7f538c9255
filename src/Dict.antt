-- ===== src/Dict.antt =====
-- `std::map<std::string, V>`: the entries in the order of their keys, byte by byte.
use rabbit_server.Prelude.{
  ◌≡◌, refl, Bool, true, false, Option, none, some, List, [], ◌∷◌, inl, inr, arith, ltb, ◌==◌,
  if◌then◌else◌, Bool-cases, Bytes, equal, equal_iff,
}

-- `std::string::operator<`.
unfoldable pub less : Bytes → Bytes → Bool
less [] [] = false
less [] (y ∷ ys) = true
less (x ∷ xs) [] = false
less (x ∷ xs) (y ∷ ys) = if x == y then less xs ys else ltb x y

abbrev pub Dict {ℓ} : Type ℓ → Type ℓ
Dict V = List (Bytes × V)

-- `m[k] = v`.
unfoldable pub insert {ℓ} : {V : Type ℓ} → Bytes → V → Dict V → Dict V
insert k v [] = (k, v) ∷ []
insert k v ((j, w) ∷ m) =
    if equal j k
    then (k, v) ∷ m
    else if less k j
    then (k, v) ∷ (j, w) ∷ m
    else (j, w) ∷ insert k v m

-- `m.find(k)`.
unfoldable pub lookup {ℓ} : {V : Type ℓ} → Bytes → Dict V → Option V
lookup k [] = none
lookup k ((j, w) ∷ m) = if equal j k then some w else lookup k m

pub lookup-insert {ℓ} :
    {V : Type ℓ} (k j : Bytes) (v : V) (m : Dict V)
    → lookup j (insert k v m) ≡ (if equal k j then some v else lookup j m)
unfolding lookup insert
lookup-insert k j v [] = refl
lookup-insert k j v ((i, w) ∷ m) =
    ground (arith, equal_iff i k, equal_iff i j, equal_iff k j, lookup-insert k j v m)

-- `m.erase(m.find(k))`: a key stands in one entry at most.
unfoldable pub erase {ℓ} : {V : Type ℓ} → Bytes → Dict V → Dict V
erase k [] = []
erase k ((j, w) ∷ m) = if equal j k then erase k m else (j, w) ∷ erase k m

pub lookup-erase {ℓ} :
    {V : Type ℓ} (k j : Bytes) (m : Dict V)
    → lookup j (erase k m) ≡ (if equal k j then none else lookup j m)
unfolding lookup erase
lookup-erase k j [] = ground arith
lookup-erase k j ((i, w) ∷ m) =
    ground (arith, equal_iff i k, equal_iff i j, equal_iff k j, lookup-erase k j m)

-- The keys rise strictly, from a bound on.
abbrev pub Above {ℓ} : {V : Type ℓ} → Bytes → Dict V → Type 0
Above b [] = Unit {0}
Above b ((j, w) ∷ m) = (less b j ≡ true) × Above j m

abbrev pub IsSorted {ℓ} : {V : Type ℓ} → Dict V → Type 0
IsSorted [] = Unit {0}
IsSorted ((j, w) ∷ m) = Above j m

less_total : (x y : Bytes) → equal x y ≡ false → less x y ≡ false → less y x ≡ true
unfolding less equal
less_total [] [] e h = cc
less_total [] (y ∷ ys) e h = cc
less_total (x ∷ xs) [] e h = refl
less_total (x ∷ xs) (y ∷ ys) e h = ground (arith, less_total xs ys)

insert-Above {ℓ} :
    {V : Type ℓ} (b k : Bytes) (v : V) (m : Dict V)
    → less b k ≡ true
    → Above b m
    → Above b (insert k v m)
unfolding insert
insert-Above b k v [] h a = (h, tt)
insert-Above b k v ((j, w) ∷ m) h a = elim (Bool-cases (equal j k)) [
  | inl same ↦ rw same (h, rw ((equal_iff j k).0 same) at a.1)
  | inr other ↦ rw other (elim (Bool-cases (less k j)) [
    | inl before ↦ rw before (h, (before, a.1))
    | inr behind ↦ rw behind (
      a.0,
      insert-Above j k v m (less_total k j (ground (arith, equal_iff j k, equal_iff k j)) behind)
          a.1,
    )
  ])
]

pub insert-IsSorted {ℓ} :
    {V : Type ℓ} (k : Bytes) (v : V) (m : Dict V) → IsSorted m → IsSorted (insert k v m)
unfolding insert
insert-IsSorted k v [] s = tt
insert-IsSorted k v ((j, w) ∷ m) s = elim (Bool-cases (equal j k)) [
  | inl same ↦ rw same (rw ((equal_iff j k).0 same) at s)
  | inr other ↦ rw other (elim (Bool-cases (less k j)) [
    | inl before ↦ rw before (before, s)
    | inr behind ↦ rw behind (
        insert-Above j k v m (less_total k j (ground (arith, equal_iff j k, equal_iff k j)) behind)
          s)
  ])
]
