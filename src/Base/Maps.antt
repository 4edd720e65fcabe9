-- ===== src/Base/Maps.antt =====
-- A map with numbers as keys, as a list of entries of which the first with a key counts.
use t2d.Base.Tests.{◌==◌, if◌then◌else◌, ==_self, Bool-cases, Option-cases}
use t2d.Base.Lists.{length}
use Prim.Native.Nat.{ℕ, zero, suc, ◌+◌, ◌≤◌, ◌<◌}
use mathlib.Core.Path.{◌≡◌, refl, sym, ap, ◌∙◌}
use mathlib.Core.Logic.{◌≢◌, inl, inr}
use mathlib.Core.Option.{Option, none, some, some-ne-none}
use mathlib.Core.List.{List, [], ◌∷◌}
use native.Mathlib.Omega.{arith}

abbrev pub Map {ℓ} : Type ℓ → Type ℓ
Map A = List (ℕ × A)

unfoldable pub load {ℓ} : {A : Type ℓ} → ℕ → Map A → Option A
load k [] = none
load k ((j, a) ∷ m) = if j == k then some a else load k m

unfoldable pub erase {ℓ} : {A : Type ℓ} → ℕ → Map A → Map A
erase k [] = []
erase k ((j, a) ∷ m) = let rest = erase k m in if j == k then rest else (j, a) ∷ rest

unfoldable pub store {ℓ} : {A : Type ℓ} → ℕ → A → Map A → Map A
unfolding erase
store k a m = (k, a) ∷ erase k m

pub load-erase {ℓ} :
    {A : Type ℓ} (j k : ℕ) (m : Map A) → load j (erase k m) ≡ (if k == j then none else load j m)
unfolding load erase
load-erase j k [] = ground arith
load-erase j k ((i, a) ∷ m) = ground (arith, load-erase j k m)

pub load-store_if {ℓ} :
    {A : Type ℓ} (j k : ℕ) (a : A) (m : Map A)
    → load j (store k a m) ≡ (if k == j then some a else load j m)
unfolding load store
load-store_if j k a m = ground (arith, load-erase j k m)

pub load-store {ℓ} : {A : Type ℓ} (k : ℕ) (a : A) (m : Map A) → load k (store k a m) ≡ some a
load-store k a m = load-store_if k k a m ∙ rw (==_self k) refl

pub load-store_ne {ℓ} :
    {A : Type ℓ} (j k : ℕ) (a : A) (m : Map A) → k ≢ j → load j (store k a m) ≡ load j m
load-store_ne j k a m ne = ground (arith, load-store_if j k a m)

-- No key stands twice.
abbrev pub IsMap {ℓ} : {A : Type ℓ} → Map A → Type ℓ
IsMap [] = Unit
IsMap ((k, a) ∷ m) = (load k m ≡ none) × IsMap m

pub erase-IsMap {ℓ} : {A : Type ℓ} (k : ℕ) (m : Map A) → IsMap m → IsMap (erase k m)
unfolding erase
erase-IsMap k [] h = tt
erase-IsMap k ((j, a) ∷ m) h = elim (Bool-cases (j == k)) [
  | inl hit ↦ rw (hit, erase) (erase-IsMap k m h.1)
  | inr miss ↦ rw (miss, erase) (load-erase j k m ∙ ground (arith, h.0), erase-IsMap k m h.1)
]

pub store-IsMap {ℓ} : {A : Type ℓ} (k : ℕ) (a : A) (m : Map A) → IsMap m → IsMap (store k a m)
unfolding store
store-IsMap k a m h = (load-erase k k m ∙ rw (==_self k) refl, erase-IsMap k m h)

pub erase_absent {ℓ} : {A : Type ℓ} (k : ℕ) (m : Map A) → load k m ≡ none → erase k m ≡ m
unfolding load erase
erase_absent k [] h = refl
erase_absent k ((j, a) ∷ m) h = ground (arith, erase_absent k m)

pub length-erase {ℓ} :
    {A : Type ℓ} (k : ℕ) (m : Map A) {a : A}
    → IsMap m
    → load k m ≡ some a
    → suc (length (erase k m)) ≡ length m
unfolding load erase
length-erase k [] v h = cc
length-erase k ((j, b) ∷ m) {a} v h = elim (Bool-cases (j == k)) [
  | inl hit ↦
      let same : j ≡ k = ground arith in
      rw (hit, erase) (rw (erase_absent k m (rw same at (v.0))) refl)
  | inr miss ↦ rw (miss, erase) (ap suc (length-erase k m v.1 (rw miss at h)))
]

pub length-store_new {ℓ} :
    {A : Type ℓ} (k : ℕ) (a : A) (m : Map A)
    → load k m ≡ none
    → length (store k a m) ≡ suc (length m)
unfolding store
length-store_new k a m h = rw (erase_absent k m h) refl

-- `f` applied to the element at a place, where there is one.
unfoldable pub modify {ℓ} : {A : Type ℓ} → (A → A) → ℕ → List A → List A
modify f i [] = []
modify f zero (x ∷ xs) = f x ∷ xs
modify f (suc i) (x ∷ xs) = x ∷ modify f i xs

-- A map has at most as many entries as there are numbers for its keys.
pub length-le_range {ℓ} :
    {A : Type ℓ} (n lo : ℕ) (m : Map A)
    → IsMap m
    → ((k : ℕ) (a : A) → load k m ≡ some a → (lo ≤ k) × (k < lo + n))
    → length m ≤ n
unfolding load
length-le_range zero lo [] v within = omega arith
length-le_range zero lo ((j, a) ∷ m) v within =
    let (low, high) = within j a (rw (==_self j) refl) in absurd (omega (arith, low, high))
length-le_range (suc n) lo m v within = elim (Option-cases (load lo m)) [
  | inl absent ↦ omega (
    arith,
    length-le_range n (suc lo) m v (λ k b e.
        let ne : lo ≢ k = λ q. some-ne-none b (sym e ∙ ap (λ i. load i m) (sym q) ∙ absent) in
        let (low, high) = within k b e in omega (arith, ne)),
  )
  | inr (b, there) ↦ omega (
    arith,
    length-erase lo m v there,
    length-le_range n (suc lo) (erase lo m) (erase-IsMap lo m v) (λ k c e.
        elim (Bool-cases (lo == k)) [
          | inl hit ↦ absurd (ground (arith, load-erase k lo m, e))
          | inr miss ↦
              let (low, high) = within k c (ground (arith, load-erase k lo m, e)) in ground arith
        ]),
  )
]
