-- ===== src/Server/Reorder/Pending.antt =====
-- internal/server/server.go: the map of packets that wait for their turn.
use t2d.Base.{
  ℕ, ◌≤◌, ◌<◌, ◌≡◌, ◌≢◌, refl, ap₂, subst, ◌⊎◌, List, [], ◌∷◌, none, some, arith, length, All,
  Bool-cases, Option-cases, inl, inr, ◌==◌, min,
}
use t2d.Base.Maps.{load, erase}
use t2d.Server.Reorder.{PendingMap, min_seq}

module _ {κ} (P : ℕ × List ℕ → Type κ) where
  pub All-erase : (k : ℕ) (m : PendingMap) → All P m → All P (erase k m)
  unfolding erase
  All-erase k [] h = tt
  All-erase k ((j, p) ∷ m) h = elim (Bool-cases (j == k)) [
    | inl hit ↦ rw (hit, erase) (All-erase k m h.1)
    | inr miss ↦ rw (miss, erase) (h.0, All-erase k m h.1)
  ]

  pub All-load : (k : ℕ) (m : PendingMap) {p : List ℕ} → All P m → load k m ≡ some p → P (k, p)
  unfolding load
  All-load k [] h e = cc
  All-load k ((j, q) ∷ m) {p} h e = elim (Bool-cases (j == k)) [
    | inl hit ↦
        let same_key : j ≡ k = ground arith in
        let same_payload : q ≡ p = ground arith in
        subst P (ap₂ (λ (a : ℕ) (b : List ℕ). (a, b)) same_key same_payload) h.0
    | inr miss ↦ All-load k m h.1 (rw miss at e)
  ]

pub erase-ne : (k : ℕ) (m : PendingMap) → All (λ e. e.0 ≢ k) (erase k m)
unfolding erase
erase-ne k [] = tt
erase-ne k ((j, p) ∷ m) = elim (Bool-cases (j == k)) [
  | inl hit ↦ rw (hit, erase) (erase-ne k m)
  | inr miss ↦ rw (miss, erase) (λ e. ground arith, erase-ne k m)
]

pub load-none : (k : ℕ) (m : PendingMap) → load k m ≡ none → All (λ e. e.0 ≢ k) m
unfolding load
load-none k [] e = tt
load-none k ((j, p) ∷ m) e = (λ q. ground arith, load-none k m (ground arith))

pub length-erase_le : (k : ℕ) (m : PendingMap) → length (erase k m) ≤ length m
unfolding erase
length-erase_le k [] = omega arith
length-erase_le k ((j, p) ∷ m) = ground (arith, length-erase_le k m)

pub length-erase-found :
    (k : ℕ) (m : PendingMap) {p : List ℕ} → load k m ≡ some p → length (erase k m) < length m
unfolding load erase
length-erase-found k [] e = cc
length-erase-found k ((j, q) ∷ m) {p} e =
    ground (arith, length-erase_le k m, length-erase-found k m {p = p})

pub min_seq-none : (m : PendingMap) → min_seq m ≡ none → m ≡ []
unfolding min_seq
min_seq-none [] e = refl
min_seq-none ((j, p) ∷ m) e = ground arith

no_min : {k : ℕ} → min_seq [] ≡ some k → ⊥
unfolding min_seq
no_min e = cc

-- The least key of a map with one entry more.
min_seq-cons :
    (j : ℕ) (p : List ℕ) (m : PendingMap) {k : ℕ}
    → min_seq ((j, p) ∷ m) ≡ some k
    → ((min_seq m ≡ none) × (k ≡ j)) ⊎ ((i : ℕ) × (min_seq m ≡ some i) × (k ≡ min j i))
unfolding min_seq
min_seq-cons j p m e = elim (Option-cases (min_seq m)) [
  | inl nothing ↦ inl (nothing, ground arith)
  | inr (i, found) ↦ inr (i, found, ground arith)
]

All-ge_trans : (a b : ℕ) (m : PendingMap) → a ≤ b → All (λ e. b ≤ e.0) m → All (λ e. a ≤ e.0) m
All-ge_trans a b [] h v = tt
All-ge_trans a b (x ∷ m) h v = (omega arith, All-ge_trans a b m h v.1)

pub min_seq-le : (m : PendingMap) {k : ℕ} → min_seq m ≡ some k → All (λ e. k ≤ e.0) m
min_seq-le [] e = tt
min_seq-le ((j, p) ∷ m) {k} e = elim (min_seq-cons j p m e) [
  | inl (nothing, only) ↦ (omega arith, rw (min_seq-none m nothing) tt)
  | inr (i, found, least) ↦ (omega arith, All-ge_trans k i m (omega arith) (min_seq-le m found))
]

pub min_seq-load :
    (m : PendingMap) {k : ℕ} → min_seq m ≡ some k → (p : List ℕ) × (load k m ≡ some p)
unfolding load
min_seq-load [] e = absurd (no_min e)
min_seq-load ((j, p) ∷ m) {k} e = elim (Bool-cases (j == k)) [
  | inl hit ↦ (p, rw hit)
  | inr miss ↦ elim (min_seq-cons j p m e) [
    | inl (nothing, only) ↦ absurd (ground arith)
    | inr (i, found, least) ↦
        let (q, there) = min_seq-load m found in
        let same : i ≡ k = ground arith in
        (q, rw miss (subst (λ (n : ℕ). load n m ≡ some q) same there))
  ]
]
