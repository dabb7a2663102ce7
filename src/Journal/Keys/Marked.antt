-- ===== src/Journal/Keys/Marked.antt =====
-- Changing one key of the array: the places stay, and the map changes at one place.
use subvol.Prelude.{
  ℕ, zero, suc, ◌+◌, ◌<◌, ◌≤◌, ◌≡◌, ◌≢◌, ◌⊎◌, inl, inr, refl, sym, ap, Bool, true, none, some, List,
  [], ◌∷◌, map, length, get_elem?, ◌==◌, ◌&&◌, ltb, leb, if◌then◌else◌, arith, Bool-cases,
}
use subvol.Journal.Keys.{JournalKey, with_range}
use subvol.Journal.Keys.Overwrite.{modify, mark_overwritten, set_ranges}
use subvol.Journal.Keys.Rank.{rank, EachIsKey, entry, lookup}
use subvol.Journal.Keys.Sorted.{Above, IsAscending, IsDistinct, forget}
use subvol.Journal.Keys.Slot.{lookup-at}
use subvol.Journal.Keys.Insert.{if_once, if_swap}

pub get_elem?-modify_self {ℓ} :
    {A : Type ℓ} (xs : List A) (i : ℕ) (f : A → A) (x : A)
    → get_elem? xs i ≡ some x
    → get_elem? (modify xs i f) i ≡ some (f x)
get_elem?-modify_self [] i f x e = cc e
get_elem?-modify_self (y ∷ xs) zero f x e = let same : y ≡ x = cc in rw same refl
get_elem?-modify_self (y ∷ xs) (suc i) f x e = get_elem?-modify_self xs i f x e

pub get_elem?-modify_ne {ℓ} :
    {A : Type ℓ} (xs : List A) (i j : ℕ) (f : A → A)
    → i ≢ j
    → get_elem? (modify xs i f) j ≡ get_elem? xs j
get_elem?-modify_ne [] i j f ne = refl
get_elem?-modify_ne (x ∷ xs) zero zero f ne = absurd (ne refl)
get_elem?-modify_ne (x ∷ xs) zero (suc j) f ne = refl
get_elem?-modify_ne (x ∷ xs) (suc i) zero f ne = refl
get_elem?-modify_ne (x ∷ xs) (suc i) (suc j) f ne =
    get_elem?-modify_ne xs i j f (λ e. ne (ap suc e))

pub length-modify {ℓ} :
    {A : Type ℓ} (xs : List A) (i : ℕ) (f : A → A) → length (modify xs i f) ≡ length xs
length-modify [] i f = refl
length-modify (x ∷ xs) zero f = refl
length-modify (x ∷ xs) (suc i) f = ap suc (length-modify xs i f)

pub EachIsKey-mark :
    (keys : List JournalKey) (i : ℕ) → EachIsKey keys → EachIsKey (modify keys i mark_overwritten)
EachIsKey-mark [] i h = tt
EachIsKey-mark (key ∷ keys) zero h = h
EachIsKey-mark (key ∷ keys) (suc i) (h, hs) = (h, EachIsKey-mark keys i hs)

Above-mark :
    (n : ℕ) (keys : List JournalKey) (i : ℕ)
    → Above n keys
    → Above n (modify keys i mark_overwritten)
Above-mark n [] i h = tt
Above-mark n (key ∷ keys) zero h = h
Above-mark n (key ∷ keys) (suc i) (h, hs) = (h, Above-mark n keys i hs)

pub IsAscending-mark :
    (keys : List JournalKey) (i : ℕ)
    → IsAscending keys
    → IsAscending (modify keys i mark_overwritten)
IsAscending-mark [] i h = tt
IsAscending-mark (key ∷ keys) zero h = h
IsAscending-mark (key ∷ keys) (suc i) (h, hs) =
    (Above-mark (rank key) keys i h, IsAscending-mark keys i hs)

pub lookup-mark :
    (keys : List JournalKey) (i : ℕ) (key : JournalKey) (n : ℕ)
    → IsDistinct keys
    → get_elem? keys i ≡ some key
    → lookup (modify keys i mark_overwritten) n
      ≡ (if rank key == n then some (key.allocated_k, true) else lookup keys n)
lookup-mark [] i key n d e = cc e
lookup-mark (head ∷ keys) zero key n (new, d) e =
    let same : head ≡ key = cc in
    rw (← same)
      (if_once (rank head == n) (some (head.allocated_k, true)) (some (entry head)) (lookup keys n))
lookup-mark (head ∷ keys) (suc i) key n (new, d) e =
    let there = lookup-at keys i key d e in
    let apart : rank head ≢ rank key =
      λ same. (let gone : lookup keys (rank key) ≡ none = rw (← same) new in cc) in
    rw (lookup-mark keys i key n d e) (
      if_swap (rank head) (rank key) n (some (entry head)) (some (key.allocated_k, true))
        (lookup keys n) apart)

pub forget-modify :
    (keys : List JournalKey) (i range : ℕ)
    → map forget (modify keys i (with_range range)) ≡ map forget keys
forget-modify [] i range = refl
forget-modify (key ∷ keys) zero range = refl
forget-modify (key ∷ keys) (suc i) range =
    ap (λ (ks : List JournalKey). forget key ∷ ks) (forget-modify keys i range)

pub forget-set_ranges :
    (range start end idx : ℕ) (keys : List JournalKey)
    → map forget (set_ranges range start end idx keys) ≡ map forget keys
forget-set_ranges range start end idx [] = refl
forget-set_ranges range start end idx (key ∷ keys) =
    elim (Bool-cases (leb start idx && ltb idx end)) [
      | inl inside ↦ rw inside (
          ap (λ (ks : List JournalKey). forget key ∷ ks)
            (forget-set_ranges range start end (idx + 1) keys))
      | inr outside ↦ rw outside (
          ap (λ (ks : List JournalKey). forget key ∷ ks)
            (forget-set_ranges range start end (idx + 1) keys))
    ]

-- The element of a changed list comes from one of the list.
pub modify_source {ℓ} :
    {A : Type ℓ} (xs : List A) (i j : ℕ) (f : A → A) (y : A)
    → get_elem? (modify xs i f) j ≡ some y
    → (x : A) × (get_elem? xs j ≡ some x) × ((y ≡ x) ⊎ ((i ≡ j) × (y ≡ f x)))
modify_source [] i j f y e = cc e
modify_source (x ∷ xs) zero zero f y e =
    (x, refl, inr (refl, sym (let same : f x ≡ y = cc in same)))
modify_source (x ∷ xs) zero (suc j) f y e = (y, e, inl refl)
modify_source (x ∷ xs) (suc i) zero f y e = (y, e, inl refl)
modify_source (x ∷ xs) (suc i) (suc j) f y e =
    let (source, at_, same) = modify_source xs i j f y e in
    (source, at_, elim same [ inl same ↦ inl same | inr (here, same) ↦ inr (ap suc here, same) ])

if_some {ℓ} :
    {A : Type ℓ} (b : Bool) (x y z : A)
    → some (if b then x else y) ≡ some z
    → (if b then x else y) ≡ z
if_some b x y z e = cc

pub set_ranges_source :
    (range start end idx : ℕ) (xs : List JournalKey) (j : ℕ) (y : JournalKey)
    → get_elem? (set_ranges range start end idx xs) j ≡ some y
    → (x : JournalKey) × (get_elem? xs j ≡ some x)
      × ((y ≡ x) ⊎ ((y ≡ with_range range x) × (start ≤ idx + j) × (idx + j < end)))
set_ranges_source range start end idx [] j y e = cc e
set_ranges_source range start end idx (x ∷ xs) zero y e =
    elim (Bool-cases (leb start idx && ltb idx end)) [
      | inl inside ↦
          let same : with_range range x ≡ y =
            (let whole = if_some (leb start idx && ltb idx end) (with_range range x) x y e in
              rw (← whole, inside) refl) in
          (x, refl, inr (sym same, ground (arith, inside), ground (arith, inside)))
      | inr outside ↦ (
        x,
        refl,
        inl (
            let whole = if_some (leb start idx && ltb idx end) (with_range range x) x y e in
            rw (← whole, outside) refl),
      )
    ]
set_ranges_source range start end idx (x ∷ xs) (suc j) y e =
    let (source, at_, same) = set_ranges_source range start end (idx + 1) xs j y e in
    (
      source,
      at_,
      elim same [ inl same ↦ inl same | inr (same, ge, lt) ↦ inr (same, omega arith, omega arith) ],
    )
