-- ===== src/Jhash/Words.antt =====
-- Words are hashed like their bytes.
use subvol.Prelude.{ℕ, ◌+◌, ◌*◌, ◌/◌, ◌%◌, ◌^◌, ◌<◌, ◌≡◌, refl, List, [], ◌∷◌, length, arith}
use subvol.Jhash.{
  State, add32, from_bytes, jhash_rest, jhash_loop, jhash, jhash2_loop, jhash2, jhash_final,
  jhash_nwords, jhash_3words, jhash_2words, jhash_1word,
}

-- The bytes of words in memory
abbrev pub bytes_of : List ℕ → List ℕ
bytes_of [] = []
bytes_of (w ∷ ws) = w % 2 ^ 8 ∷ w / 2 ^ 8 % 2 ^ 8 ∷ w / 2 ^ 16 % 2 ^ 8 ∷ w / 2 ^ 24 ∷ bytes_of ws

abbrev pub EachWord : List ℕ → Type 0
EachWord [] = Unit
EachWord (w ∷ ws) = (w < 2 ^ 32) × EachWord ws

from-bytes :
    (w : ℕ)
    → w < 2 ^ 32
    → from_bytes (w % 2 ^ 8) (w / 2 ^ 8 % 2 ^ 8) (w / 2 ^ 16 % 2 ^ 8) (w / 2 ^ 24) ≡ w
from-bytes w h = omega arith

-- The four bytes of a word, added one by one
add_bytes :
    (v w : ℕ)
    → w < 2 ^ 32
    → add32
        (add32
          (add32 (add32 v (w / 2 ^ 24 * 2 ^ 24 % 2 ^ 32)) (w / 2 ^ 16 % 2 ^ 8 * 2 ^ 16 % 2 ^ 32))
          (w / 2 ^ 8 % 2 ^ 8 * 2 ^ 8 % 2 ^ 32))
        (w % 2 ^ 8 * 2 ^ 0 % 2 ^ 32)
      ≡ add32 v w
add_bytes v w h = omega arith

loops : (ws : List ℕ) (s : State) → EachWord ws → jhash_loop (bytes_of ws) s ≡ jhash2_loop ws s
unfolding jhash_loop jhash2_loop jhash_rest
loops (x ∷ y ∷ z ∷ next ∷ ws) (a, b, c) (hx, (hy, (hz, h))) =
    rw (from-bytes x hx, from-bytes y hy, from-bytes z hz) (loops (next ∷ ws) _ h)
loops (x ∷ y ∷ z ∷ []) (a, b, c) (hx, (hy, (hz, h))) =
    rw (add_bytes a x hx, add_bytes b y hy, add_bytes c z hz) refl
loops (x ∷ y ∷ []) (a, b, c) (hx, (hy, h)) = rw (add_bytes a x hx, add_bytes b y hy) refl
loops (x ∷ []) (a, b, c) (hx, h) = rw (add_bytes a x hx) refl
loops [] (a, b, c) h = refl

final_same :
    {a a' b b' c c' : ℕ}
    → a ≡ a'
    → b ≡ b'
    → c ≡ c'
    → (jhash_final (a, b, c)).2 ≡ (jhash_final (a', b', c')).2
final_same p q r = λ i. (jhash_final (p i, q i, r i)).2

-- The hashes of one, two and three words are `jhash2` of them.
pub words-jhash2 :
    (a b c initval : ℕ)
    → (jhash_3words a b c initval ≡ jhash2 (a ∷ b ∷ c ∷ []) initval)
      × (jhash_2words a b initval ≡ jhash2 (a ∷ b ∷ []) initval)
      × (jhash_1word a initval ≡ jhash2 (a ∷ []) initval)
unfolding jhash_3words jhash_2words jhash_1word jhash_nwords jhash2 jhash2_loop
words-jhash2 a b c initval = (
  final_same (omega arith) (omega arith) (omega arith),
  final_same (omega arith) (omega arith) (omega arith),
  final_same (omega arith) (omega arith) (omega arith),
)

length-bytes_of : (ws : List ℕ) → length (bytes_of ws) ≡ length ws * 4
length-bytes_of [] = refl
length-bytes_of (w ∷ ws) = omega (arith, length-bytes_of ws)

-- Hashing words of 32 bits with `jhash2` is hashing their bytes with `jhash`.
pub jhash-bytes_of :
    (ws : List ℕ) (initval : ℕ) → EachWord ws → jhash (bytes_of ws) initval ≡ jhash2 ws initval
unfolding jhash jhash2
jhash-bytes_of ws initval h =
    let same : (0xdeadbeef + length ws * 4 % 2 ^ 32) % 2 ^ 32
        ≡ (0xdeadbeef + length ws * 4) % 2 ^ 32 =
      omega arith in
    rw (length-bytes_of ws, same) (loops ws _ h)
