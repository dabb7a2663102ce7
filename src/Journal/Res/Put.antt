-- ===== src/Journal/Res/Put.antt =====
-- Putting a reservation.
use subvol.Prelude.{
  subst, ℕ, zero, suc, ◌+◌, ◌-◌, ◌*◌, ◌%◌, ◌^◌, ◌≤◌, ◌<◌, ◌≡◌, ◌≢◌, inl, inr, refl, sym, ap, ◌∙◌,
  Bool, true, false, List, [], ◌∷◌, length, get_or, set, ltb, leb, ◌==◌, ◌&&◌, if◌then◌else◌, arith,
  Bool-cases, ==_iff, ==→ne, length-set, get_or-set_self, get_or-set_ne,
}
use subvol.Prelude.Run.{Run, ok, panic, ◌>>=◌}
use subvol.Journal.Res.{
  Journal, JournalRes, JournalBuf, no_buf, journal_state_count, journal_state_dec, write_word,
  bch2_journal_add_entry, fill, release, bch2_journal_res_put,
}
use subvol.Journal.Res.Fields.{Recounted, dec_count}

set-set {ℓ} : {A : Type ℓ} (xs : List A) (i : ℕ) (x y : A) → set (set xs i x) i y ≡ set xs i y
set-set [] i x y = refl
set-set (z ∷ xs) zero x y = refl
set-set {A = A} (z ∷ xs) (suc i) x y = ap (λ (t : List A). z ∷ t) (set-set xs i x y)

set-get_or {ℓ} : {A : Type ℓ} (xs : List A) (i : ℕ) (d : A) → set xs i (get_or xs i d) ≡ xs
set-get_or [] i d = refl
set-get_or (z ∷ xs) zero d = refl
set-get_or {A = A} (z ∷ xs) (suc i) d = ap (λ (t : List A). z ∷ t) (set-get_or xs i d)

if_true {ℓ} : {A : Type ℓ} (b : Bool) (x y : A) → b ≡ true → (if b then x else y) ≡ x
if_true b x y e = rw e refl

-- The words with `n` of them, from `offset` on, 0
abbrev zeroed : ℕ → ℕ → List ℕ → List ℕ
zeroed zero offset words = words
zeroed (suc n) offset words = zeroed n (offset + 1) (set words offset 0)

length-zeroed : (n offset : ℕ) (words : List ℕ) → length (zeroed n offset words) ≡ length words
length-zeroed zero offset words = refl
length-zeroed (suc n) offset words =
    length-zeroed n (offset + 1) (set words offset 0) ∙ length-set words offset 0

get_or-zeroed :
    (n offset : ℕ) (words : List ℕ) (k : ℕ)
    → offset + n ≤ length words
    → get_or (zeroed n offset words) k 0
      ≡ (if leb offset k && ltb k (offset + n) then 0 else get_or words k 0)
get_or-zeroed zero offset words k h =
    let e : (leb offset k && ltb k (offset + 0)) ≡ false = ground arith in rw e refl
get_or-zeroed (suc n) offset words k h =
    let ih =
      get_or-zeroed n (offset + 1) (set words offset 0) k
        (omega (arith, length-set words offset 0)) in
    elim (Bool-cases (offset == k)) [
      | inl here ↦
          let e : offset ≡ k = (==_iff _ _).0 here in
          let at_k = get_or-set_self words offset 0 0 (omega arith) in
          let at_k' : get_or (set words offset 0) k 0 ≡ 0 =
            subst (λ x. get_or (set words offset 0) x 0 ≡ 0) e at_k in
          let before : (leb (offset + 1) k && ltb k (offset + 1 + n)) ≡ false = ground arith in
          let inside : (leb offset k && ltb k (offset + suc n)) ≡ true = ground arith in
          rw inside (ih ∙ rw before at_k')
      | inr other ↦
          let same = get_or-set_ne words offset k 0 0 (==→ne _ _ other) in
          let tests : (leb (offset + 1) k && ltb k (offset + 1 + n))
              ≡ (leb offset k && ltb k (offset + suc n)) =
            ground arith in
          ih ∙ rw (tests, same) refl
    ]

-- The journal with other words in a buffer
abbrev with_words : Journal → ℕ → JournalBuf → List ℕ → Journal
with_words j idx buf words = record j { ring = set j.ring idx (record buf { data_ = words }) }

write_word_lem :
    (j : Journal) (buf : JournalBuf) (words : List ℕ) (res : JournalRes) (word : ℕ)
    → res.seq % 4 < length j.ring
    → res.offset < length words
    → write_word (with_words j (res.seq % 4) buf words) res word
      ≡ ok (with_words j (res.seq % 4) buf (set words res.offset word))
unfolding write_word
write_word_lem j buf words res word there inside =
    let idx = res.seq % 4 in
    let b : JournalBuf = record buf { data_ = words } in
    let own : get_or (set j.ring idx b) idx no_buf ≡ b =
      get_or-set_self j.ring idx b no_buf there in
    let fits : ltb res.offset (length words) ≡ true = ground arith in
    subst
      (λ (c : JournalBuf).
        (if ltb res.offset (length c.data_)
          then ok (record j {
            ring = set (set j.ring idx b) idx (record c { data_ = set c.data_ res.offset word });
          })
          else panic)
        ≡ ok (with_words j idx buf (set words res.offset word)))
      (sym own)
      (if_true (ltb res.offset (length words)) _ _ fits
        ∙ ap (λ (r : List JournalBuf). ok (record j { ring = r })) (set-set j.ring idx b _))

-- The loop of a put
fill_lem :
    (n : ℕ) (j : Journal) (buf : JournalBuf) (words : List ℕ) (res : JournalRes)
    → res.ref_ ≡ true
    → res.u64s ≡ n
    → res.offset + n < 2 ^ 32
    → res.seq % 4 < length j.ring
    → res.offset + n ≤ length words
    → fill n (with_words j (res.seq % 4) buf words) res
      ≡ ok (
        with_words j (res.seq % 4) buf (zeroed n res.offset words),
        record res { offset = res.offset + n; u64s = 0 },
      )
unfolding fill bch2_journal_add_entry
fill_lem zero j buf words res held left small there inside =
    let e : res.offset ≡ res.offset + 0 = omega arith in
    let whole : res ≡ record res { offset = res.offset + 0; u64s = 0 } =
      λ i. record res { offset = e i; u64s = left i } in
    ap (λ (r : JournalRes). ok (with_words j (res.seq % 4) buf words, r)) whole
fill_lem (suc n) j buf words res held left small there inside =
    let few : ltb res.u64s 1 ≡ false = ground (arith, left) in
    let fits : leb (2 ^ 32) (res.offset + 1) ≡ false = ground arith in
    let next : JournalRes = record res { offset = res.offset + 1; u64s = res.u64s - 1 } in
    let words₁ = set words res.offset 0 in
    let written = write_word_lem j buf words res 0 there (omega arith) in
    let j₁ = with_words j (res.seq % 4) buf words₁ in
    let added : bch2_journal_add_entry (with_words j (res.seq % 4) buf words) res 0 0 0 0
        ≡ ok (j₁, next) =
      simp (held, few, fits, written) refl in
    let rest =
      fill_lem n j buf words₁ next held (omega arith) (omega arith) there
        (omega (arith, length-set words res.offset 0)) in
    let end : res.offset + 1 + n ≡ res.offset + suc n = omega arith in
    ap (λ (r : Run (Journal × JournalRes)). r >>= λ s. fill n s.0 s.1) added
    ∙ rest
    ∙ ap
        (λ (e : ℕ). ok (
          with_words j (res.seq % 4) buf (zeroed n (res.offset + 1) words₁),
          record res { offset = e; u64s = 0 },
        ))
        end

release_lem :
    (j : Journal) (res : JournalRes)
    → (journal_state_count j.reservations (res.seq % 4) == 0) ≡ false
    → release (j, res)
      ≡ ok (
        record j { reservations = j.reservations - 2 ^ (24 + res.seq % 4 * 10) },
        record res { ref_ = false },
      )
unfolding release journal_state_dec
release_lem j res live = rw (release, journal_state_dec, live) refl

-- Putting a held reservation of a journal with four buffers, which lies within its buffer, ends
-- below 2^32 and has a count of its buffer that is not 0, returns. It is then no longer held, has
-- no words left and stands at its end. Of the journal only the state word and the reservation's
-- buffer change: each of the words that were left is an empty entry, the word 0, the buffer's other
-- words, their number, and the buffer's sequence number and mark stay; the count of the buffer is
-- one less, and the offset, the index and the other counts of the state word stay.
pub put_lem :
    (j : Journal) (res : JournalRes)
    → length j.ring ≡ 4
    → res.ref_ ≡ true
    → res.offset + res.u64s ≤ length (get_or j.ring (res.seq % 4) no_buf).data_
    → res.offset + res.u64s < 2 ^ 32
    → journal_state_count j.reservations (res.seq % 4) ≢ 0
    → let idx = res.seq % 4 in
      let buf = get_or j.ring idx no_buf in
      (words : List ℕ) × (v' : ℕ) × (bch2_journal_res_put j res
        ≡ ok (
          record j { reservations = v'; ring = set j.ring idx (record buf { data_ = words }) },
          record res { ref_ = false; u64s = 0; offset = res.offset + res.u64s },
        ))
      × (length words ≡ length buf.data_)
      × ((k : ℕ)
          → get_or words k 0 ≡ (
              if leb res.offset k && ltb k (res.offset + res.u64s)
              then 0
              else get_or buf.data_ k 0))
      × Recounted j.reservations idx (journal_state_count j.reservations idx - 1) v'
unfolding bch2_journal_res_put
put_lem j res four held inside small counted =
    let idx = res.seq % 4 in
    let buf = get_or j.ring idx no_buf in
    let n = res.u64s in
    let v = j.reservations in
    let words = zeroed n res.offset buf.data_ in
    let live : (journal_state_count v idx == 0) ≡ false = ground (arith, counted) in
    let whole : with_words j idx buf buf.data_ ≡ j =
      ap (λ (r : List JournalBuf). record j { ring = r }) (set-get_or j.ring idx no_buf) in
    let filled = fill_lem n j buf buf.data_ res held refl small (omega arith) inside in
    let end : JournalRes = record res { offset = res.offset + n; u64s = 0 } in
    let filled' : fill n j res ≡ ok (with_words j idx buf words, end) =
      subst (λ (j₀ : Journal). fill n j₀ res ≡ ok (with_words j idx buf words, end)) whole filled in
    (
      words,
      v - 2 ^ (24 + idx * 10),
      if_true res.ref_ _ _ held
          ∙ ap (λ (r : Run (Journal × JournalRes)). r >>= release) filled'
          ∙ release_lem (with_words j idx buf words) end live,
      length-zeroed n res.offset buf.data_,
      λ k. get_or-zeroed n res.offset buf.data_ k inside,
      dec_count v idx (omega arith) counted,
    )
