-- ===== src/Secrets/Random.antt =====
-- internal/secrets/secrets.go: `randomAlphanumeric`
use mksrv.Common.{
  ℕ, zero, suc, ◌+◌, ◌-◌, ◌%◌, ◌≤◌, ◌<◌, ◌≡◌, refl, sym, ap, ◌∙◌, inl, inr, Bool, true, ◌&&◌, ◌||◌,
  Option, none, some, [], ◌∷◌, ◌++◌, append_assoc, append-nil, arith, leb, if◌then◌else◌,
  Bool-cases, Option-cases, length, length-append, All, All-append, Text, txt,
}

pub alphabet : Text
alphabet = txt "ABCDEFGHIJKLMNOPQRSTUVWXYZabcdefghijklmnopqrstuvwxyz0123456789"

letter_at : Text → ℕ → ℕ
letter_at [] i = 0
letter_at (c ∷ s) zero = c
letter_at (c ∷ s) (suc i) = letter_at s i

-- `alphabet[b%62]`
pub letter_of : ℕ → ℕ
letter_of b = letter_at alphabet (b % 62)

-- The loop over the buffer: `room` letters are still to be drawn, and bytes from 248 on are skipped.
pub draw : ℕ → Text → Text
draw zero buf = []
draw (suc room) [] = []
draw (suc room) (b ∷ buf) =
    let (skipped, drawn) : Text × Text = (draw (suc room) buf, draw room buf) in
    if leb 248 b then skipped else letter_of b ∷ drawn

-- What `randomAlphanumeric` returns, or that it has not returned after so many reads.
pub data Drawn : Type 0 where
  drawn : Text → Drawn
  failed : Drawn
  unfinished : Drawn

module _ (read : ℕ → Option Text) where
  -- The outer loop: `read i` is what the i-th call of rand.Read fills the buffer with.
  pub fill : ℕ → ℕ → ℕ → Text → Drawn
  fill fuel i zero out = drawn out
  fill zero i (suc room) out = unfinished
  fill (suc fuel) i (suc room) out = elim (read i) [
    | none ↦ failed
    | some buf ↦
        let letters = draw (suc room) buf in
        fill fuel (suc i) (suc room - length letters) (out ++ letters)
  ]

  pub random_alphanumeric : ℕ → ℕ → Drawn
  random_alphanumeric fuel n = fill fuel 0 n []

-- A letter of the alphabet is a letter or a digit.
pub is_alphanumeric : ℕ → Bool
is_alphanumeric c =
    (leb b'A' c && leb c b'Z') || (leb b'a' c && leb c b'z') || (leb b'0' c && leb c b'9')

-- The bytes of a buffer that are not skipped.
unfoldable pub usable : Text → ℕ
usable [] = 0
usable (b ∷ buf) = let rest = usable buf in if leb 248 b then rest else suc rest

-- The usable bytes of the reads from the i-th on, over so many reads that succeed.
unfoldable pub usable_in : (ℕ → Option Text) → ℕ → ℕ → ℕ
usable_in read i zero = 0
usable_in read i (suc reads) = elim (read i) [
  | none ↦ 0
  | some buf ↦ usable buf + usable_in read (suc i) reads
]

letter_at-All : (P : ℕ → Type 0) (s : Text) (i : ℕ) → All P s → i < length s → P (letter_at s i)
unfolding letter_at
letter_at-All P [] i h lt = absurd (omega (arith, lt))
letter_at-All P (c ∷ s) zero h lt = h.0
letter_at-All P (c ∷ s) (suc i) h lt = letter_at-All P s i h.1 (omega (arith, lt))

all_of : (ℕ → Bool) → Text → Bool
all_of p [] = true
all_of p (c ∷ s) = p c && all_of p s

all_of-All : (p : ℕ → Bool) (s : Text) → all_of p s ≡ true → All (λ c. p c ≡ true) s
unfolding all_of
all_of-All p [] h = tt
all_of-All p (c ∷ s) h = (ground arith, all_of-All p s (ground arith))

alphabet_lem : (all_of is_alphanumeric alphabet ≡ true) × (length alphabet ≡ 62)
unfolding alphabet is_alphanumeric all_of txt
alphabet_lem = (refl, refl)

letter_of_lem : (b : ℕ) → is_alphanumeric (letter_of b) ≡ true
unfolding letter_of
letter_of_lem b =
    letter_at-All (λ c. is_alphanumeric c ≡ true) alphabet (b % 62)
      (all_of-All is_alphanumeric alphabet alphabet_lem.0) (omega (arith, alphabet_lem.1))

-- The letters that one buffer gives: as many as there are usable bytes, up to the room for them.
record IsDraw (room used : ℕ) (letters : Text) : Type 0 where
  alphanumeric : All (λ c. is_alphanumeric c ≡ true) letters
  fits : length letters ≤ room
  all_used : used ≤ room → length letters ≡ used
  filled : room ≤ used → length letters ≡ room

draw-IsDraw : (room : ℕ) (buf : Text) → IsDraw room (usable buf) (draw room buf)
unfolding draw usable
draw-IsDraw zero buf = record {
  alphanumeric = tt;
  fits = omega arith;
  all_used = λ h. omega (arith, h);
  filled = λ h. omega arith;
}
draw-IsDraw (suc room) [] = record {
  alphanumeric = tt;
  fits = omega arith;
  all_used = λ h. omega arith;
  filled = λ h. omega (arith, h);
}
draw-IsDraw (suc room) (b ∷ buf) = elim (Bool-cases (leb 248 b)) [
  | inl skip ↦
      let d = draw-IsDraw (suc room) buf in
      rw (skip, draw, usable)
        (record {
          alphanumeric = d.alphanumeric;
          fits = d.fits;
          all_used = d.all_used;
          filled = d.filled;
        })
  | inr use_it ↦
      let d = draw-IsDraw room buf in
      rw (use_it, draw, usable)
        (record {
          alphanumeric = (letter_of_lem b, d.alphanumeric);
          fits = omega (arith, d.fits);
          all_used = λ h. omega (arith, d.all_used (omega (arith, h)));
          filled = λ h. omega (arith, d.filled (omega (arith, h)));
        })
]

-- A secret of a length.
pub record IsSecret (n : ℕ) (secret : Text) : Type 0 where
  pub alphanumeric : All (λ c. is_alphanumeric c ≡ true) secret
  pub size : length secret ≡ n

module _ (read : ℕ → Option Text) where
  fill_lem :
      (fuel i n : ℕ) (out : Text)
      → n ≤ usable_in read i fuel
      → (secret : Text) × IsSecret n secret × (fill read fuel i n out ≡ drawn (out ++ secret))
  unfolding fill usable_in
  fill_lem zero i zero out enough =
      ([], record { alphanumeric = tt; size = refl }, ap drawn (sym (append-nil out)))
  fill_lem zero i (suc room) out enough = absurd (omega (arith, enough))
  fill_lem (suc fuel) i zero out enough =
      ([], record { alphanumeric = tt; size = refl }, ap drawn (sym (append-nil out)))
  fill_lem (suc fuel) i (suc room) out enough = elim (Option-cases (read i)) [
    | inl none_read ↦ absurd (omega (arith, rw (none_read, usable_in) at enough))
    | inr (buf, filled) ↦
        let letters = draw (suc room) buf in
        let d = draw-IsDraw (suc room) buf in
        let more : suc room ≤ usable buf + usable_in read (suc i) fuel =
          rw (filled, usable_in) at enough in
        let left : suc room - length letters ≤ usable_in read (suc i) fuel =
          ground (arith, more, d.fits, d.all_used, d.filled) in
        let (rest, secret, e) =
          fill_lem fuel (suc i) (suc room - length letters) (out ++ letters) left in
        (
          letters ++ rest,
          record {
            alphanumeric =
                All-append (λ c. is_alphanumeric c ≡ true) letters rest d.alphanumeric
                  secret.alphanumeric;
            size = omega (arith, length-append letters rest, secret.size, d.fits);
          },
          rw (filled, fill) (e ∙ ap drawn (append_assoc out letters rest)),
        )
  ]

  -- `randomAlphanumeric` returns, as soon as the reads give as many usable bytes as letters are asked
  -- for, and what it returns has the length that is asked for and consists of letters and digits.
  pub random_alphanumeric_lem :
      (reads n : ℕ)
      → n ≤ usable_in read 0 reads
      → (secret : Text) × IsSecret n secret × (random_alphanumeric read reads n ≡ drawn secret)
  unfolding random_alphanumeric
  random_alphanumeric_lem reads n enough = fill_lem reads 0 n [] enough
