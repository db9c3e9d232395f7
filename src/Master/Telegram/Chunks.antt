-- ===== src/Master/Telegram/Chunks.antt =====
-- The reader does not see how the serial driver cuts the byte stream into reads.
use smartmeter_gateway.Prelude.{
  ℕ, true, false, List, [], ◌∷◌, ◌++◌, ◌≡◌, ◌≢◌, refl, inl, inr, Bool-cases, Bytes, All,
}
use mathlib.Core.List.{flatten}
use smartmeter_gateway.Master.Telegram.{
  Reader, Poll, chunk, is_done, take_byte, take_bytes, finished, check_packet, read_loop,
}

pub take_bytes_of_done : (r : Reader) (cs : Bytes) → is_done r ≡ true → take_bytes r cs ≡ r
unfolding take_bytes
take_bytes_of_done r [] d = refl
take_bytes_of_done r (c ∷ cs) d = rw d

pub take_bytes-nil : (r : Reader) → take_bytes r [] ≡ r
unfolding take_bytes
take_bytes-nil r = refl

pub take_bytes-cons :
    (r : Reader) (c : ℕ) (cs : Bytes)
    → is_done r ≡ false
    → take_bytes r (c ∷ cs) ≡ take_bytes (take_byte r c) cs
unfolding take_bytes
take_bytes-cons r c cs d = rw d

pub take_bytes-append :
    (r : Reader) (xs ys : Bytes) → take_bytes r (xs ++ ys) ≡ take_bytes (take_bytes r xs) ys
unfolding take_bytes
take_bytes-append r [] ys = refl
take_bytes-append r (x ∷ xs) ys = elim (Bool-cases (is_done r)) [
  | inl d ↦ rw d (rw (take_bytes_of_done r ys d))
  | inr d ↦ rw d (take_bytes-append (take_byte r x) xs ys)
]

-- Reads that all succeed while the program runs.
abbrev pub polls_of : List Bytes → List Poll
polls_of [] = []
polls_of (c ∷ cs) = record { running = true; result = chunk c } ∷ polls_of cs

-- Whenever the bytes of some non-empty reads are enough to end the loop, the function returns, and
-- what it returns depends on the concatenation of the reads only.
pub read_loop-flatten :
    (r : Reader) (cs : List Bytes)
    → All (λ c. c ≢ []) cs
    → is_done (take_bytes r (flatten cs)) ≡ true
    → read_loop r (polls_of cs) ≡ finished (check_packet (take_bytes r (flatten cs)))
unfolding read_loop flatten
read_loop-flatten r [] ne d = rw (take_bytes-nil r) (rw (rw (take_bytes-nil r) at d))
read_loop-flatten r ([] ∷ cs) ne d = absurd (ne.0 refl)
read_loop-flatten r ((x ∷ xs) ∷ cs) ne d = elim (Bool-cases (is_done r)) [
  | inl e ↦ rw e (rw (take_bytes_of_done r ((x ∷ xs) ++ flatten cs) e))
  | inr e ↦
      let split = take_bytes-append r (x ∷ xs) (flatten cs) in
      rw e (rw split (read_loop-flatten (take_bytes r (x ∷ xs)) cs ne.1 (rw split at d)))
]
