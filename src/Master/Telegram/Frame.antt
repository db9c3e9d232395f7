-- ===== src/Master/Telegram/Frame.antt =====
-- What the reader accepts: the predicate `IsFramed`, and that the reader finds exactly such a
-- telegram at the first '/' of the stream.
use mathlib.Core.List.{append_assoc, flatten}
use smartmeter_gateway.Prelude.{
  ℕ, ◌+◌, ◌-◌, ◌≤◌, ◌<◌, Bool, true, false, List, [], ◌∷◌, ◌++◌, ◌≡◌, ◌∙◌, ◌≢◌, refl, sym, ap,
  subst, ◌⊎◌, inl, inr, arith, Bool-cases, Bytes, length, get_or, All, length-append,
  get_or-append_left, get_or-append_length, All-get_or,
}
use smartmeter_gateway.ModbusError.{ok}
use smartmeter_gateway.Master.Telegram.{
  Reader, Poll, ReadResult, chunk, failed, read_telegram, initial, at_end, is_done, take_byte,
  take_bytes, finished, blocked, check_packet, read_loop, read_on, telegram_size,
}
use smartmeter_gateway.Master.Telegram.Chunks.{
  read_loop-flatten, polls_of, take_bytes-cons, take_bytes_of_done,
}
use smartmeter_gateway.Master.Telegram.Stored.{Inv, initial-Inv, take_bytes-Inv}

-- '/' first, '!' third from the end and nowhere before that, and 3 to 368 bytes long.
pub record IsFramed (t : Bytes) : Type 0 where
  pub slash : get_or t 0 0 ≡ b'/'
  pub long : 3 ≤ length t
  pub fits : length t ≤ telegram_size
  pub bang : get_or t (length t - 3) 0 ≡ b'!'
  pub first_bang : (i : ℕ) → i + 3 < length t → get_or t i 0 ≢ b'!'

-- Every '/' and some text without '!', then '!' and two more bytes, is a telegram.
pub IsFramed-of_text :
    (p : Bytes) (a b : ℕ)
    → get_or p 0 0 ≡ b'/'
    → All (λ c. c ≢ b'!') p
    → length p ≤ 365
    → IsFramed (p ++ b'!' ∷ a ∷ b ∷ [])
IsFramed-of_text [] a b s h l = absurd (ground arith)
IsFramed-of_text (c ∷ p) a b s h l =
    let t : Bytes = c ∷ p in
    let tail : Bytes = b'!' ∷ a ∷ b ∷ [] in
    let n = length-append t tail in
    record {
      slash = s;
      long = omega (arith, n);
      fits = omega (arith, n);
      bang =
          let e : length (t ++ tail) - 3 ≡ length t = omega (arith, n) in
          rw e (get_or-append_length t tail 0);
      first_bang = λ i k.
          let inside : i < length t = omega (arith, n) in
          rw (get_or-append_left t tail i 0 inside) (All-get_or (λ c. c ≢ b'!') t i 0 h inside);
    }

-- The reader's state while the bytes of `p` have been stored and the telegram goes on.
abbrev begun : Bytes → Reader
begun p = record { packet = p; message_begin = true; telegram_complete = false }

take_bytes_junk :
    (junk rest : Bytes)
    → All (λ c. c ≢ b'/') junk
    → take_bytes initial (junk ++ rest) ≡ take_bytes initial rest
unfolding take_bytes take_byte
take_bytes_junk [] rest h = refl
take_bytes_junk (c ∷ cs) rest h = ground (arith, take_bytes_junk cs rest h.1)

-- The packet read so far does not end the telegram, as long as bytes of it are missing.
at_end_inside :
    (t p rest : Bytes) → IsFramed t → t ≡ p ++ rest → length p < length t → at_end p ≡ false
at_end_inside t p rest f e h = ground (
  arith,
  f.first_bang (length p - 3),
  ap (λ (x : Bytes). get_or x (length p - 3) 0) e,
  get_or-append_left p rest (length p - 3) 0,
)

at_end_frame : (t : Bytes) → IsFramed t → at_end t ≡ true
at_end_frame t f = ground arith

take_byte-begun :
    (p : Bytes) (c : ℕ)
    → take_byte (begun p) c ≡ record {
      packet = p ++ c ∷ [];
      message_begin = true;
      telegram_complete = at_end (p ++ c ∷ []);
    }
unfolding take_byte
take_byte-begun p c = refl

length_lt : (t p cs : Bytes) (c : ℕ) → t ≡ p ++ c ∷ cs → length p < length t
length_lt t p cs c e = omega (arith, ap length e, length-append p (c ∷ cs))

not_done : (t p : Bytes) → IsFramed t → length p < length t → is_done (begun p) ≡ false
not_done t p f h = ground (arith, f.fits)

take_bytes_frame :
    (t p cs rest : Bytes) (c : ℕ)
    → IsFramed t
    → t ≡ p ++ c ∷ cs
    → take_bytes (begun p) (c ∷ (cs ++ rest))
      ≡ record { packet = t; message_begin = true; telegram_complete = true }
take_bytes_frame t p [] rest c f e =
    rw (take_bytes-cons (begun p) c rest (not_done t p f (length_lt t p [] c e)))
      (rw (take_byte-begun p c, ← e, at_end_frame t f) (take_bytes_of_done _ rest (ground arith)))
take_bytes_frame t p (d ∷ cs) rest c f e =
    let e' : t ≡ (p ++ c ∷ []) ++ d ∷ cs = e ∙ sym (append_assoc p (c ∷ []) (d ∷ cs)) in
    let inside = at_end_inside t (p ++ c ∷ []) (d ∷ cs) f e' (length_lt t _ cs d e') in
    rw
      (take_bytes-cons (begun p) c (d ∷ (cs ++ rest)) (not_done t p f (length_lt t p (d ∷ cs) c e)))
      (rw (take_byte-begun p c, inside) (take_bytes_frame t (p ++ c ∷ []) cs rest d f e'))

take_bytes_framed :
    (t rest : Bytes)
    → IsFramed t
    → take_bytes initial (t ++ rest)
      ≡ record { packet = t; message_begin = true; telegram_complete = true }
unfolding take_byte
take_bytes_framed [] rest f = absurd (omega (arith, f.long))
take_bytes_framed (c ∷ []) rest f = absurd (omega (arith, f.long))
take_bytes_framed (c ∷ d ∷ cs) rest f =
    rw (take_bytes-cons initial c (d ∷ (cs ++ rest)) (ground arith))
      (rw f.slash (take_bytes_frame (b'/' ∷ d ∷ cs) (b'/' ∷ []) cs rest d (rw f.slash at f) refl))

-- Whatever stands before the first '/' is skipped: a framed telegram there is read in full, and
-- nothing behind it, however the bytes are cut into reads.
pub read_loop-framed :
    (junk t rest : Bytes) (cs : List Bytes)
    → All (λ c. c ≢ b'/') junk
    → IsFramed t
    → All (λ c. c ≢ []) cs
    → flatten cs ≡ junk ++ (t ++ rest)
    → read_loop initial (polls_of cs) ≡ finished (ok t)
unfolding check_packet
read_loop-framed junk t rest cs j f ne e =
    let read : take_bytes initial (flatten cs)
        ≡ record { packet = t; message_begin = true; telegram_complete = true } =
      rw e (take_bytes_junk junk (t ++ rest) j ∙ take_bytes_framed t rest f) in
    read_loop-flatten initial cs ne (rw read (ground arith)) ∙ rw read (rw (at_end_frame t f))

check_packet-eq-ok :
    (r : Reader) (t : Bytes) → check_packet r ≡ ok t → (at_end r.packet ≡ true) × (r.packet ≡ t)
unfolding check_packet
check_packet-eq-ok r t h = ground arith

packet-IsFramed : (r : Reader) → Inv r → at_end r.packet ≡ true → IsFramed r.packet
packet-IsFramed r v e = record {
  slash = v.slash (λ n. ground arith);
  long = ground arith;
  fits = v.fits;
  bang = ground arith;
  first_bang = v.earlier;
}

check_packet-IsFramed : (r : Reader) (t : Bytes) → Inv r → check_packet r ≡ ok t → IsFramed t
check_packet-IsFramed r t v h =
    let (e, same) = check_packet-eq-ok r t h in subst IsFramed same (packet-IsFramed r v e)

-- A run that returns a telegram either checks the packet at once or goes on behind a read.
read_loop-eq-ok :
    (r : Reader) (e : Poll) (es : List Poll) (x : ReadResult) (t : Bytes)
    → e.result ≡ x
    → read_loop r (e ∷ es) ≡ finished (ok t)
    → (check_packet r ≡ ok t) ⊎ ((cs : Bytes) × (read_loop (take_bytes r cs) es ≡ finished (ok t)))
unfolding read_loop
read_loop-eq-ok r e es (failed n) t q h = inl (ground arith)
read_loop-eq-ok r e es (chunk []) t q h = inl (ground arith)
read_loop-eq-ok r e es (chunk (c ∷ cs)) t q h = elim (Bool-cases (is_done r)) [
  | inl d ↦ inl (ground arith)
  | inr d ↦ inr (c ∷ cs, ground arith)
]

read_loop-Inv :
    (es : List Poll) (r : Reader) (t : Bytes)
    → Inv r
    → read_loop r es ≡ finished (ok t)
    → IsFramed t
read_loop-Inv [] r t v h = check_packet-IsFramed r t v (unfold read_loop in ground arith)
read_loop-Inv (e ∷ es) r t v h = elim (read_loop-eq-ok r e es e.result t refl h) [
  | inl now ↦ check_packet-IsFramed r t v now
  | inr (cs, later) ↦ read_loop-Inv es (take_bytes r cs) t (take_bytes-Inv cs r v) later
]

-- Whatever the serial port delivers, a telegram that the function stores is framed.
pub read_telegram-IsFramed :
    (running connected : Bool) (es : List Poll) (t : Bytes)
    → read_telegram running connected es ≡ finished (ok t)
    → IsFramed t
unfolding read_telegram
read_telegram-IsFramed running connected es t h =
    read_loop-Inv es initial t initial-Inv (ground arith)

-- The loop's variables in a read that blocks.
read_loop-eq-blocked :
    (r r' : Reader) (e : Poll) (es : List Poll) (x : ReadResult)
    → e.result ≡ x
    → read_loop r (e ∷ es) ≡ blocked r'
    → (cs : Bytes) × (read_loop (take_bytes r cs) es ≡ blocked r')
unfolding read_loop
read_loop-eq-blocked r r' e es (failed n) q h = absurd (ground arith)
read_loop-eq-blocked r r' e es (chunk []) q h = absurd (ground arith)
read_loop-eq-blocked r r' e es (chunk (c ∷ cs)) q h = (c ∷ cs, ground arith)

read_loop-blocked : (es : List Poll) (r r' : Reader) → Inv r → read_loop r es ≡ blocked r' → Inv r'
read_loop-blocked [] r r' v h =
    let same : r ≡ r' = (unfold read_loop in ground arith) in subst Inv same v
read_loop-blocked (e ∷ es) r r' v h =
    let (cs, later) = read_loop-eq-blocked r r' e es e.result refl h in
    read_loop-blocked es (take_bytes r cs) r' (take_bytes-Inv cs r v) later

pub read_telegram-blocked :
    (running connected : Bool) (es : List Poll) (r : Reader)
    → read_telegram running connected es ≡ blocked r
    → Inv r
unfolding read_telegram
read_telegram-blocked running connected es r h =
    read_loop-blocked es initial r initial-Inv (ground arith)

-- The same of a read that goes on.
pub read_on-IsFramed :
    (running : Bool) (r : Reader) (es : List Poll) (t : Bytes)
    → Inv r
    → read_on running r es ≡ finished (ok t)
    → IsFramed t
unfolding read_on
read_on-IsFramed running r [] t v h = absurd cc
read_on-IsFramed true r (e ∷ es) t v h = read_loop-Inv _ r t v h
read_on-IsFramed false r (e ∷ es) t v h = read_loop-Inv _ r t v h

pub read_on-blocked :
    (running : Bool) (r r' : Reader) (es : List Poll)
    → Inv r
    → read_on running r es ≡ blocked r'
    → Inv r'
unfolding read_on
read_on-blocked running r r' [] v h = let same : r ≡ r' = ground arith in subst Inv same v
read_on-blocked true r r' (e ∷ es) v h = read_loop-blocked _ r r' v h
read_on-blocked false r r' (e ∷ es) v h = read_loop-blocked _ r r' v h
