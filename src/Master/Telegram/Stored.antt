-- ===== src/Master/Telegram/Stored.antt =====
-- What holds of the reader of src/meter_master.cpp between two bytes.
use mathlib.Core.List.{concat-ne-nil}
use smartmeter_gateway.Prelude.{
  ℕ, ◌+◌, ◌≤◌, ◌<◌, true, false, ◌||◌, [], ◌∷◌, ◌++◌, ◌≡◌, ◌≢◌, refl, inl, inr, arith, Bool-cases,
  Bytes, length, get_or, ◌==◌, length-append, get_or-append_left,
}
use smartmeter_gateway.Master.Telegram.{
  Reader, initial, at_end, is_done, take_byte, take_bytes, telegram_size,
}
use smartmeter_gateway.Master.Telegram.Chunks.{take_bytes-nil, take_bytes-cons, take_bytes_of_done}

-- What holds of the reader whenever a byte is about to be taken, and at the end.
pub record Inv (r : Reader) : Type 0 where
  pub idle : r.message_begin ≡ false → r.packet ≡ []
  pub busy : r.message_begin ≡ true → r.packet ≢ []
  pub slash : r.packet ≢ [] → get_or r.packet 0 0 ≡ b'/'
  pub fits : length r.packet ≤ telegram_size
  pub earlier : (i : ℕ) → i + 3 < length r.packet → get_or r.packet i 0 ≢ b'!'
  pub going : r.telegram_complete ≡ false → at_end r.packet ≡ false

pub initial-Inv : Inv initial
initial-Inv = record {
  idle = λ _. refl;
  busy = λ e. cc;
  slash = λ n. absurd (n refl);
  fits = omega arith;
  earlier = λ i h. absurd (omega arith);
  going = λ _. refl;
}

pub store-earlier :
    (p : Bytes) (c : ℕ)
    → ((i : ℕ) → i + 3 < length p → get_or p i 0 ≢ b'!')
    → at_end p ≡ false
    → (i : ℕ) → i + 3 < length (p ++ c ∷ [])
    → get_or (p ++ c ∷ []) i 0 ≢ b'!'
store-earlier p c before going i h =
    let n = length-append p (c ∷ []) in
    rw (get_or-append_left p (c ∷ []) i 0 (omega (arith, n))) (ground (arith, n, before i))

pub store-slash :
    (p : Bytes) (c : ℕ)
    → (p ≢ [] → get_or p 0 0 ≡ b'/')
    → (p ≡ [] → c ≡ b'/')
    → get_or (p ++ c ∷ []) 0 0 ≡ b'/'
store-slash [] c before first = first refl
store-slash (x ∷ p) c before first = before (λ e. cc)

pub store-Inv :
    (r : Reader) (c : ℕ)
    → is_done r ≡ false
    → Inv r
    → (r.message_begin || c == b'/') ≡ true
    → Inv (record {
      packet = r.packet ++ c ∷ [];
      message_begin = true;
      telegram_complete = r.telegram_complete || at_end (r.packet ++ c ∷ []);
    })
store-Inv r c d v h = record {
  idle = λ e. cc;
  busy = λ _. concat-ne-nil c r.packet;
  slash = λ _. store-slash r.packet c v.slash (λ e. ground (arith, v.busy));
  fits = ground (arith, length-append r.packet (c ∷ []));
  earlier = store-earlier r.packet c v.earlier (ground (arith, v.going));
  going = λ e. ground arith;
}

pub take_byte-Inv : (r : Reader) (c : ℕ) → is_done r ≡ false → Inv r → Inv (take_byte r c)
unfolding take_byte
take_byte-Inv r c d v = elim (Bool-cases (r.message_begin || c == b'/')) [
  | inl h ↦ rw h (store-Inv r c d v h)
  | inr h ↦ rw h v
]

pub take_bytes-Inv : (cs : Bytes) (r : Reader) → Inv r → Inv (take_bytes r cs)
take_bytes-Inv [] r v = rw (take_bytes-nil r) v
take_bytes-Inv (c ∷ cs) r v = elim (Bool-cases (is_done r)) [
  | inl d ↦ rw (take_bytes_of_done r (c ∷ cs) d) v
  | inr d ↦
      rw (take_bytes-cons r c cs d) (take_bytes-Inv cs (take_byte r c) (take_byte-Inv r c d v))
]
