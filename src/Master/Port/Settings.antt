-- ===== src/Master/Port/Settings.antt =====
-- src/meter_master.cpp: the settings of the serial line read back as the configuration.
use smartmeter_gateway.Prelude.{
  ◌+◌, Bool, true, false, Option, none, some, ◌≡◌, refl, ap, sym, ◌∙◌, arith, if_both,
  if◌then◌else◌,
}
use smartmeter_gateway.Prelude.Int.{ℤ, pos, negsuc, eqb_ℤ}
use smartmeter_gateway.Config.{Parity, no_parity, even, odd, ModbusRtuConfig}
use smartmeter_gateway.Config.Serial.{
  Speed, b1200, b2400, b4800, b9600, b19200, b38400, b57600, b115200, b230400, b460800, other_speed,
  SizeFlag, cs5, cs6, cs7, cs8, ControlFlags, baud_to_speed, data_bits_to_flag, apply_parity,
}
use smartmeter_gateway.Config.Parse.{has_value}
use smartmeter_gateway.Config.Valid.{InRange, IsRtu}
use smartmeter_gateway.Master.Port.{is_speed, is_data_bits}
use smartmeter_gateway.Master.Port.Line.{
  Termios, Libc, ready, thrown, base_flags, or_size, set_parity, set_stop_bits, set_line, with_size,
  with_speeds, with_speed, line_settings,
}

-- How a serial driver reads the settings.
abbrev pub baud_of : Speed → ℤ
baud_of b1200 = pos 1200
baud_of b2400 = pos 2400
baud_of b4800 = pos 4800
baud_of b9600 = pos 9600
baud_of b19200 = pos 19200
baud_of b38400 = pos 38400
baud_of b57600 = pos 57600
baud_of b115200 = pos 115200
baud_of b230400 = pos 230400
baud_of b460800 = pos 460800
baud_of (other_speed n) = pos n

abbrev pub bits_of : ControlFlags → ℤ
bits_of f = pos (5 + (if f.size_low then 1 else 0) + (if f.size_high then 2 else 0))

abbrev pub parity_of : ControlFlags → Parity
parity_of f = if f.parenb then if f.parodd then odd else even else no_parity

abbrev pub stop_bits_of : ControlFlags → ℤ
stop_bits_of f = if f.cstopb then pos 2 else pos 1

-- The settings are those of the configuration, with the receiver on and no flow control, and a read
-- waits for the master's buffer or half a second.
pub record IsLine (c : ModbusRtuConfig) (t : Termios) : Type 0 where
  pub input : baud_of t.input_speed ≡ c.baud
  pub output : baud_of t.output_speed ≡ c.baud
  pub data_bits : bits_of t.c_cflag ≡ c.data_bits
  pub parity : parity_of t.c_cflag ≡ c.parity
  pub stop_bits : stop_bits_of t.c_cflag ≡ c.stop_bits
  pub receiver : t.c_cflag.cread ≡ true
  pub local : t.c_cflag.clocal ≡ true
  pub flow : t.c_cflag.crtscts ≡ false
  pub shortest : t.vmin ≡ 64
  pub patience : t.vtime ≡ 5

-- What the manual says of `cfsetispeed` and `cfsetospeed`, at a speed that the program knows.
pub record IsLibc (libc : Libc) : Type 0 where
  pub input :
      (b : ℤ) (s : Speed) (t : Termios)
      → baud_to_speed b ≡ some s
      → (u : Termios) × (libc.cfsetispeed s t ≡ some u) × (u.input_speed ≡ s)
  pub output :
      (b : ℤ) (s : Speed) (t : Termios)
      → baud_to_speed b ≡ some s
      → (u : Termios) × (libc.cfsetospeed s t ≡ some u)
        × (u.output_speed ≡ s)
        × (t.input_speed ≡ s → u.input_speed ≡ s)

baud_of-baud_to_speed : (b : ℤ) (s : Speed) → baud_to_speed b ≡ some s → baud_of s ≡ b
unfolding baud_to_speed
baud_of-baud_to_speed (pos n) s h = ground arith
baud_of-baud_to_speed (negsuc n) s h = ground arith

bits_of-or_size :
    (b : ℤ) (size : SizeFlag) (f : ControlFlags)
    → data_bits_to_flag b ≡ some size
    → bits_of (or_size size (base_flags f)) ≡ b
unfolding data_bits_to_flag or_size base_flags
bits_of-or_size (pos n) cs5 f h = ground arith
bits_of-or_size (pos n) cs6 f h = ground arith
bits_of-or_size (pos n) cs7 f h = ground arith
bits_of-or_size (pos n) cs8 f h = ground arith
bits_of-or_size (negsuc n) size f h = ground arith

-- The stop bits are set last and leave the other flags.
set_stop_bits-keeps {ℓ} :
    {A : Type ℓ} (g : ControlFlags → A) (b : ℤ) (f : ControlFlags)
    → g (record f { cstopb = true }) ≡ g f
    → g (set_stop_bits b f) ≡ g f
unfolding set_stop_bits
set_stop_bits-keeps g b f e = if_both (λ x. g x ≡ g f) (eqb_ℤ b (pos 2)) _ _ e refl

stop_bits_of-set_stop_bits :
    (b : ℤ) (f : ControlFlags)
    → InRange (pos 1) (pos 2) b
    → f.cstopb ≡ false
    → stop_bits_of (set_stop_bits b f) ≡ b
unfolding set_stop_bits
stop_bits_of-set_stop_bits (pos n) f h k = ground arith
stop_bits_of-set_stop_bits (negsuc n) f h k = absurd (omega (arith, h.0))

-- What the parity switch leaves alone.
set_parity-keeps {ℓ} :
    {A : Type ℓ} (g : ControlFlags → A) (p : Parity) (f : ControlFlags)
    → ((a b : Bool) → g (record f { parenb = a; parodd = b }) ≡ g f)
    → g (set_parity p f) ≡ g f
unfolding set_parity
set_parity-keeps g no_parity f e = refl
set_parity-keeps g even f e = e true false
set_parity-keeps g odd f e = e true true

parity_of-set_parity :
    (p : Parity) (f : ControlFlags) → f.parenb ≡ false → parity_of (set_parity p f) ≡ p
unfolding set_parity
parity_of-set_parity no_parity f h = rw h
parity_of-set_parity even f h = refl
parity_of-set_parity odd f h = refl

or_size-keeps {ℓ} :
    {A : Type ℓ} (g : ControlFlags → A) (size : SizeFlag) (f : ControlFlags)
    → ((a b : Bool) → g (record f { size_low = a; size_high = b }) ≡ g f)
    → g (or_size size f) ≡ g f
unfolding or_size
or_size-keeps g cs5 f e = refl
or_size-keeps g cs6 f e = e true f.size_high
or_size-keeps g cs7 f e = e f.size_low true
or_size-keeps g cs8 f e = e true true

-- A flag that only the base sets.
base_flag :
    (g : ControlFlags → Bool) (c : ModbusRtuConfig) (size : SizeFlag) (t : Termios) (b : Bool)
    → ((f : ControlFlags) → g (record f { cstopb = true }) ≡ g f)
    → ((f : ControlFlags) (a b : Bool) → g (record f { parenb = a; parodd = b }) ≡ g f)
    → ((f : ControlFlags) (a b : Bool) → g (record f { size_low = a; size_high = b }) ≡ g f)
    → g (base_flags t.c_cflag) ≡ b
    → g (set_line c size t).c_cflag ≡ b
unfolding set_line
base_flag g c size t b stop par siz h =
    set_stop_bits-keeps g c.stop_bits _ (stop _)
    ∙ set_parity-keeps g c.parity _ (par _)
    ∙ or_size-keeps g size _ (siz _)
    ∙ h

set_line-IsLine :
    (c : ModbusRtuConfig) (size : SizeFlag) (t : Termios)
    → IsRtu c
    → data_bits_to_flag c.data_bits ≡ some size
    → baud_of t.input_speed ≡ c.baud
    → baud_of t.output_speed ≡ c.baud
    → IsLine c (set_line c size t)
unfolding set_line base_flags
set_line-IsLine c size t r h i o =
    let base = or_size size (base_flags t.c_cflag) in
    record {
      input = i;
      output = o;
      data_bits =
          set_stop_bits-keeps bits_of c.stop_bits _ refl
          ∙ set_parity-keeps bits_of c.parity base (λ a b. refl)
          ∙ bits_of-or_size c.data_bits size t.c_cflag h;
      parity =
          set_stop_bits-keeps parity_of c.stop_bits _ refl
          ∙ parity_of-set_parity c.parity base (or_size-keeps (λ f. f.parenb) size _ (λ a b. refl));
      stop_bits = stop_bits_of-set_stop_bits c.stop_bits _ r.stop_bits (
          set_parity-keeps (λ f. f.cstopb) c.parity base (λ a b. refl)
          ∙ or_size-keeps (λ f. f.cstopb) size _ (λ a b. refl));
      receiver =
          base_flag (λ f. f.cread) c size t true (λ f. refl) (λ f a b. refl) (λ f a b. refl) refl;
      local =
          base_flag (λ f. f.clocal) c size t true (λ f. refl) (λ f a b. refl) (λ f a b. refl) refl;
      flow =
          base_flag (λ f. f.crtscts) c size t false (λ f. refl) (λ f a b. refl) (λ f a b. refl)
            refl;
      shortest = refl;
      patience = refl;
    }

-- The helper that nothing calls does what the switch of `tryConnect` does to the base flags.
apply_parity-set_parity :
    (p : Parity) (f : ControlFlags) → f.parenb ≡ false → apply_parity p f ≡ set_parity p f
unfolding apply_parity set_parity
apply_parity-set_parity no_parity f h = ap (λ (b : Bool). record f { parenb = b }) (sym h)
apply_parity-set_parity even f h = refl
apply_parity-set_parity odd f h = refl

some_of : {A : Type 0} (o : Option A) → has_value o ≡ true → (a : A) × (o ≡ some a)
some_of none h = absurd cc
some_of (some a) h = (a, refl)

none_of : {A : Type 0} (o : Option A) → has_value o ≡ false → o ≡ none
none_of none h = refl
none_of (some a) h = absurd cc

module _ (libc : Libc) (documented : IsLibc libc) where
  pub line_settings-IsLine :
      (c : ModbusRtuConfig) (t : Termios)
      → IsRtu c
      → is_speed c.baud ≡ true
      → is_data_bits c.data_bits ≡ true
      → (u : Termios) × (line_settings libc c t ≡ ready u) × IsLine c u
  unfolding line_settings with_speed with_speeds with_size is_speed is_data_bits
  line_settings-IsLine c t r known bits =
      let (speed, is) = some_of (baud_to_speed c.baud) known in
      let (size, sized) = some_of (data_bits_to_flag c.data_bits) bits in
      let (t1, set1, in1) = documented.input c.baud speed (libc.cfmakeraw t) is in
      let (t2, set2, out2, in2) = documented.output c.baud speed t1 is in
      let baud = baud_of-baud_to_speed c.baud speed is in
      (
        set_line c size t2,
        rw (is, set1, set2, sized),
        set_line-IsLine c size t2 r sized (ap baud_of (in2 in1) ∙ baud) (ap baud_of out2 ∙ baud),
      )

pub line_settings_thrown :
    (libc : Libc) (c : ModbusRtuConfig) (t : Termios)
    → is_speed c.baud ≡ false
    → line_settings libc c t ≡ thrown
unfolding line_settings with_speed is_speed
line_settings_thrown libc c t unknown = rw (none_of (baud_to_speed c.baud) unknown)
