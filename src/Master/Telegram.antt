-- ===== src/Master/Telegram.antt =====
-- `MeterMaster::readTelegram` of src/meter_master.cpp: the serial reads are a list of events, one
-- for each round of the loop, with what `isRunning()` answers before the read. A list that ends
-- early stands for a read that still blocks.
pub mod Chunks
pub mod Frame
pub mod Stored
use smartmeter_gateway.Prelude.{
  ℕ, ◌-◌, Bool, true, false, not, ◌&&◌, ◌||◌, List, [], ◌∷◌, ◌++◌, ◌==◌, ltb, leb, if◌then◌else◌,
  Bytes, length, get_or,
}
use smartmeter_gateway.ModbusError.{
  Errno, eintr, etimedout, enotconn, eproto, Result, ok, err, custom, from_errno,
}

abbrev pub telegram_size : ℕ
telegram_size = 368

-- What `::read` returns: at least one byte, 0 at a timeout (`chunk []`), or -1 with `errno`.
pub data ReadResult : Type 0 where
  chunk : Bytes → ReadResult
  failed : Errno → ReadResult

pub record Poll : Type 0 where
  pub running : Bool
  pub result : ReadResult

-- The loop's variables. `packet` holds the first `packetPos` bytes of the source's array.
pub record Reader : Type 0 where
  pub packet : Bytes
  pub message_begin : Bool
  pub telegram_complete : Bool

abbrev pub initial : Reader
initial = record { packet = []; message_begin = false; telegram_complete = false }

-- `packetPos >= 3 && packet[packetPos - 3] == '!'`
abbrev pub at_end : Bytes → Bool
at_end p = leb 3 (length p) && get_or p (length p - 3) 0 == b'!'

-- The body of the loop over the bytes of one read.
unfoldable pub take_byte : Reader → ℕ → Reader
take_byte r c =
    if r.message_begin || c == b'/'
    then record {
      packet = r.packet ++ c ∷ [];
      message_begin = true;
      telegram_complete = r.telegram_complete || at_end (r.packet ++ c ∷ []);
    }
    else r

-- The test that ends both loops: the packet is full or the telegram is complete.
abbrev pub is_done : Reader → Bool
is_done r = not (ltb (length r.packet) telegram_size) || r.telegram_complete

unfoldable pub take_bytes : Reader → Bytes → Reader
take_bytes r [] = r
take_bytes r (c ∷ cs) = if is_done r then r else take_bytes (take_byte r c) cs

-- `finished` with what the function returns, or still blocked in a read, with the loop's variables.
pub data Outcome {ℓ} (A : Type ℓ) : Type ℓ where
  finished : Result A → Outcome A
  blocked : Reader → Outcome A

-- The check behind the loop.
unfoldable pub check_packet : Reader → Result Bytes
check_packet r = if at_end r.packet then ok r.packet else err (custom eproto)

unfoldable pub read_loop : Reader → List Poll → Outcome Bytes
read_loop r [] = if is_done r then finished (check_packet r) else blocked r
read_loop r (e ∷ es) =
    if is_done r
    then finished (check_packet r)
    else if not e.running
    then finished (err (custom eintr))
    else elim e.result [
      | failed errno ↦ finished (err (from_errno errno))
      | chunk [] ↦ finished (err (custom etimedout))
      | chunk (c ∷ cs) ↦ read_loop (take_bytes r (c ∷ cs)) es
    ]

-- The whole function: the telegram to store, or the error. `connected` is `serialPort_ != -1`.
unfoldable pub read_telegram : Bool → Bool → List Poll → Outcome Bytes
read_telegram running connected polls =
    if not running
    then finished (err (custom eintr))
    else if not connected
    then finished (err (custom enotconn))
    else read_loop initial polls

-- The function goes on in a read that has blocked. The test in front of this read is behind it, so
-- that a shutdown is seen once the read has returned, if the loop goes on then.
unfoldable pub read_on : Bool → Reader → List Poll → Outcome Bytes
read_on running r [] = blocked r
read_on true r (e ∷ es) = read_loop r (record e { running = true } ∷ es)
read_on false r (e ∷ es) =
    read_loop r (record e { running = true } ∷ record e { running = false } ∷ [])
