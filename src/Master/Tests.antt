-- ===== src/Master/Tests.antt =====
-- Telegrams on concrete data, and the theorems at inputs that meet their hypotheses.
use mathlib.Core.List.{flatten}
use smartmeter_gateway.Prelude.{true, List, [], ◌∷◌, ◌≡◌, ◌≢◌, refl, arith, Bytes, codes, All}
use smartmeter_gateway.ModbusError.{ok}
use smartmeter_gateway.Master.Telegram.{
  initial, read_loop, read_telegram, take_byte, take_bytes, check_packet, finished,
}
use smartmeter_gateway.Master.Telegram.Chunks.{polls_of, read_loop-flatten}
use smartmeter_gateway.Master.Telegram.Frame.{
  IsFramed, IsFramed-of_text, read_loop-framed, read_telegram-IsFramed,
}

-- The end of a telegram that was cut, then a short telegram in two reads, with bytes behind it.
abbrev reads : List Bytes
reads = codes "00)\n/EBZ_107\n1-0:1.8" ∷ codes ".0*255(1*kWh)\n!\n\n/EB" ∷ []

abbrev telegram : Bytes
telegram = codes "/EBZ_107\n1-0:1.8.0*255(1*kWh)\n!\n\n"

telegram-IsFramed : IsFramed telegram
telegram-IsFramed =
    IsFramed-of_text (codes "/EBZ_107\n1-0:1.8.0*255(1*kWh)\n") b'\n' b'\n' refl (ground arith)
      (omega arith)

non_empty : All (λ (c : Bytes). c ≢ []) reads
non_empty = (λ e. cc, (λ e. cc, tt))

read_loop-framed_example : read_loop initial (polls_of reads) ≡ finished (ok telegram)
unfolding flatten
read_loop-framed_example =
    read_loop-framed (codes "00)\n") telegram (codes "/EB") reads (omega arith) telegram-IsFramed
      non_empty refl

read_reads : read_telegram true true (polls_of reads) ≡ finished (ok telegram)
unfolding read_telegram read_loop take_byte take_bytes check_packet
read_reads = refl

read_telegram-IsFramed_example : IsFramed telegram
read_telegram-IsFramed_example =
    read_telegram-IsFramed true true (polls_of reads) telegram read_reads

read_loop-flatten_example :
    read_loop initial (polls_of reads)
    ≡ finished (check_packet (take_bytes initial (flatten reads)))
unfolding take_bytes take_byte flatten
read_loop-flatten_example = read_loop-flatten initial reads non_empty refl
