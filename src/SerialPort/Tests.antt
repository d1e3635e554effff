-- ===== src/SerialPort/Tests.antt =====
-- serial_port.cpp on a concrete port, and its theorems there.
use bit_magic_zi_modem.Base.{ℕ, ◌+◌, ◌-◌, ◌^◌, arith, ◌≡◌, refl, some, List, [], ◌∷◌, codes}
use bit_magic_zi_modem.SerialPort.{Serial, initial, get_line_config, feed_input, read}
use bit_magic_zi_modem.SerialPort.Queue.{
  Call, feeds, writes, reads, peeks, drains, sets_line, run, IsFifo, run-IsFifo, drain, drain_lem,
}
use bit_magic_zi_modem.SerialPort.ReadBytes.{
  Moment, read_bytes, IsRead, read_bytes-IsRead, read_bytes_wraps,
}
use bit_magic_zi_modem.SerialPort.Line.{
  Begin, baud_only, baud_config, begins, Changes, begins-Changes,
}

-- Both callbacks are the number 7.
abbrev port : Serial ℕ
port = record initial { data_ready_callback = some 7; line_config_callback = some 7 }

abbrev dialogue : List Call
dialogue =
    feeds (codes "at") ∷ reads ∷ writes (codes "ok") ∷ drains ∷ peeks ∷ sets_line 1200 28 ∷ []

dialogue_runs : (run port dialogue).0.drained ≡ codes "o"
unfolding run
dialogue_runs = refl

run-IsFifo_example : IsFifo port (run port dialogue)
run-IsFifo_example = run-IsFifo port dialogue

abbrev settings : List Begin
settings = baud_config 1200 28 ∷ baud_only 1200 ∷ baud_only 9600 ∷ []

begins-Changes_example :
    Changes 7 (0, 0) (begins port settings).0 (get_line_config (begins port settings).1)
unfolding get_line_config
begins-Changes_example = begins-Changes port 7 settings refl

drain_lem_example : drain 3 (record port { rx_queue = codes "ok" }) ≡ some (codes "ok", port)
drain_lem_example = drain_lem (record port { rx_queue = codes "ok" })

abbrev nothing : Moment
nothing = record { fed = []; passes = 0 }

abbrev a_byte : Moment
a_byte = record { fed = codes "k"; passes = 1 }

abbrev moments : List Moment
moments = nothing ∷ a_byte ∷ nothing ∷ nothing ∷ nothing ∷ nothing ∷ nothing ∷ nothing ∷ []

-- Of four bytes asked for there are two, and the timeout of 2 passes behind the second.
short_read :
    read_bytes 32 2 4 (a_byte ∷ a_byte ∷ nothing ∷ nothing ∷ nothing ∷ []) port 5
    ≡ some (codes "kk", port, 9)
unfolding read_bytes feed_input read
short_read = refl

read_bytes-IsRead_example : IsRead 32 2 2 moments port 5 [] (read_bytes 32 2 2 moments port 5)
read_bytes-IsRead_example = read_bytes-IsRead 32 2 2 moments port 5 (omega arith) (omega arith)

-- Half a second before a clock of 32 bits wraps, with the timeout of a second.
read_bytes_wraps_example :
    read_bytes 32 1000 1 (nothing ∷ a_byte ∷ []) port (2 ^ 32 - 500)
    ≡ some ([], port, 2 ^ 32 - 500 + 0)
read_bytes_wraps_example =
    read_bytes_wraps 32 1000 1 nothing (a_byte ∷ []) port (2 ^ 32 - 500) (omega arith) (omega arith)
      (omega arith) (omega arith) refl
