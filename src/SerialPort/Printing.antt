-- ===== src/SerialPort/Printing.antt =====
-- What the print functions of Print.h do over HardwareSerialCompat, which overrides the write of a
-- buffer by serial_port.cpp's.
use bit_magic_zi_modem.Base.{ℕ, ◌+◌, ◌≡◌, ap, some, List, [], ◌∷◌, ◌++◌, length}
use mathlib.Core.List.{append_assoc}
use bit_magic_zi_modem.WString.{String, until_nul}
use bit_magic_zi_modem.Print.{write_cstr, print, end_line, println}
use bit_magic_zi_modem.SerialPort.{Serial, Event, data_ready, write, wake}
use bit_magic_zi_modem.SerialPort.Queue.{push_all-append}

module _ {C : Type 0} where
  -- The port, behind the callbacks that it invoked so far.
  unfoldable pub write_port : List (Event C) × Serial C → List ℕ → ℕ × (List (Event C) × Serial C)
  unfolding write
  write_port (es, s) bytes = let r = write s bytes in (r.0, (es ++ r.1, r.2))

  write_port_lem :
      (es : List (Event C)) (s : Serial C) (bytes : List ℕ)
      → write_port (es, s) bytes ≡ (
        length bytes,
        (es ++ wake s.data_ready_callback bytes, record s { rx_queue = s.rx_queue ++ bytes }),
      )
  unfolding write_port write
  write_port_lem es s bytes =
      ap (λ q. (length bytes, (es ++ wake s.data_ready_callback bytes, record s { rx_queue = q })))
        (push_all-append s.rx_queue bytes)

  -- println to the port queues the text up to its first NUL and CR LF behind it, counts all of them,
  -- wakes the consumer once for a text that is not empty and once for the line end, and changes
  -- nothing else of the port.
  pub println-write_port :
      (s : Serial C) (cb : C) (text : String)
      → s.data_ready_callback ≡ some cb
      → let t = until_nul text.value in
        println write_port ([], s) text ≡ (
          length t + 2,
          (
            wake (some cb) t ++ (data_ready cb ∷ []),
            record s { rx_queue = s.rx_queue ++ (t ++ (13 ∷ 10 ∷ [])) },
          ),
        )
  unfolding println print end_line write_cstr
  println-write_port s cb text e =
      let t = until_nul text.value in
      rw
        (
          write_port_lem [] s t,
          write_port_lem (wake s.data_ready_callback t) (record s { rx_queue = s.rx_queue ++ t })
              (13 ∷ 10 ∷ []),
          e,
        )
        (ap
          (λ q. (
            length t + 2,
            (
              wake (some cb) t ++ (data_ready cb ∷ []),
              record s { rx_queue = q; data_ready_callback = some cb },
            ),
          ))
          (append_assoc s.rx_queue t (13 ∷ 10 ∷ [])))
