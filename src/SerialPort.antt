-- ===== src/SerialPort.antt =====
-- serial_port.cpp: the virtual UART, two unbounded byte queues and the recorded line settings.
-- Each function holds the mutex while it touches the state, so a call is one step. A callback is a
-- value of type `C`, an argument of the model; a call returns the callbacks that it invokes, in
-- order, as events. A deque is a list with its front first.
pub mod Queue
pub mod Line
pub mod ReadBytes
pub mod Hardware
pub mod Printing
mod Tests
use bit_magic_zi_modem.Base.{
  ℕ, ◌+◌, Bool, true, false, not, ◌&&◌, Option, none, some, List, [], ◌∷◌, ◌++◌, ◌==◌, ltb,
  if◌then◌else◌, length,
}
use bit_magic_zi_modem.Base.Int.{ℤ, pos, minus_one, to_int}

pub record Serial (C : Type 0) : Type 0 where
  pub input : List ℕ
  pub rx_queue : List ℕ
  pub data_ready_callback : Option C
  pub line_baud : ℕ
  pub line_config : ℕ
  pub line_config_callback : Option C

pub data Event (C : Type 0) : Type 0 where
  data_ready : C → Event C
  line_changed : C → ℕ → ℕ → Event C

abbrev pub plenty_of_room : ℕ
plenty_of_room = 4096

abbrev pub is_nil : List ℕ → Bool
is_nil [] = true
is_nil (x ∷ xs) = false

module _ {C : Type 0} where
  -- The state before any call, which is also what reset_for_testing leaves.
  abbrev pub initial : Serial C
  initial = record {
    input = [];
    rx_queue = [];
    data_ready_callback = none;
    line_baud = 0;
    line_config = 0;
    line_config_callback = none;
  }

  unfoldable pub reset_for_testing : Serial C → Serial C
  reset_for_testing s = record s {
    input = [];
    rx_queue = [];
    data_ready_callback = none;
    line_baud = 0;
    line_config = 0;
    line_config_callback = none;
  }

  unfoldable pub set_data_ready_callback : Serial C → Option C → Serial C
  set_data_ready_callback s cb = record s { data_ready_callback = cb }

  unfoldable pub set_line_config_callback : Serial C → Option C → Serial C
  set_line_config_callback s cb = record s { line_config_callback = cb }

-- The push_back loop.
unfoldable pub push_all : List ℕ → List ℕ → List ℕ
push_all q [] = q
push_all q (x ∷ xs) = push_all (q ++ x ∷ []) xs

-- front and pop_front of a deque, or -1 where it is empty.
abbrev pub pop_front : List ℕ → ℤ × List ℕ
pop_front [] = (minus_one, [])
pop_front (b ∷ q) = (pos b, q)

abbrev pub front : List ℕ → ℤ
front [] = minus_one
front (b ∷ q) = pos b

module _ {C : Type 0} where
  unfoldable pub feed_input : Serial C → List ℕ → Serial C
  unfolding push_all
  feed_input s bytes = record s { input = push_all s.input bytes }

  unfoldable pub available : Serial C → ℤ
  available s = to_int (length s.input)

  unfoldable pub read : Serial C → ℤ × Serial C
  read s = let r = pop_front s.input in (r.0, record s { input = r.1 })

  unfoldable pub peek : Serial C → ℤ
  peek s = front s.input

  -- `if (len > 0 && cb) cb();`
  abbrev pub wake : Option C → List ℕ → List (Event C)
  wake none bytes = []
  wake (some cb) bytes = if ltb 0 (length bytes) then data_ready cb ∷ [] else []

  -- The callback is copied under the lock and invoked behind it.
  unfoldable pub write : Serial C → List ℕ → ℕ × List (Event C) × Serial C
  unfolding push_all
  write s bytes = (
    length bytes,
    wake s.data_ready_callback bytes,
    record s { rx_queue = push_all s.rx_queue bytes },
  )

  unfoldable pub rx_available : Serial C → Bool
  rx_available s = not (is_nil s.rx_queue)

  unfoldable pub rx_read : Serial C → ℤ × Serial C
  rx_read s = let r = pop_front s.rx_queue in (r.0, record s { rx_queue = r.1 })

  unfoldable pub available_for_write : Serial C → ℕ
  available_for_write s = plenty_of_room

  -- The call of a line callback, if there is one.
  abbrev pub notify : Option C → ℕ → ℕ → List (Event C)
  notify none baud config = []
  notify (some cb) baud config = line_changed cb baud config ∷ []

  unfoldable pub set_line_config : Serial C → ℕ → ℕ → List (Event C) × Serial C
  set_line_config s baud config =
      if s.line_baud == baud && s.line_config == config then ([], s) else (
        notify s.line_config_callback baud config,
        record s { line_baud = baud; line_config = config },
      )

  unfoldable pub set_line_baud : Serial C → ℕ → List (Event C) × Serial C
  set_line_baud s baud =
      if s.line_baud == baud
      then ([], s)
      else (notify s.line_config_callback baud s.line_config, record s { line_baud = baud })

  unfoldable pub get_line_config : Serial C → ℕ × ℕ
  get_line_config s = (s.line_baud, s.line_config)
