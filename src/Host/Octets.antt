-- ===== src/Host/Octets.antt =====
-- The values of the byte queues over a history: what rx_read and the firmware's read return.
use bit_magic_zi_modem.Base.{ℕ, ◌<◌, All, List, [], ◌∷◌}
use bit_magic_zi_modem.Base.Int.{ℤ, pos, minus_one}
use bit_magic_zi_modem.SerialPort as Port
use bit_magic_zi_modem.SerialPort.Queue.{Traffic}
use bit_magic_zi_modem.Host.Process.{Process, prints, reads, writes_pin, begins, logs}
use bit_magic_zi_modem.Host.Calls.{
  Call, creates, sets_callbacks, starts, feeds, takes, sets_pin, destroys, thread_moves, acts,
}
use bit_magic_zi_modem.Host.Always.{Always}

abbrev pub AreOctets : List ℕ → Type 0
AreOctets bytes = All (λ b. b < 256) bytes

-- A call hands over values of uint8_t.
abbrev pub HasOctets : Call → Type 0
HasOctets (creates cfg made memory) = Unit
HasOctets (sets_callbacks c) = Unit
HasOctets starts = Unit
HasOctets (feeds bytes) = AreOctets bytes
HasOctets takes = Unit
HasOctets (sets_pin pin value) = Unit
HasOctets (destroys os) = Unit
HasOctets (thread_moves o) = Unit
HasOctets (acts (prints bytes)) = AreOctets bytes
HasOctets (acts reads) = Unit
HasOctets (acts (writes_pin pin value)) = Unit
HasOctets (acts (begins b)) = Unit
HasOctets (acts (logs message)) = Unit

abbrev GoesIn : Traffic × Process → Type 0
GoesIn r = AreOctets r.0.fed × AreOctets r.0.written

-- All calls of a history hand over values of uint8_t.
abbrev pub AllOctets : List Call → Type 0
AllOctets cs = All HasOctets cs

-- What a read of a queue answers: -1 where it is empty, and otherwise its first byte, from 0 to 255.
pub data IsAnswer : List ℕ → ℤ → Type 0 where
  empty : IsAnswer [] minus_one
  octet : (b : ℕ) (rest : List ℕ) → b < 256 → IsAnswer (b ∷ rest) (pos b)
