-- ===== src/Host/Threads/Orders.antt =====
-- Two threads of a careful host write one pin: the calls of the signal callback come in an order of
-- their own.
use bit_magic_zi_modem.Base.{Option, none, ℕ, ◌≡◌, ◌≢◌, Bool, true, false, some, List, [], ◌∷◌}
use bit_magic_zi_modem.Base.Int.{ℤ}
use bit_magic_zi_modem.Pins as Gpio
use bit_magic_zi_modem.Host.Process.{Instance, Process}
use bit_magic_zi_modem.Host.Threads.{
  Delivery, readies, signals, lines, says, resting, System, Step, creates, sets_callbacks, starts,
  feeds, takes, sets_pin, acts, turns, throws, calls, dangles, returns, nests_pin, nests_callbacks,
  stops, releases, Reach, here, next,
}

-- `if (inst->on_signal) inst->on_signal(inst->user_context, pin, value);`, as the pin and the value.
abbrev pub said_to : Option ℕ → ℤ → ℤ → List (ℤ × ℤ) → List (ℤ × ℤ)
said_to none pin value rest = rest
said_to (some cb) pin value rest = (pin, value) ∷ rest

abbrev pub signalled : Delivery → Option ℕ → List (ℤ × ℤ) → List (ℤ × ℤ)
signalled (readies id) cb rest = rest
signalled (signals id pin value) cb rest = said_to cb pin value rest
signalled (lines id baud config) cb rest = rest
signalled (says id message) cb rest = rest

abbrev pub step_told :
    {careful : Bool} {s t : System} → Step careful s t → List (ℤ × ℤ) → List (ℤ × ℤ)
step_told (creates dir id e) rest = rest
step_told (sets_callbacks i id inst c z r e f may) rest = rest
step_told (starts i id inst z r e f may) rest = rest
step_told (feeds bytes) rest = rest
step_told takes rest = rest
step_told (sets_pin i pin value z r may) rest = rest
step_told (acts id inst a r e c) rest = rest
step_told (turns id inst r e w) rest = rest
step_told (throws id inst message r e c) rest = rest
step_told (calls i d inst o e f) rest = signalled d inst.on_signal rest
step_told (dangles i d o e) rest = rest
step_told (returns i id inst h e) rest = rest
step_told (nests_pin i id pin value h p c) rest = rest
step_told (nests_callbacks i id h c) rest = rest
step_told (stops i id inst z r a e may) rest = rest
step_told (releases i id inst e z f j) rest = rest

-- What on_signal of the host was told along the way, the last first.
abbrev pub told : {careful : Bool} {s t : System} → Reach careful s t → List (ℤ × ℤ)
told here = []
told (next r x) = step_told x (told r)

-- A thread that owes a call of the signal callback makes it and comes back.
record Spoken {s t : System} (r : Reach true s t) (i id : ℕ) (inst : Instance) (pin value : ℤ)
    : Type 0 where
  after : System
  path : Reach true s after
  said : told path ≡ (pin, value) ∷ told r
  heap : after.process.instances id ≡ some (record inst { locked = false })
  pins : after.process.pins ≡ t.process.pins
  rest : after.pc i ≡ resting
  others : (j : ℕ) → j ≢ i → after.pc j ≡ t.pc j
